-- ===== src/Init/Failures.antt =====
-- Why chur-init fails when its environment is valid.
use chur.Base.{
  Bool, true, false, not, Option, none, Option-cases, [], ◌∷◌, ◌≡◌, ◌≢◌, refl, sym, subst, inl, inr,
  Result, ok, err, ◌>>=◌, ◌>>◌, map_err, bind-eq-err, map_err-eq-err, err-injective, length,
}
use chur.Base.Int.{ℤ, pos, ltb_ℤ}
use chur.Text.{Text, is_empty}
use chur.Validate.{validate_mount_path}
use chur.Init.{
  System, Failure, no_ref, bad_mount, unknown_provider, no_provider, no_secret, bad_size,
  exceeds_max, resolve_validator, require, require_valid, factory_of, fetch, prepare,
}
use chur.Init.Retry.{retry}
use chur.Init.Written.{provider_of, ref_of, mount_of, max_of}
use chur.ByteSize

-- The failures that only a provider or the size of its secret can cause.
pub data IsProviderFailure {E : Type 0} : Failure E → Type 0 where
  unknown : (name : Text) → IsProviderFailure (unknown_provider name)
  not_made : (e : Option E) → IsProviderFailure (no_provider e)
  not_fetched : (e : Option E) → IsProviderFailure (no_secret e)
  too_large : IsProviderFailure exceeds_max

not_empty : (t : Text) → t ≢ [] → not (is_empty t) ≡ true
not_empty [] n = absurd (n refl)
not_empty (b ∷ bs) n = refl

module _ {E : Type 0} where
  factory_of-err :
      (sys : System E) (name : Text) {f : Failure E}
      → factory_of sys name ≡ err f
      → f ≡ unknown_provider name
  unfolding factory_of
  factory_of-err sys name h = elim (Option-cases (sys.registered name)) [
    | inl n ↦ sym (err-injective (rw (n, factory_of) at h))
    | inr (x, n) ↦ absurd (cc (rw (n, factory_of) at h))
  ]

  fetch-failure :
      (sys : System E) (name ref : Text) {f : Failure E}
      → fetch sys name ref ≡ err f
      → IsProviderFailure f
  unfolding fetch
  fetch-failure sys name ref h = elim (bind-eq-err (factory_of sys name) _ h) [
    | inl a ↦ rw (factory_of-err sys name a) (unknown name)
    | inr (factory, a, h1) ↦
        elim (bind-eq-err (map_err no_provider (retry sys.create_wait factory)) _ h1) [
          | inl b ↦
              let (e, r, q) = map_err-eq-err no_provider _ b in
              subst IsProviderFailure q (not_made e)
          | inr (p, b, h2) ↦
              let (e, r, q) = map_err-eq-err no_secret _ h2 in
              subst IsProviderFailure q (not_fetched e)
        ]
  ]

  fits-failure : (b : Bool) {f : Failure E} → require b exceeds_max ≡ err f → IsProviderFailure f
  unfolding require
  fits-failure true h = absurd (cc)
  fits-failure false h = subst IsProviderFailure (err-injective h) too_large

  require-true : (b : Bool) (f : Failure E) → b ≡ true → require b f ≡ ok tt
  unfolding require
  require-true b f h = rw h refl

  -- The checks behind the fetch.
  abbrev checked : System E → Text → Result (Failure E) (Text × Text × Text)
  checked sys secret = do
    max ← map_err bad_size (ByteSize.parse (max_of sys))
    require (not (ltb_ℤ max (pos (length secret)))) exceeds_max
    require_valid bad_mount (validate_mount_path (mount_of sys))
    ok (mount_of sys, ref_of sys, secret)

  checked-failure :
      (sys : System E) (secret : Text) {f : Failure E} {max : ℤ}
      → ByteSize.parse (max_of sys) ≡ ok max
      → validate_mount_path (mount_of sys) ≡ none
      → checked sys secret ≡ err f
      → IsProviderFailure f
  unfolding require_valid
  checked-failure sys secret {max = max} m p h =
      elim (bind-eq-err (require (not (ltb_ℤ max (pos (length secret)))) exceeds_max) _
        (rw (m, p) at h)) [ inl a ↦ fits-failure _ a | inr (u, a, h1) ↦ absurd (cc) ]

  -- With a ref, a mount path and a size that pass its checks, chur-init can only fail for its
  -- provider or for the size of the secret.
  pub prepare-failure :
      (sys : System E) {f : Failure E} {max : ℤ}
      → ref_of sys ≢ []
      → resolve_validator (provider_of sys) (ref_of sys) ≡ none
      → ByteSize.parse (max_of sys) ≡ ok max
      → validate_mount_path (mount_of sys) ≡ none
      → prepare sys ≡ err f
      → IsProviderFailure f
  unfolding prepare require_valid
  prepare-failure sys n v m p h =
      elim (bind-eq-err (fetch sys (provider_of sys) (ref_of sys)) _ (
        rw (require-true (not (is_empty (ref_of sys))) no_ref (not_empty (ref_of sys) n), v) at
          h)) [
            | inl a ↦ fetch-failure sys _ _ a
            | inr (secret, a, h1) ↦ checked-failure sys secret m p h1
          ]
