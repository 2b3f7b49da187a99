-- ===== src/Init/Written.antt =====
-- What chur-init has checked when it touches the file system, and what it leaves there.
use chur.Base.{
  Bool, true, false, not, Option, none, some, List, [], ◌∷◌, ◌++◌, ◌≡◌, ◌≢◌, refl, sym, ◌↔◌, inl,
  inr, arith, Result, ok, err, map_err, bind-eq-ok, map_err-eq-ok, ok-injective, length,
}
use chur.Base.Int.{ℤ, pos, ltb_ℤ}
use chur.Text.{Text, bytes, is_empty, text_eq}
use chur.FilePath.{join_path, dir}
use chur.Validate.{Reason, validate_keeper_ref, validate_mount_path}
use chur.Validate.SecretRef.{IsSecretRef, validate_secret_ref_iff}
use chur.Validate.Paths.{IsPath, IsAbsolute, validate_mount_path_iff, validate_keeper_ref_iff}
use chur.Init.{
  System, Failure, FileOp, mkdir_all, write_file, rename, chmod, no_ref, bad_ref, bad_size,
  bad_mount, exceeds_max, or_else, resolve_validator, require, require_valid, fetch, prepare, store,
  finish, main,
}
use chur.EnvName
use chur.ByteSize

or_else-ne : (value default : Text) → default ≢ [] → or_else value default ≢ []
unfolding or_else
or_else-ne [] default h = h
or_else-ne (c ∷ value) default h = λ q. cc

keeper_valid : (ref : Text) → validate_keeper_ref ref ≡ none → (¬ IsAbsolute ref) × IsPath ref
keeper_valid ref h = let (ne, a, p) = (validate_keeper_ref_iff ref).0 h in (a, p)

module _ {ℓ} {E : Type ℓ} where
  -- What the environment of the process names.
  abbrev pub provider_of : System E → Text
  provider_of sys = or_else (sys.getenv EnvName.provider) (bytes "env")

  abbrev pub ref_of : System E → Text
  ref_of sys = sys.getenv EnvName.secret_ref

  abbrev pub mount_of : System E → Text
  mount_of sys = or_else (sys.getenv EnvName.mount_path) (bytes "/secrets")

  abbrev pub max_of : System E → Text
  max_of sys = or_else (sys.getenv EnvName.max_secret_size) (bytes "1Mi")

  -- What has been checked before the first call of the file system.
  pub record IsPrepared (sys : System E) (secret : Text) : Type ℓ where
    pub file_ref : text_eq (provider_of sys) (bytes "keeper") ≡ false → IsSecretRef (ref_of sys)
    pub keeper_ref :
        text_eq (provider_of sys) (bytes "keeper") ≡ true
        → (¬ IsAbsolute (ref_of sys)) × IsPath (ref_of sys)
    pub mount : IsAbsolute (mount_of sys) × IsPath (mount_of sys)
    pub fetched : fetch sys (provider_of sys) (ref_of sys) ≡ ok secret
    pub max : ℤ
    pub max_is : ByteSize.parse (max_of sys) ≡ ok max
    pub fits : ltb_ℤ max (pos (length secret)) ≡ false

  require-ok : (b : Bool) (f : Failure E) {u : Unit {0}} → require b f ≡ ok u → b ≡ true
  unfolding require
  require-ok true f h = refl
  require-ok false f h = cc

  require_valid-ok :
      (cause : Reason → Failure E) (o : Option Reason) {u : Unit {0}}
      → require_valid cause o ≡ ok u
      → o ≡ none
  unfolding require_valid
  require_valid-ok cause none h = refl
  require_valid-ok cause (some r) h = cc

  mount_valid :
      (sys : System E)
      → validate_mount_path (mount_of sys) ≡ none
      → IsAbsolute (mount_of sys) × IsPath (mount_of sys)
  mount_valid sys h = elim ((validate_mount_path_iff (mount_of sys)).0 h) [
    | inl e ↦ absurd (or_else-ne (sys.getenv EnvName.mount_path) (bytes "/secrets") (λ q. cc) e)
    | inr v ↦ v
  ]

  pub prepare-ok :
      (sys : System E) {t : Text × Text × Text}
      → prepare sys ≡ ok t
      → (secret : Text) × (t ≡ (mount_of sys, ref_of sys, secret)) × IsPrepared sys secret
  unfolding prepare
  prepare-ok sys h =
      let (u1, a, h1) = bind-eq-ok (require (not (is_empty (ref_of sys))) no_ref) _ h in
      let (u2, b, h2) =
        bind-eq-ok (require_valid bad_ref (resolve_validator (provider_of sys) (ref_of sys))) _
          h1 in
      let (secret, c, h3) = bind-eq-ok (fetch sys (provider_of sys) (ref_of sys)) _ h2 in
      let (max, d, h4) = bind-eq-ok (map_err bad_size (ByteSize.parse (max_of sys))) _ h3 in
      let (u3, e, h5) =
        bind-eq-ok (require (not (ltb_ℤ max (pos (length secret)))) exceeds_max) _ h4 in
      let (u4, f, h6) =
        bind-eq-ok (require_valid bad_mount (validate_mount_path (mount_of sys))) _ h5 in
      let r = require_valid-ok bad_ref _ b in
      (
        secret,
        sym (ok-injective h6),
        record {
          file_ref = λ g. (validate_secret_ref_iff _).0 (unfold resolve_validator in rw g at r);
          keeper_ref = λ g. keeper_valid _ (unfold resolve_validator in rw g at r);
          mount = mount_valid sys (require_valid-ok bad_mount _ f);
          fetched = c;
          max = max;
          max_is = map_err-eq-ok bad_size _ d;
          fits = let n = require-ok _ exceeds_max e in ground arith;
        },
      )

  -- The calls of a run that got to the file system.
  pub record IsWritten (sys : System E) : Type ℓ where
    pub secret : Text
    pub prepared : IsPrepared sys secret
    pub run : main sys ≡ store sys.succeeds (join_path (mount_of sys) (ref_of sys)) secret

  finish-IsWritten :
      (sys : System E) (r : Result (Failure E) (Text × Text × Text))
      → prepare sys ≡ r
      → (main sys).1 ≢ []
      → IsWritten sys
  unfolding main finish
  finish-IsWritten sys (err f) e ne = absurd (ne (rw e refl))
  finish-IsWritten sys (ok t) e ne =
      let (secret, q, p) = prepare-ok sys e in
      record { secret = secret; prepared = p; run = rw (e, q) refl }

  -- If chur-init makes any call that changes the file system, then the ref is valid for its
  -- provider, the mount path is absolute and valid, the secret was fetched from the provider and
  -- is not larger than the limit, and the calls are those of storing that secret at the join of
  -- the mount path and the ref.
  pub main-IsWritten : (sys : System E) → (main sys).1 ≢ [] → IsWritten sys
  main-IsWritten sys ne = finish-IsWritten sys (prepare sys) refl ne

-- The calls that put a secret in its place.
abbrev pub stored : Text → Text → List FileOp
stored path secret =
    mkdir_all (dir path) 448
    ∷ write_file (path ++ bytes ".tmp") secret 416
    ∷ rename (path ++ bytes ".tmp") path
    ∷ chmod path 416
    ∷ []

-- Storing a secret ends with status 0 exactly if all its four calls are made and succeed: the
-- directory, the temporary file, its renaming and the mode of the result.
pub store_iff :
    (succeeds : FileOp → Bool) (path secret : Text)
    → ((store succeeds path secret).0 ≡ 0) ↔ (
        ((store succeeds path secret).1 ≡ stored path secret)
        × (succeeds (mkdir_all (dir path) 448) ≡ true)
        × (succeeds (write_file (path ++ bytes ".tmp") secret 416) ≡ true)
        × (succeeds (rename (path ++ bytes ".tmp") path) ≡ true)
        × (succeeds (chmod path 416) ≡ true))
unfolding store
store_iff succeeds path secret = ground arith
