-- ===== src/Init/Outcome.antt =====
-- How a run of chur-init ends.
use chur.Base.{
  Bool, false, Bool-cases, List, [], ◌∷◌, ◌++◌, ◌≡◌, ◌⊎◌, refl, ◌∙◌, inl, inr, ap, Result, ok, err,
}
use chur.Text.{Text, bytes}
use chur.FilePath.{join_path, dir}
use chur.Init.{
  System, Failure, FileOp, mkdir_all, write_file, rename, chmod, fetch, prepare, store, finish,
  main,
}
use chur.Init.Failures.{IsProviderFailure}
use chur.Init.Written.{provider_of, ref_of, mount_of, prepare-ok, stored}

-- One of the four calls that put a secret in its place failed.
pub record IsFileFailure (succeeds : FileOp → Bool) (path secret : Text) : Type 0 where
  pub before : List FileOp
  pub failed : FileOp
  pub after : List FileOp
  pub among : stored path secret ≡ before ++ failed ∷ after
  pub fails : succeeds failed ≡ false

store-ends :
    (succeeds : FileOp → Bool) (path secret : Text)
    → (store succeeds path secret ≡ (0, stored path secret))
      ⊎ (((store succeeds path secret).0 ≡ 1) × IsFileFailure succeeds path secret)
unfolding store
store-ends succeeds path secret =
    let tmp = path ++ bytes ".tmp" in
    let made = mkdir_all (dir path) 448 in
    let wrote = write_file tmp secret 416 in
    let moved = rename tmp path in
    let mode = chmod path 416 in
    elim (Bool-cases (succeeds made)) [
      | inr a ↦ rw a (
          inr (
            refl,
            record {
              before = [];
              failed = made;
              after = wrote ∷ moved ∷ mode ∷ [];
              among = refl;
              fails = a;
            },
          ))
      | inl a ↦ rw a (elim (Bool-cases (succeeds wrote)) [
        | inr b ↦ rw b (
            inr (
              refl,
              record {
                before = made ∷ [];
                failed = wrote;
                after = moved ∷ mode ∷ [];
                among = refl;
                fails = b;
              },
            ))
        | inl b ↦ rw b (elim (Bool-cases (succeeds moved)) [
          | inr c ↦ rw c (
              inr (
                refl,
                record {
                  before = made ∷ wrote ∷ [];
                  failed = moved;
                  after = mode ∷ [];
                  among = refl;
                  fails = c;
                },
              ))
          | inl c ↦ rw c (elim (Bool-cases (succeeds mode)) [
            | inr d ↦ rw d (
                inr (
                  refl,
                  record {
                    before = made ∷ wrote ∷ moved ∷ [];
                    failed = mode;
                    after = [];
                    among = refl;
                    fails = d;
                  },
                ))
            | inl d ↦ rw d (inl refl)
          ])
        ])
      ])
    ]

module _ {E : Type 0} where
  -- A run of chur-init for a ref below a mount path: its provider or the size of the secret ended
  -- it before any call of the file system, or a call of the file system failed for the secret that
  -- was fetched, or that secret is in its place.
  pub data Outcome (sys : System E) (mount ref : Text) : Type 0 where
    refused : (f : Failure E) → IsProviderFailure f → main sys ≡ (1, []) → Outcome sys mount ref
    file_failed :
        (secret : Text)
        → fetch sys (provider_of sys) ref ≡ ok secret
        → (main sys).0 ≡ 1
        → IsFileFailure sys.succeeds (join_path mount ref) secret
        → Outcome sys mount ref
    succeeded :
        (secret : Text)
        → fetch sys (provider_of sys) ref ≡ ok secret
        → main sys ≡ (0, stored (join_path mount ref) secret)
        → Outcome sys mount ref

  finish-Outcome :
      (sys : System E) (r : Result (Failure E) (Text × Text × Text))
      → prepare sys ≡ r
      → ((f : Failure E) → prepare sys ≡ err f → IsProviderFailure f)
      → Outcome sys (mount_of sys) (ref_of sys)
  unfolding main finish
  finish-Outcome sys (err f) e h = refused f (h f e) (rw e refl)
  finish-Outcome sys (ok t) e h =
      let (secret, q, p) = prepare-ok sys e in
      let path = join_path (mount_of sys) (ref_of sys) in
      let run : main sys ≡ store sys.succeeds path secret = rw (e, q) refl in
      elim (store-ends sys.succeeds path secret) [
        | inl s ↦ succeeded secret p.fetched (run ∙ s)
        | inr (s, k) ↦ file_failed secret p.fetched (ap (λ x. x.0) run ∙ s) k
      ]

  -- If its checks can only fail for the provider or the size of the secret, these are the ends.
  pub main-Outcome :
      (sys : System E)
      → ((f : Failure E) → prepare sys ≡ err f → IsProviderFailure f)
      → Outcome sys (mount_of sys) (ref_of sys)
  main-Outcome sys h = finish-Outcome sys (prepare sys) refl h
