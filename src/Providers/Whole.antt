-- ===== src/Providers/Whole.antt =====
-- A provider that reads files returns exactly the whole of one file with a valid name.
use chur.Base.{
  ℕ, ◌<◌, Option, none, some, ◌≡◌, refl, sym, ◌∙◌, ◌≢◌, ◌↔◌, ◌>>=◌, ap, ok, check, map_err,
  bind-eq-ok, map_err-eq-ok, [],
}
use chur.Base.Int.{pos, max_int64}
use chur.Text.{Text}
use chur.Validate.{Reason, validate_secret_ref, validate_keeper_ref}
use chur.Validate.SecretRef.{IsSecretRef, validate_secret_ref_iff}
use chur.Validate.Paths.{IsPath, IsAbsolute, validate_keeper_ref_iff}
use chur.ReadUtil.{Race, ctx_done, read_done, Reader}
use chur.ReadUtil.Bounded.{
  IsContent, bounded-IsContent, IsContent-bounded, read_with_context-bounded,
}
use chur.Providers.{
  ProviderError, bad_ref, no_root, no_file, unread, valid_or, LocalProvider, FsBackend, Files,
  read_file, get_local_secret, get_filesystem_secret,
}

module _ {ℓ} {E : Type ℓ} where
  valid_or-ok :
      (cause : Reason → ProviderError E) (o : Option Reason) {u : Unit {0}}
      → valid_or cause o ≡ ok u
      → o ≡ none
  unfolding valid_or
  valid_or-ok cause none h = refl
  valid_or-ok cause (some r) h = cc

  root-none :
      (o : Option E) {u : Unit {0}}
      → check
          (elim o as (λ _. Option (ProviderError E)) [ none ↦ none | some e ↦ some (no_root e) ])
        ≡ ok u
      → o ≡ none
  root-none none h = refl
  root-none (some e) h = cc

  -- What a local provider returned is a file below its directory.
  pub record IsLocalSecret (files : Files E) (root : Text) (max : ℕ) (ref content : Text)
      : Type ℓ where
    pub file : Reader E
    pub opened : files.open_file root ref ≡ ok file
    pub read : IsContent max file.stream content
    pub in_time : files.race ≡ read_done

  read_file-ok :
      (race : Race E) (max : ℕ) (r : Reader E) {content : Text}
      → max < max_int64
      → read_file race (pos max) r ≡ ok content
      → IsContent max r.stream content × (race ≡ read_done)
  unfolding read_file
  read_file-ok (ctx_done e) max r m h =
      let (b, c, d) = read_with_context-bounded max r m in
      absurd (cc (c e, map_err-eq-ok unread _ h))
  read_file-ok read_done max r m h =
      let (b, c, d) = read_with_context-bounded max r m in
      (bounded-IsContent max r.stream (sym b ∙ map_err-eq-ok unread _ h), refl)

  opened-IsLocalSecret :
      (files : Files E) (root : Text) (max : ℕ) (ref : Text) {content : Text}
      → max < max_int64
      → (map_err no_file (files.open_file root ref) >>= λ r. read_file files.race (pos max) r)
        ≡ ok content
      → IsLocalSecret files root max ref content
  opened-IsLocalSecret files root max ref m h =
      let (r, c, h2) = bind-eq-ok (map_err no_file (files.open_file root ref)) _ h in
      let (k, q) = read_file-ok files.race max r m h2 in
      record { file = r; opened = map_err-eq-ok no_file _ c; read = k; in_time = q }

  IsLocalSecret-opened :
      (files : Files E) (root : Text) (max : ℕ) (ref : Text) {content : Text}
      → max < max_int64
      → IsLocalSecret files root max ref content
      → (map_err no_file (files.open_file root ref) >>= λ r. read_file files.race (pos max) r)
        ≡ ok content
  unfolding read_file
  IsLocalSecret-opened files root max ref m k =
      let (b, c, d) = read_with_context-bounded max k.file m in
      rw (k.opened, k.in_time)
        (ap (map_err unread) (b ∙ IsContent-bounded max k.file.stream k.read))

  -- The local provider, with a limit below 2^63 - 1, returns a secret exactly if its ref is a valid
  -- file name, its directory can be opened, and the secret is the whole content of the file of that
  -- name below it, read in time, without an error and within the limit.
  pub get_local_secret_iff :
      (files : Files E) (p : LocalProvider) (max : ℕ) (ref : Text) {content : Text}
      → p.max_size ≡ pos max
      → max < max_int64
      → (get_local_secret files p ref ≡ ok content) ↔ (
          IsSecretRef ref
          × (files.open_root p.base_path ≡ none)
          × IsLocalSecret files p.base_path max ref content)
  unfolding get_local_secret valid_or
  get_local_secret_iff files p max ref e m = (
    λ h.
        let (u1, a, h1) = bind-eq-ok (valid_or bad_ref (validate_secret_ref ref)) _ h in
        let (u2, b, h2) =
          bind-eq-ok
            (check (elim (files.open_root p.base_path) [ none ↦ none | some e ↦ some (no_root e) ]))
            _ h1 in
        (
          (validate_secret_ref_iff ref).0 (valid_or-ok bad_ref _ a),
          root-none (files.open_root p.base_path) b,
          opened-IsLocalSecret files p.base_path max ref m (rw e at h2),
        ),
    λ (v, o, k).
        rw ((validate_secret_ref_iff ref).1 v, o, e)
          (IsLocalSecret-opened files p.base_path max ref m k),
  )

  -- The keeper's filesystem backend, with a limit below 2^63 - 1, returns a secret exactly if its
  -- ref is a relative path with no `..`, and the secret is the whole content of the file at that
  -- path below the backend's directory, read in time, without an error and within the limit.
  pub get_filesystem_secret_iff :
      (files : Files E) (b : FsBackend) (max : ℕ) (ref : Text) {content : Text}
      → b.max_size ≡ pos max
      → max < max_int64
      → (get_filesystem_secret files b ref ≡ ok content) ↔ (
          ((ref ≢ []) × (¬ IsAbsolute ref) × IsPath ref)
          × IsLocalSecret files b.root max ref content)
  unfolding get_filesystem_secret valid_or
  get_filesystem_secret_iff files b max ref e m = (
    λ h.
        let (u1, a, h1) = bind-eq-ok (valid_or bad_ref (validate_keeper_ref ref)) _ h in
        (
          (validate_keeper_ref_iff ref).0 (valid_or-ok bad_ref _ a),
          opened-IsLocalSecret files b.root max ref m (rw e at h1),
        ),
    λ (v, k).
        rw ((validate_keeper_ref_iff ref).1 v, e) (IsLocalSecret-opened files b.root max ref m k),
  )
