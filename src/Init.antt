-- ===== src/Init.antt =====
-- chur-init (cmd/init/main.go): it makes the provider, fetches the secret and writes it below the
-- mount path. The environment, the registry of providers, the file system's answers and the ends
-- of the waits are parameters; log records, delays and file contents on disk are not modelled.
pub mod Retry
pub mod Attempts
pub mod Failures
pub mod Outcome
pub mod Written
use chur.Base.{
  ℕ, Bool, true, false, not, Option, none, some, List, [], ◌∷◌, ◌++◌, if◌then◌else◌, Result, ok,
  err, check, map_err, ◌>>=◌, ◌>>◌, length,
}
use chur.Base.Int.{ℤ, pos, ltb_ℤ}
use chur.Text.{Text, bytes, is_empty, text_eq}
use chur.FilePath.{join_path, dir}
use chur.Validate.{Reason, validate_secret_ref, validate_keeper_ref, validate_mount_path}
use chur.ByteSize.{SizeError}
use chur.Init.Retry.{retry}
use chur.EnvName
use chur.ByteSize

-- The calls that change the file system, with their modes.
pub data FileOp : Type 0 where
  mkdir_all : Text → ℕ → FileOp
  write_file : Text → Text → ℕ → FileOp
  rename : Text → Text → FileOp
  remove : Text → FileOp
  chmod : Text → ℕ → FileOp

-- The reasons of an exit with status 1 before any file is touched.
pub data Failure {ℓ} (E : Type ℓ) : Type ℓ where
  no_ref : Failure E
  bad_ref bad_mount : Reason → Failure E
  unknown_provider : Text → Failure E
  no_provider no_secret : Option E → Failure E
  bad_size : SizeError → Failure E
  exceeds_max : Failure E

-- A provider: the n-th call of GetSecret with a ref.
pub record Provider {ℓ} (E : Type ℓ) : Type ℓ where
  pub get_secret : ℕ → Text → Result E Text

-- What surrounds the process. `create name n` is the n-th call of a registered factory, and
-- `create_wait n` and `fetch_wait n` are the context's error if it ends the wait before call n.
pub record System {ℓ} (E : Type ℓ) : Type ℓ where
  pub getenv : Text → Text
  pub registered : Text → Option (ℕ → Result E (Provider E))
  pub create_wait : ℕ → Option E
  pub fetch_wait : ℕ → Option E
  pub succeeds : FileOp → Bool

-- A variable's value, or the default where it is empty.
unfoldable pub or_else : Text → Text → Text
or_else value default = if is_empty value then default else value

unfoldable pub resolve_validator : Text → Text → Option Reason
resolve_validator provider_name ref =
    if text_eq provider_name (bytes "keeper")
    then validate_keeper_ref ref
    else validate_secret_ref ref

-- A Go `error` of the given cause.
abbrev refuse {ℓ} : {E : Type ℓ} → (Reason → Failure E) → Option Reason → Option (Failure E)
refuse cause none = none
refuse cause (some r) = some (cause r)

-- The exit status, and the file system calls that were made, in their order.
unfoldable pub store : (FileOp → Bool) → Text → Text → ℕ × List FileOp
store succeeds path secret =
    let tmp = path ++ bytes ".tmp" in
    let made = mkdir_all (dir path) 448 in
    let wrote = write_file tmp secret 416 in
    let moved = rename tmp path in
    let mode = chmod path 416 in
    if not (succeeds made)
    then (1, made ∷ [])
    else if not (succeeds wrote)
    then (1, made ∷ wrote ∷ remove tmp ∷ [])
    else if not (succeeds moved)
    then (1, made ∷ wrote ∷ moved ∷ remove tmp ∷ [])
    else if not (succeeds mode)
    then (1, made ∷ wrote ∷ moved ∷ mode ∷ [])
    else (0, made ∷ wrote ∷ moved ∷ mode ∷ [])

module _ {ℓ} {E : Type ℓ} where
  unfoldable pub require : Bool → Failure E → Result (Failure E) (Unit {0})
  require true f = ok tt
  require false f = err f

  unfoldable pub require_valid :
      (Reason → Failure E) → Option Reason → Result (Failure E) (Unit {0})
  require_valid cause o = check (refuse cause o)

  unfoldable pub factory_of : System E → Text → Result (Failure E) (ℕ → Result E (Provider E))
  factory_of sys name = elim (sys.registered name) [
    | none ↦ err (unknown_provider name)
    | some f ↦ ok f
  ]

  -- initProvider, then backoffFetch
  unfoldable pub fetch : System E → Text → Text → Result (Failure E) Text
  unfolding factory_of
  fetch sys provider_name ref = do
    factory ← factory_of sys provider_name
    p ← map_err no_provider (retry sys.create_wait factory)
    map_err no_secret (retry sys.fetch_wait (λ n. p.get_secret n ref))

  -- The secret and the mount path, once everything has been checked.
  unfoldable pub prepare : System E → Result (Failure E) (Text × Text × Text)
  unfolding fetch
  prepare sys = do
    let provider_name = or_else (sys.getenv EnvName.provider) (bytes "env")
    let ref = sys.getenv EnvName.secret_ref
    let mount = or_else (sys.getenv EnvName.mount_path) (bytes "/secrets")
    require (not (is_empty ref)) no_ref
    require_valid bad_ref (resolve_validator provider_name ref)
    secret ← fetch sys provider_name ref
    max ←
        map_err bad_size
          (ByteSize.parse (or_else (sys.getenv EnvName.max_secret_size) (bytes "1Mi")))
    require (not (ltb_ℤ max (pos (length secret)))) exceeds_max
    require_valid bad_mount (validate_mount_path mount)
    ok (mount, ref, secret)

  unfoldable pub finish :
      (FileOp → Bool) → Result (Failure E) (Text × Text × Text) → ℕ × List FileOp
  unfolding store
  finish succeeds (err f) = (1, [])
  finish succeeds (ok (mount, ref, secret)) = store succeeds (join_path mount ref) secret

  unfoldable pub main : System E → ℕ × List FileOp
  unfolding prepare finish
  main sys = finish sys.succeeds (prepare sys)
