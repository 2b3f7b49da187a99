-- ===== src/Providers.antt =====
-- The env and local providers of chur-init and the keeper's filesystem backend
-- (internal/providers/env, internal/providers/local, internal/keeper/filesystem). The file system
-- is a parameter: what opening a file below a directory gives, its error among it.
pub mod K8s
pub mod KeeperClient
pub mod Whole
use chur.Base.{
  ℕ, Bool, true, false, Option, none, some, if◌then◌else◌, Result, ok, err, ◌>>=◌, ◌>>◌, check,
  map_err,
}
use chur.Base.Int.{ℤ, pos, ltb_ℤ}
use chur.Text.{Text, bytes, is_empty}
use chur.Validate.{Reason, validate_secret_ref, validate_keeper_ref, validate_local_base_path}
use chur.ByteSize.{SizeError}
use chur.ReadUtil.{ReadError, Race, Reader, read_with_context}
use chur.EnvName
use chur.ByteSize

pub data ProviderError {ℓ} (E : Type ℓ) : Type ℓ where
  bad_ref bad_base_path : Reason → ProviderError E
  not_set : Text → ProviderError E
  no_root no_file : E → ProviderError E
  bad_size : SizeError → ProviderError E
  unread : ReadError E → ProviderError E

-- `if err := validate(s); err != nil { return ... }`
unfoldable pub valid_or {ℓ} :
    {E : Type ℓ} → (Reason → ProviderError E) → Option Reason → Result (ProviderError E) (Unit {0})
valid_or cause none = ok tt
valid_or cause (some r) = err (cause r)

-- LocalProvider
pub record LocalProvider : Type 0 where
  pub base_path : Text
  pub max_size : ℤ

-- FSBackend, with the path of its root
pub record FsBackend : Type 0 where
  pub root : Text
  pub max_size : ℤ

-- EnvProvider.GetSecret, with the lookup of a variable
unfoldable pub get_env_secret {ℓ} :
    {E : Type ℓ} → (Text → Option Text) → Text → Result (ProviderError E) Text
get_env_secret lookup_env ref = elim (lookup_env ref) [
  | none ↦ err (not_set ref)
  | some value ↦ ok value
]

-- The directory of the local secrets, with its default.
unfoldable pub base_path_of : Text → Text
base_path_of v = if is_empty v then bytes "/etc/chur/secrets" else v

-- os.OpenRoot and Root.Open; the race is between the context and the read of the file.
pub record Files {ℓ} (E : Type ℓ) : Type ℓ where
  pub open_root : Text → Option E
  pub open_file : Text → Text → Result E (Reader E)
  pub race : Race E

module _ {ℓ} {E : Type ℓ} where
  -- The read of an opened file.
  unfoldable pub read_file : Race E → ℤ → Reader E → Result (ProviderError E) Text
  read_file race max_size r = map_err unread (read_with_context race max_size r).0

  -- LocalProvider.GetSecret
  unfoldable pub get_local_secret : Files E → LocalProvider → Text → Result (ProviderError E) Text
  unfolding read_file valid_or
  get_local_secret files p ref = do
    valid_or bad_ref (validate_secret_ref ref)
    check (elim (files.open_root p.base_path) [ none ↦ none | some e ↦ some (no_root e) ])
    r ← map_err no_file (files.open_file p.base_path ref)
    read_file files.race p.max_size r

  -- NewWithMaxSize, with the result of os.OpenRoot
  unfoldable pub new_with_max_size : Option E → Text → ℤ → Result (ProviderError E) FsBackend
  new_with_max_size (some e) root max_size = err (no_root e)
  new_with_max_size none root max_size = ok (record { root = root; max_size = max_size })

  -- FSBackend.GetSecret, below the root that was opened with the backend
  unfoldable pub get_filesystem_secret : Files E → FsBackend → Text → Result (ProviderError E) Text
  unfolding read_file valid_or
  get_filesystem_secret files b ref = do
    valid_or bad_ref (validate_keeper_ref ref)
    r ← map_err no_file (files.open_file b.root ref)
    read_file files.race b.max_size r

  -- The limit from CHUR_MAX_SECRET_SIZE: 1 MiB where it is empty or not positive.
  unfoldable pub size_limit : Text → Result (ProviderError E) ℤ
  size_limit v =
      if is_empty v
      then ok (pos 1048576)
      else map_err bad_size (ByteSize.parse v) >>= λ n.
          ok (if ltb_ℤ (pos 0) n then n else pos 1048576)

  -- The factory of the local provider.
  unfoldable pub new_local : (Text → Text) → Result (ProviderError E) LocalProvider
  unfolding size_limit base_path_of valid_or
  new_local getenv = do
    valid_or bad_base_path
        (validate_local_base_path (base_path_of (getenv EnvName.local_base_path)))
    max_size ← size_limit (getenv EnvName.max_secret_size)
    ok (record { base_path = base_path_of (getenv EnvName.local_base_path); max_size = max_size })
