-- ===== src/Tests/Providers.antt =====
-- The providers, the exec backend and the registry at concrete files, commands and names.
use chur.Base.{
  ℕ, Bool, true, false, Option, none, some, List, [], ◌∷◌, ◌≡◌, refl, ◌≢◌, ◌↔◌, arith, Result, ok,
  err,
}
use chur.Base.Int.{pos}
use chur.Text.{Text, bytes}
use chur.Dict.{Dict, lookup}
use chur.Validate.SecretRef.{IsSecretRef}
use chur.Validate.Paths.{IsPath, IsAbsolute}
use chur.ReadUtil.{Reader, Race, read_done}
use chur.Providers.{Files, LocalProvider, get_local_secret, get_filesystem_secret}
use chur.Providers.Whole.{IsLocalSecret, get_local_secret_iff}
use chur.Keeper.Exec.{Command, get_exec_secret}
use chur.Keeper.Exec.Output.{IsOutput, get_exec_secret_iff}
use chur.Registry.{register}

-- A directory in which every file holds the same six bytes.
abbrev secret_file : Reader ℕ
secret_file = record {
  stream = record { content = bytes "s3cret"; failure = none };
  closed = false;
}

abbrev files : Files ℕ
files = record {
  open_root = λ root. none;
  open_file = λ root ref. ok secret_file;
  race = read_done;
}

abbrev local_provider : LocalProvider
local_provider = record { base_path = bytes "/etc/chur/secrets"; max_size = pos 6 }

get_local_secret_iff_example :
    (get_local_secret files local_provider (bytes "db") ≡ ok (bytes "s3cret")) ↔ (
      IsSecretRef (bytes "db")
      × (files.open_root local_provider.base_path ≡ none)
      × IsLocalSecret files local_provider.base_path 6 (bytes "db") (bytes "s3cret"))
get_local_secret_iff_example =
    get_local_secret_iff files local_provider 6 (bytes "db") refl (omega arith)

local_read : get_local_secret files local_provider (bytes "db") ≡ ok (bytes "s3cret")
unfolding get_local_secret chur.Validate.validate_secret_ref chur.Text.text_eq chur.Text.contains
    chur.Validate.has_slash chur.Text.contains_byte chur.Validate.first_invalid
    chur.Text.Runes.runes chur.Validate.is_allowed_rune chur.Text.last_byte
    chur.ReadUtil.read_with_context chur.Io.read_limited chur.Base.Int.succ_int64
local_read = refl

file_read :
    get_filesystem_secret files (record { root = bytes "/data"; max_size = pos 6 }) (bytes "a/b")
    ≡ ok (bytes "s3cret")
unfolding get_filesystem_secret chur.Validate.validate_keeper_ref chur.Text.has_prefix
    chur.Text.contains chur.Validate.first_invalid chur.Text.Runes.runes
    chur.Validate.is_keeper_rune chur.ReadUtil.read_with_context chur.Io.read_limited
    chur.Base.Int.succ_int64
file_read = refl

abbrev run : Text → Command ℕ
run ref = record {
  pipe_failure = none;
  start_failure = none;
  stdout = record { content = ref; failure = none };
  wait_failure = none;
  ctx_ended = false;
}

echoed : get_exec_secret (pos 10) run (bytes "a/b") ≡ ok (bytes "a/b")
unfolding get_exec_secret chur.Validate.validate_keeper_ref chur.Text.has_prefix chur.Text.contains
    chur.Validate.first_invalid chur.Text.Runes.runes chur.Validate.is_keeper_rune
    chur.Io.read_limited chur.Base.Int.succ_int64
echoed = refl

get_exec_secret_iff_example : (get_exec_secret (pos 10) run (bytes "a/b") ≡ ok (bytes "a/b")) ↔ (
    ((bytes "a/b" ≢ []) × (¬ IsAbsolute (bytes "a/b")) × IsPath (bytes "a/b"))
    × IsOutput 10 (run (bytes "a/b")) (bytes "a/b"))
get_exec_secret_iff_example = get_exec_secret_iff 10 run (bytes "a/b") (omega arith)

-- A registry with one provider, and another that joins it.
abbrev one_factory : Dict ℕ
one_factory = (bytes "env", 1) ∷ []

local_registered :
    register one_factory (bytes "local") (some 2) ≡ ok ((bytes "local", 2) ∷ one_factory)
unfolding register lookup chur.Text.text_eq
local_registered = refl
