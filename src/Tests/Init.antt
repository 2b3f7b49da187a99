-- ===== src/Tests/Init.antt =====
-- chur-init in a concrete environment.
use chur.Base.{
  ℕ, zero, suc, Bool, true, false, Option, none, some, List, [], ◌∷◌, ◌++◌, ◌≡◌, refl, ◌≢◌, ◌↔◌,
  arith, Result, ok, err,
}
use chur.Text.{Text, bytes}
use chur.FilePath.{dir}
use chur.Init.{System, Provider, FileOp, mkdir_all, write_file, rename, chmod, store, main}
use chur.Init.Retry.{retry}
use chur.Init.Attempts.{IsFirstSuccess, retry_iff}
use chur.Init.Written.{IsWritten, main-IsWritten, stored}
use chur.EnvName
use chur.Dict.{get}

-- Two failures, and then success.
abbrev third_time : ℕ → Result ℕ Text
third_time zero = err 1
third_time (suc zero) = err 2
third_time (suc (suc n)) = ok (bytes "s3cret")

abbrev no_end : ℕ → Option ℕ
no_end n = none

retry_iff_example :
    (retry no_end third_time ≡ ok (bytes "s3cret"))
    ↔ IsFirstSuccess no_end third_time 0 5 (bytes "s3cret")
retry_iff_example = retry_iff no_end third_time (bytes "s3cret")

abbrev provider : Provider ℕ
provider = record { get_secret = λ n ref. third_time n }

abbrev node : System ℕ
node = record {
  getenv = λ name. get name ((bytes "CHUR_SECRET_REF", bytes "db") ∷ []);
  registered = λ name. some (λ n. ok provider);
  create_wait = no_end;
  fetch_wait = no_end;
  succeeds = λ op. true;
}

node_ran : main node ≡ (0, stored (bytes "/secrets/db") (bytes "s3cret"))
unfolding main store get chur.Dict.lookup chur.Text.text_eq EnvName.provider EnvName.secret_ref
    EnvName.mount_path EnvName.max_secret_size chur.Validate.validate_secret_ref
    chur.Validate.validate_mount_path chur.Validate.first_invalid chur.Text.contains
    chur.Validate.has_slash chur.Text.contains_byte chur.Text.has_prefix chur.Text.Runes.runes
    chur.Validate.is_allowed_rune chur.Validate.is_allowed_mount_rune chur.Text.last_byte
    chur.ByteSize.parse chur.Text.Trim.trim_space chur.Text.Trim.has_suffix chur.Base.Int.wrap_int64
    chur.FilePath.join_path chur.Init.Retry.retry chur.Init.require chur.Init.require_valid
    chur.Init.resolve_validator chur.Init.or_else chur.Init.Retry.attempts
    chur.Init.Retry.after_wait chur.Init.Retry.pause chur.Init.Retry.after_call
node_ran = refl

node_writes : (main node).1 ≢ []
node_writes h = cc (chur.Base.ap (λ r. r.1) node_ran)

main-IsWritten_example : IsWritten node
main-IsWritten_example = main-IsWritten node node_writes
