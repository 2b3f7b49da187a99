-- ===== src/Keeper/Config.antt =====
-- The keeper's configuration from the environment (internal/keeper/config.go). The backend itself
-- is made by the command; a time.Duration is an int64 of nanoseconds.
pub mod WellFormed
use chur.Base.{
  ℕ, zero, suc, ◌*◌, [], Bool, true, false, if◌then◌else◌, Option, none, some, Result, ok, err,
  ◌>>=◌, ◌>>◌, map_err,
}
use chur.Base.Int.{ℤ, pos, negsuc, wrap_int64}
use chur.Text.{Text, bytes, is_empty, text_eq}
use chur.StrConv.{NumError, parse_int}
use chur.Validate.{Reason, validate_local_base_path}
use chur.ByteSize.{SizeError}
use chur.ByteSize

pub data TlsMode : Type 0 where
  self_signed mtls : TlsMode

pub record Config : Type 0 where
  pub listen : Text
  pub health_listen : Text
  pub tls_mode : TlsMode
  pub tls_cert_file : Text
  pub tls_key_file : Text
  pub client_ca_file : Text
  pub backend_type : Text
  pub fs_root : Text
  pub max_secret_size : ℤ
  pub max_concurrent : ℤ
  pub exec_command : Text
  pub exec_timeout : ℤ
  pub exec_max_stdout : ℤ
  pub http_url : Text
  pub http_token_file : Text
  pub http_timeout : ℤ

-- The variable that a value is refused for.
pub data ConfigError : Type 0 where
  bad_tls_mode : Text → ConfigError
  bad_fs_root : Reason → ConfigError
  bad_max_secret_size : SizeError → ConfigError
  bad_max_concurrent bad_exec_timeout bad_exec_max_stdout bad_http_timeout : Text → ConfigError

-- time.Duration(d) * time.Second, for a d that is not negative
unfoldable pub seconds : ℕ → ℤ
seconds d = wrap_int64 (d * 1000000000)

unfoldable pub default_config : Config
unfolding seconds wrap_int64
default_config = record {
  listen = bytes ":9443";
  health_listen = bytes ":9444";
  tls_mode = self_signed;
  tls_cert_file = [];
  tls_key_file = [];
  client_ca_file = [];
  backend_type = [];
  fs_root = bytes "/var/lib/chur-keeper/secrets";
  max_secret_size = pos 1048576;
  max_concurrent = pos 100;
  exec_command = [];
  exec_timeout = seconds 10;
  exec_max_stdout = pos 1048576;
  http_url = [];
  http_token_file = [];
  http_timeout = seconds 30;
}

-- `if v := os.Getenv(name); v != "" { field = v }`
unfoldable pub value_or : Text → Text → Text
value_or default v = if is_empty v then default else v

unfoldable pub tls_mode_from : Text → Result ConfigError TlsMode
tls_mode_from v =
    if text_eq v (bytes "mtls")
    then ok mtls
    else if text_eq v (bytes "self-signed")
    then ok self_signed
    else if is_empty v
    then ok self_signed
    else err (bad_tls_mode v)

unfoldable pub valid_root : Text → Option Reason → Result ConfigError Text
valid_root v none = ok v
valid_root v (some r) = err (bad_fs_root r)

unfoldable pub fs_root_from : Text → Text → Result ConfigError Text
unfolding valid_root
fs_root_from default v =
    if is_empty v then ok default else valid_root v (validate_local_base_path v)

unfoldable pub size_from : ℤ → Text → Result ConfigError ℤ
size_from default v =
    if is_empty v then ok default else map_err bad_max_secret_size (ByteSize.parse v)

-- `err != nil || n <= 0`
unfoldable pub positive : ConfigError → Result NumError ℤ → Result ConfigError ℕ
positive e (err _) = err e
positive e (ok (negsuc n)) = err e
positive e (ok (pos zero)) = err e
positive e (ok (pos (suc n))) = ok (suc n)

-- strconv.Atoi on a 64-bit platform, for a variable that is set, and what is made of its value.
unfoldable pub count_from : (Text → ConfigError) → (ℕ → ℤ) → ℤ → Text → Result ConfigError ℤ
unfolding positive
count_from cause f default v =
    let parsed : Result ConfigError ℤ = positive (cause v) (parse_int v) >>= λ n. ok (f n) in
    if is_empty v then ok default else parsed

-- ConfigFromEnv
unfoldable pub config_from_env : (Text → Text) → Result ConfigError Config
unfolding value_or tls_mode_from fs_root_from size_from count_from default_config
config_from_env getenv = do
  mode ← tls_mode_from (getenv (bytes "CHUR_KEEPER_TLS_MODE"))
  root ← fs_root_from default_config.fs_root (getenv (bytes "CHUR_KEEPER_BACKEND_FS_ROOT"))
  max_size ← size_from default_config.max_secret_size (getenv (bytes "CHUR_KEEPER_MAX_SECRET_SIZE"))
  concurrent ←
      count_from bad_max_concurrent pos default_config.max_concurrent
        (getenv (bytes "CHUR_KEEPER_MAX_CONCURRENT"))
  timeout ←
      count_from bad_exec_timeout seconds default_config.exec_timeout
        (getenv (bytes "CHUR_KEEPER_EXEC_TIMEOUT"))
  stdout ←
      count_from bad_exec_max_stdout pos default_config.exec_max_stdout
        (getenv (bytes "CHUR_KEEPER_EXEC_MAX_STDOUT"))
  http_timeout ←
      count_from bad_http_timeout seconds default_config.http_timeout
        (getenv (bytes "CHUR_KEEPER_HTTP_TIMEOUT"))
  ok (record {
    listen = value_or default_config.listen (getenv (bytes "CHUR_KEEPER_LISTEN"));
    health_listen =
        value_or default_config.health_listen (getenv (bytes "CHUR_KEEPER_HEALTH_LISTEN"));
    tls_mode = mode;
    tls_cert_file =
        value_or default_config.tls_cert_file (getenv (bytes "CHUR_KEEPER_TLS_CERT_PATH"));
    tls_key_file = value_or default_config.tls_key_file (getenv (bytes "CHUR_KEEPER_TLS_KEY_PATH"));
    client_ca_file =
        value_or default_config.client_ca_file (getenv (bytes "CHUR_KEEPER_CLIENT_CA_PATH"));
    backend_type = value_or (bytes "filesystem") (getenv (bytes "CHUR_KEEPER_BACKEND"));
    fs_root = root;
    max_secret_size = max_size;
    max_concurrent = concurrent;
    exec_command = value_or default_config.exec_command (getenv (bytes "CHUR_KEEPER_EXEC_COMMAND"));
    exec_timeout = timeout;
    exec_max_stdout = stdout;
    http_url = getenv (bytes "CHUR_KEEPER_HTTP_URL");
    http_token_file = getenv (bytes "CHUR_KEEPER_HTTP_TOKEN_FILE");
    http_timeout = http_timeout;
  })
