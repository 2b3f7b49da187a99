-- ===== src/EnvName.antt =====
-- The names of the environment variables that the webhook sets for chur-init and that chur-init and
-- its providers read (internal/webhook/mutator.go, cmd/init/main.go, internal/providers).
use chur.Text.{Text, bytes}

unfoldable pub provider : Text
provider = bytes "CHUR_PROVIDER"

unfoldable pub secret_ref : Text
secret_ref = bytes "CHUR_SECRET_REF"

unfoldable pub secret_key : Text
secret_key = bytes "CHUR_SECRET_KEY"

unfoldable pub mount_path : Text
mount_path = bytes "CHUR_MOUNT_PATH"

unfoldable pub max_secret_size : Text
max_secret_size = bytes "CHUR_MAX_SECRET_SIZE"

unfoldable pub local_base_path : Text
local_base_path = bytes "CHUR_LOCAL_BASE_PATH"

unfoldable pub keeper_url : Text
keeper_url = bytes "CHUR_KEEPER_URL"

unfoldable pub keeper_tls_cert_path : Text
keeper_tls_cert_path = bytes "CHUR_KEEPER_TLS_CERT_PATH"

unfoldable pub keeper_tls_key_path : Text
keeper_tls_key_path = bytes "CHUR_KEEPER_TLS_KEY_PATH"

unfoldable pub keeper_server_ca : Text
keeper_server_ca = bytes "CHUR_KEEPER_SERVER_CA"

unfoldable pub keeper_skip_verify : Text
keeper_skip_verify = bytes "CHUR_KEEPER_INSECURE_SKIP_VERIFY"

unfoldable pub keeper_client_max_secret_size : Text
keeper_client_max_secret_size = bytes "CHUR_KEEPER_CLIENT_MAX_SECRET_SIZE"
