-- ===== src/Webhook/Config.antt =====
-- The names, the configuration and its defaults, and the errors (internal/webhook/mutator.go).
use chur.Base.{Bool, true, false, Option, none, List, [], ◌∷◌}
use chur.Base.Int.{ℤ, pos}
use chur.Text.{Text, bytes}
use chur.Validate.{Reason}
use chur.Webhook.Pod.{Quantity}

pub record Config : Type 0 where
  pub volume_size_limit : Quantity
  pub allowed_namespaces : List Text
  pub init_image : Text
  pub init_image_pull_policy : Text
  pub max_secret_size : Text
  pub local_base_path : Text
  pub max_concurrent : ℤ
  pub run_as_user : ℤ
  pub run_as_group : Option ℤ
  pub fs_group : ℤ
  pub keeper_service_name : Text
  pub keeper_service_namespace : Text
  pub keeper_service_port : Text
  pub keeper_tls_cert_path : Text
  pub keeper_tls_key_path : Text
  pub keeper_server_ca : Text
  pub keeper_client_cert_secret_name : Text
  pub keeper_client_max_secret_size : Text
  pub allow_keeper_skip_verify : Bool

unfoldable pub default_config : Config
default_config = record {
  volume_size_limit = record { text = bytes "10Mi"; value = pos 10485760 };
  allowed_namespaces = [];
  init_image = bytes "ghcr.io/lyafence/chur-init:latest";
  init_image_pull_policy = bytes "IfNotPresent";
  max_secret_size = bytes "1Mi";
  local_base_path = bytes "/etc/chur/secrets";
  max_concurrent = pos 100;
  run_as_user = pos 1001;
  run_as_group = none;
  fs_group = pos 1001;
  keeper_service_name = [];
  keeper_service_namespace = bytes "chur-system";
  keeper_service_port = bytes "9443";
  keeper_tls_cert_path = [];
  keeper_tls_key_path = [];
  keeper_server_ca = [];
  keeper_client_cert_secret_name = [];
  keeper_client_max_secret_size = [];
  allow_keeper_skip_verify = false;
}

unfoldable pub provider_env : Text
provider_env = bytes "env"

unfoldable pub provider_local : Text
provider_local = bytes "local"

unfoldable pub provider_k8s : Text
provider_k8s = bytes "k8s"

unfoldable pub provider_keeper : Text
provider_keeper = bytes "keeper"

unfoldable pub annotation_provider : Text
annotation_provider = bytes "chur.io/provider"

unfoldable pub annotation_secret : Text
annotation_secret = bytes "chur.io/secret-ref"

unfoldable pub annotation_secret_key : Text
annotation_secret_key = bytes "chur.io/secret-key"

unfoldable pub annotation_mount : Text
annotation_mount = bytes "chur.io/mount-path"

unfoldable pub annotation_keeper_skip_verify : Text
annotation_keeper_skip_verify = bytes "chur.io/keeper-skip-verify"

unfoldable pub annotation_provider_env : Text
annotation_provider_env = bytes "chur.io/provider-env"

unfoldable pub vol_name_secrets : Text
vol_name_secrets = bytes "chur-secrets"

unfoldable pub vol_name_local : Text
vol_name_local = bytes "chur-local-base"

unfoldable pub vol_name_keeper : Text
vol_name_keeper = bytes "chur-keeper-client-tls"

-- The keys of the map validProviders.
unfoldable pub valid_providers : List Text
unfolding provider_env provider_local provider_k8s provider_keeper
valid_providers = provider_env ∷ provider_local ∷ provider_k8s ∷ provider_keeper ∷ []

-- What the message of an error says.
pub data Cause : Type 0 where
  empty_provider : Cause
  unknown_provider : Text → Cause
  bad_secret_ref bad_secret_key bad_mount_path : Reason → Cause
  skip_verify_not_allowed : Cause
  bad_env_json : Cause
  bad_env_key reserved_env_key long_env_value : Text → Cause

-- An error that wraps ErrValidation, and one that does not.
pub data MutateError : Type 0 where
  validation : Cause → MutateError
  unwrapped : Cause → MutateError

-- errors.Is(err, ErrValidation)
unfoldable pub is_validation : MutateError → Bool
is_validation (validation c) = true
is_validation (unwrapped c) = false
