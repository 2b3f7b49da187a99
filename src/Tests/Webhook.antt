-- ===== src/Tests/Webhook.antt =====
-- The mutator at concrete pods.
use chur.Base.{
  ℕ, Bool, true, false, Option, none, some, List, [], ◌∷◌, ◌++◌, ◌≡◌, refl, ◌≢◌, ◌↔◌, ◌⊎◌, inl, inr,
  arith, map, All, Result, ok, err,
}
use chur.Base.Int.{pos}
use chur.Text.{Text, bytes}
use chur.Dict.{Dict, lookup, get, mem_key}
use chur.Webhook.Pod.{Pod, Container, EnvVar, other_source, PatchOperation}
use chur.Webhook.Config.{
  Config, default_config, provider_env, provider_local, provider_keeper, is_validation, validation,
  unknown_provider, annotation_provider,
}
use chur.Webhook.Mutator.{AuditInfo, unchanged, refused, patched, collect_patches, mutate_pod}
use chur.Webhook.Namespaces.{IsIn}
use chur.Webhook.InitEnv.{base_env, build_init_env}
use chur.Webhook.InitEnv.Protected.{own_env, IsInitEnv, build_init_env-IsInitEnv}
use chur.Webhook.ProviderEnv.{valid_provider_env_key, decoded_env}
use chur.Webhook.ProviderEnv.Sorted.{IsDistinct, keys}
use chur.Webhook.Volumes.{patch_volumes, keeper_volume}
use chur.Webhook.Admitted.{IsAdmitted, mutate_pod-IsAdmitted}
use chur.Webhook.Refusals.{mutate_pod-refused, mutate_pod-unchanged}

-- The decoder of a provider-env annotation with one map in it.
abbrev pub debug_env : Dict Text
debug_env = (bytes "CHUR_LOG_LEVEL", bytes "debug") ∷ (bytes "CHUR_AZ", bytes "b") ∷ []

abbrev pub decode_env : Text → Option (Dict Text)
decode_env a = some debug_env

abbrev pub app : Container
app = record {
  name = bytes "app";
  image = bytes "nginx";
  image_pull_policy = [];
  command = [];
  security_context = none;
  env = [];
  volume_mounts = record { name = bytes "tmp"; mount_path = bytes "/tmp"; read_only = false } ∷ [];
}

abbrev pub sidecar : Container
sidecar = record app { name = bytes "sidecar"; volume_mounts = [] }

abbrev pub web_annotations : Dict Text
web_annotations =
    (bytes "chur.io/provider", bytes "env") ∷ (bytes "chur.io/secret-ref", bytes "DB_PASSWORD") ∷ []

abbrev pub web : Pod
web = record {
  name = bytes "web";
  namespace = bytes "default";
  annotations = some web_annotations;
  security_context = none;
  volumes = record { name = bytes "tmp"; source = other_source (bytes "emptyDir") } ∷ [];
  init_containers = [];
  containers = app ∷ sidecar ∷ [];
}

-- A pod with nothing but its containers, and one that the webhook does not know the provider of.
abbrev pub bare : Pod
bare = record web { annotations = none; volumes = [] }

abbrev pub vault : Pod
vault = record web { annotations = some ((bytes "chur.io/provider", bytes "vault") ∷ []) }

abbrev pub mounted : Config
mounted = record default_config { keeper_client_cert_secret_name = bytes "client" }

abbrev pub web_env : List EnvVar
web_env =
    base_env default_config (bytes "env") (bytes "DB_PASSWORD") [] (bytes "/secrets") ++ ([] ++ [])

abbrev pub web_patches : List PatchOperation
web_patches = collect_patches web default_config (bytes "env") (bytes "/secrets") (pos 1001) web_env

abbrev pub web_info : AuditInfo
web_info = record { namespace = bytes "default"; pod = bytes "web"; provider = bytes "env" }

pub web_patched :
    mutate_pod decode_env (some web) (some default_config) ≡ patched web_info web_patches
unfolding mutate_pod default_config lookup chur.Text.text_eq annotation_provider mem_key
    chur.Webhook.Config.valid_providers chur.Validate.validate_secret_ref get
    chur.Webhook.Config.annotation_secret chur.Text.contains chur.Validate.has_slash
    chur.Text.contains_byte chur.Validate.first_invalid chur.Text.Runes.runes
    chur.Validate.is_allowed_rune chur.Text.last_byte chur.Validate.validate_secret_key
    chur.Webhook.Config.annotation_secret_key chur.Webhook.Config.annotation_mount
    chur.Validate.validate_mount_path chur.Text.has_prefix chur.Validate.is_allowed_mount_rune
    build_init_env chur.Webhook.ProviderEnv.parse_provider_env
    chur.Webhook.Config.annotation_provider_env provider_keeper chur.Webhook.Volumes.own_fs_group
web_patched = refl

mutate_pod-IsAdmitted_example : IsAdmitted decode_env default_config web web_info web_patches
mutate_pod-IsAdmitted_example = mutate_pod-IsAdmitted decode_env default_config web web_patched

-- A pod of an unknown provider is refused.
abbrev pub vault_info : AuditInfo
vault_info = record web_info { provider = bytes "vault" }

pub vault_refused :
    mutate_pod decode_env (some vault) (some default_config)
    ≡ refused vault_info (validation (unknown_provider (bytes "vault")))
unfolding mutate_pod default_config lookup chur.Text.text_eq annotation_provider mem_key
    chur.Webhook.Config.valid_providers
vault_refused = refl

mutate_pod-refused_example : is_validation (validation (unknown_provider (bytes "vault"))) ≡ true
mutate_pod-refused_example =
    mutate_pod-refused decode_env (some vault) (some default_config) vault_refused

mutate_pod-unchanged_example :
    (mutate_pod decode_env (some bare) (some default_config) ≡ unchanged) ↔ (
      (bare.annotations ≡ none)
      ⊎ ((default_config.allowed_namespaces ≢ [])
          × (¬ IsIn bare.namespace default_config.allowed_namespaces))
      ⊎ ((annotations : Dict Text) × (bare.annotations ≡ some annotations)
          × (lookup annotation_provider annotations ≡ none)))
mutate_pod-unchanged_example = mutate_pod-unchanged decode_env bare default_config

debug_env-IsDistinct : IsDistinct (keys debug_env)
debug_env-IsDistinct = ground arith

decoded-IsDistinct : (a : Text) (m : Dict Text) → decode_env a ≡ some m → IsDistinct (keys m)
decoded-IsDistinct a m h =
    let e : debug_env ≡ m = cc in chur.Base.subst (λ x. IsDistinct (keys x)) e debug_env-IsDistinct

abbrev debug_vars : List EnvVar
debug_vars =
    record { name = bytes "CHUR_AZ"; value = bytes "b" }
    ∷ record { name = bytes "CHUR_LOG_LEVEL"; value = bytes "debug" }
    ∷ []

debug_decoded : decoded_env (some debug_env) ≡ ok debug_vars
unfolding decoded_env chur.Text.Runes.runes chur.Text.has_prefix mem_key
    chur.Webhook.ProviderEnv.reserved_init_env chur.EnvName.provider chur.EnvName.secret_ref
    chur.EnvName.secret_key chur.EnvName.mount_path chur.EnvName.max_secret_size
    chur.EnvName.local_base_path chur.EnvName.keeper_url chur.EnvName.keeper_tls_cert_path
    chur.EnvName.keeper_tls_key_path chur.EnvName.keeper_server_ca chur.EnvName.keeper_skip_verify
    chur.EnvName.keeper_client_max_secret_size chur.Text.text_lt
debug_decoded = refl

abbrev debug_annotations : Dict Text
debug_annotations = (bytes "chur.io/provider-env", bytes "{}") ∷ web_annotations

abbrev debug_init_env : List EnvVar
debug_init_env =
    base_env default_config (bytes "env") (bytes "DB_PASSWORD") [] (bytes "/secrets")
    ++ ([] ++ debug_vars)

-- What the webhook's own variables stand in front of.
abbrev with_base {ℓ} : {E : Type ℓ} → Result E (List EnvVar) → Result E (List EnvVar)
with_base (err e) = err e
with_base (ok extra) = ok (
    base_env default_config (bytes "env") (bytes "DB_PASSWORD") [] (bytes "/secrets")
    ++ ([] ++ extra))

debug_built :
    build_init_env decode_env default_config
      (bytes "env")
      (bytes "DB_PASSWORD")
      []
      (bytes "/secrets")
      debug_annotations
    ≡ ok debug_init_env
unfolding build_init_env provider_keeper get lookup chur.Webhook.Config.annotation_provider_env
    chur.Webhook.ProviderEnv.parse_provider_env chur.Text.text_eq chur.Text.Runes.runes
    chur.Text.has_prefix mem_key chur.Webhook.ProviderEnv.reserved_init_env chur.EnvName.provider
    chur.EnvName.secret_ref chur.EnvName.secret_key chur.EnvName.mount_path
    chur.EnvName.max_secret_size chur.EnvName.local_base_path chur.EnvName.keeper_url
    chur.EnvName.keeper_tls_cert_path chur.EnvName.keeper_tls_key_path chur.EnvName.keeper_server_ca
    chur.EnvName.keeper_skip_verify chur.EnvName.keeper_client_max_secret_size
debug_built = chur.Base.ap with_base debug_decoded

build_init_env-IsInitEnv_example :
    (keeper : List EnvVar) × (extra : List EnvVar) × IsInitEnv
      (own_env default_config (bytes "env") (bytes "DB_PASSWORD") [] (bytes "/secrets") keeper)
      extra
      debug_init_env
build_init_env-IsInitEnv_example =
    build_init_env-IsInitEnv decode_env default_config (bytes "env") (bytes "DB_PASSWORD") []
      (bytes "/secrets") debug_annotations decoded-IsDistinct debug_built
