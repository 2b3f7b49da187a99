-- ===== src/Webhook/InitEnv.antt =====
-- The environment of the init container: buildInitEnv (internal/webhook/mutator.go).
pub mod Names
pub mod Protected
use chur.Base.{
  Bool, true, false, ◌&&◌, ◌||◌, not, Option, none, some, List, [], ◌∷◌, ◌++◌, if◌then◌else◌,
  Result, ok, err, ◌>>=◌,
}
use chur.Text.{Text, bytes, text_eq, is_empty}
use chur.Dict.{Dict, get}
use chur.Url.{join_host_port, url_string}
use chur.EnvName
use chur.Webhook.Pod.{EnvVar}
use chur.Webhook.Config.{
  Config, provider_keeper, annotation_keeper_skip_verify, annotation_provider_env, MutateError,
  validation, skip_verify_not_allowed,
}
use chur.Webhook.ProviderEnv.{parse_provider_env}

abbrev pub env_var : Text → Text → EnvVar
env_var n v = record { name = n; value = v }

-- `if v != "" { env = append(env, ...) }`
unfoldable pub env_if_set : Text → Text → List EnvVar
env_if_set n v = if is_empty v then [] else env_var n v ∷ []

-- The URL of the keeper's Service.
unfoldable pub keeper_url : Config → Text
keeper_url cfg = url_string (bytes "https") (
    join_host_port
      (cfg.keeper_service_name ++ (b'.' ∷ (cfg.keeper_service_namespace ++ bytes ".svc")))
      cfg.keeper_service_port)

-- The value of the skip-verify annotation that turns it on.
unfoldable pub is_on : Text → Bool
is_on v = text_eq v (bytes "1") || text_eq v (bytes "true")

unfoldable pub skip_verify_env : Config → Dict Text → Result MutateError (List EnvVar)
skip_verify_env cfg annotations =
    if is_on (get annotation_keeper_skip_verify annotations)
    then (if not cfg.allow_keeper_skip_verify
        then err (validation skip_verify_not_allowed)
        else ok (env_var EnvName.keeper_skip_verify (bytes "1") ∷ []))
    else ok []

-- What `providerName == providerKeeper` adds.
unfoldable pub keeper_env : Config → Dict Text → Result MutateError (List EnvVar)
unfolding env_if_set keeper_url skip_verify_env is_on
keeper_env cfg annotations = do
  skip ← skip_verify_env cfg annotations
  ok (
      (if is_empty cfg.keeper_service_name
        then []
        else env_var EnvName.keeper_url (keeper_url cfg) ∷ [])
      ++ (env_if_set EnvName.keeper_tls_cert_path cfg.keeper_tls_cert_path
          ++ (env_if_set EnvName.keeper_tls_key_path cfg.keeper_tls_key_path
              ++ (env_if_set EnvName.keeper_server_ca cfg.keeper_server_ca
                  ++ (env_if_set EnvName.keeper_client_max_secret_size
                        cfg.keeper_client_max_secret_size
                      ++ skip)))))

-- The variables set for every provider.
unfoldable pub base_env : Config → Text → Text → Text → Text → List EnvVar
unfolding env_if_set
base_env cfg provider_name secret_ref secret_key mount_path =
    env_var EnvName.provider provider_name
    ∷ env_var EnvName.secret_ref secret_ref
    ∷ env_var EnvName.mount_path mount_path
    ∷ env_var EnvName.max_secret_size cfg.max_secret_size
    ∷ env_var EnvName.local_base_path cfg.local_base_path
    ∷ env_if_set EnvName.secret_key secret_key

unfoldable pub build_init_env :
    (Text → Option (Dict Text))
    → Config
    → Text
    → Text
    → Text
    → Text
    → Dict Text
    → Result MutateError (List EnvVar)
unfolding keeper_env base_env
build_init_env unmarshal cfg provider_name secret_ref secret_key mount_path annotations = do
  keeper ← (if text_eq provider_name provider_keeper then keeper_env cfg annotations else ok [])
  extra ← parse_provider_env unmarshal (get annotation_provider_env annotations)
  ok (base_env cfg provider_name secret_ref secret_key mount_path ++ (keeper ++ extra))
