-- ===== src/Webhook/Mutator.antt =====
-- MutatePod (internal/webhook/mutator.go). The pod and its annotations are never nil pointers here
-- but where the source tests them; the JSON decoder of the provider-env annotation is a parameter.
use chur.Base.{
  Bool, true, not, Option, none, some, List, [], ◌∷◌, ◌++◌, if◌then◌else◌, Result, ok, err, ◌>>=◌,
  ◌>>◌,
}
use chur.Base.Int.{ℤ}
use chur.Text.{Text, bytes, text_eq, is_empty}
use chur.Dict.{Dict, lookup, get, mem_key}
use chur.Validate.{
  Reason, validate_secret_ref, validate_secret_key, validate_mount_path, validate_keeper_ref,
}
use chur.Webhook.Pod.{Pod, EnvVar, PatchOperation}
use chur.Webhook.Config.{
  Config, default_config, valid_providers, provider_keeper, annotation_provider, annotation_secret,
  annotation_secret_key, annotation_mount, Cause, MutateError, validation, empty_provider,
  unknown_provider, bad_secret_ref, bad_secret_key, bad_mount_path,
}
use chur.Webhook.Volumes.{own_fs_group, patch_security_context, patch_volumes}
use chur.Webhook.InitEnv.{build_init_env}
use chur.Webhook.Containers.{
  build_init_container, init_container_exists, add_init_container, mount_to_app_containers,
}

-- The fields of AuditInfo that the mutator sets.
pub record AuditInfo : Type 0 where
  pub namespace : Text
  pub pod : Text
  pub provider : Text

-- The three results of MutatePod: no mutation (all nil), an error with its audit record, or the
-- patches (never a nil slice) with theirs.
pub data Outcome : Type 0 where
  unchanged : Outcome
  refused : AuditInfo → MutateError → Outcome
  patched : AuditInfo → List PatchOperation → Outcome

-- An empty list allows every namespace.
unfoldable pub namespace_allowed : List Text → Text → Bool
namespace_allowed [] ns = true
namespace_allowed (a ∷ as') ns = mem_key ns (a ∷ as')

-- `if err := validator(value); err != nil { return ... %w ErrValidation }`
unfoldable pub require_valid : (Reason → Cause) → Option Reason → Result MutateError (Unit {0})
require_valid cause none = ok tt
require_valid cause (some r) = err (validation (cause r))

-- The validator of the secret ref.
unfoldable pub ref_validator : Text → Text → Option Reason
ref_validator provider_name =
    if text_eq provider_name provider_keeper then validate_keeper_ref else validate_secret_ref

-- The mount path, with its default.
unfoldable pub mount_path_of : Dict Text → Text
mount_path_of annotations =
    if is_empty (get annotation_mount annotations)
    then bytes "/secrets"
    else get annotation_mount annotations

-- The validated inputs: the secret ref, the secret key and the mount path.
unfoldable pub validated_inputs : Text → Dict Text → Result MutateError (Text × Text × Text)
validated_inputs provider_name annotations = do
  require_valid bad_secret_ref (ref_validator provider_name (get annotation_secret annotations))
  require_valid bad_secret_key (validate_secret_key (get annotation_secret_key annotations))
  require_valid bad_mount_path (validate_mount_path (mount_path_of annotations))
  ok (
    get annotation_secret annotations,
    get annotation_secret_key annotations,
    mount_path_of annotations,
  )

-- The pod's own group, or the configured one.
unfoldable pub fs_group_of : Option ℤ → ℤ → ℤ
fs_group_of none configured = configured
fs_group_of (some g) configured = g

-- The patches, behind all the validation.
unfoldable pub collect_patches : Pod → Config → Text → Text → ℤ → List EnvVar → List PatchOperation
collect_patches pod cfg provider_name mount_path fs_group init_env =
    let c = build_init_container cfg init_env mount_path provider_name fs_group in
    patch_security_context pod fs_group
    ++ (patch_volumes pod cfg provider_name
        ++ ((if init_container_exists pod.init_containers c.name
              then []
              else add_init_container pod.init_containers c ∷ [])
            ++ mount_to_app_containers pod.containers mount_path))

unfoldable pub with_audit : AuditInfo → Result MutateError (List PatchOperation) → Outcome
with_audit ai (ok patches) = patched ai patches
with_audit ai (err e) = refused ai e

module _ (unmarshal : Text → Option (Dict Text)) (cfg : Config) (pod : Pod) where
  -- A pod whose provider annotation is one of the known ones.
  unfoldable pub provider_patches : Text → Dict Text → Result MutateError (List PatchOperation)
  unfolding validated_inputs require_valid ref_validator mount_path_of collect_patches fs_group_of
  provider_patches provider_name annotations = do
    (secret_ref, secret_key, mount_path) ← validated_inputs provider_name annotations
    let fs_group = fs_group_of (own_fs_group pod.security_context) cfg.fs_group
    init_env ←
        build_init_env unmarshal cfg provider_name secret_ref secret_key mount_path annotations
    ok (collect_patches pod cfg provider_name mount_path fs_group init_env)

  -- The tests on the provider's name.
  unfoldable pub annotated_patches : Text → Dict Text → Result MutateError (List PatchOperation)
  unfolding provider_patches
  annotated_patches provider_name annotations =
      if is_empty provider_name
      then err (validation empty_provider)
      else if not (mem_key provider_name valid_providers)
      then err (validation (unknown_provider provider_name))
      else provider_patches provider_name annotations

  -- The provider annotation, if it is there.
  unfoldable pub mutate_annotated : Option Text → Dict Text → Outcome
  unfolding annotated_patches with_audit
  mutate_annotated none annotations = unchanged
  mutate_annotated (some provider_name) annotations =
      with_audit (record { namespace = pod.namespace; pod = pod.name; provider = provider_name })
        (annotated_patches provider_name annotations)

  unfoldable pub mutate_with : Option (Dict Text) → Outcome
  unfolding mutate_annotated namespace_allowed
  mutate_with none = unchanged
  mutate_with (some annotations) =
      if not (namespace_allowed cfg.allowed_namespaces pod.namespace)
      then unchanged
      else mutate_annotated (lookup annotation_provider annotations) annotations

-- A nil configuration is the default one.
unfoldable pub or_default : Option Config → Config
or_default none = default_config
or_default (some cfg) = cfg

unfoldable pub mutate_pod : (Text → Option (Dict Text)) → Option Pod → Option Config → Outcome
unfolding mutate_with or_default
mutate_pod unmarshal none cfg = unchanged
mutate_pod unmarshal (some pod) cfg = mutate_with unmarshal (or_default cfg) pod pod.annotations
