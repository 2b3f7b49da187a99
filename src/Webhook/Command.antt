-- ===== src/Webhook/Command.antt =====
-- The configuration of the webhook's command from the environment (cmd/webhook/main.go).
-- resource.ParseQuantity and the label test of Kubernetes are parameters, and so is the version
-- that the build sets.
pub mod Start
pub mod WellFormed
use chur.Base.{
  ℕ, zero, suc, Bool, true, false, not, ◌||◌, Option, none, some, List, [], ◌∷◌, ◌++◌,
  if◌then◌else◌, Result, ok, err, ◌>>=◌, ◌>>◌, map_err,
}
use chur.Base.Int.{ℤ, pos, ltb_ℤ}
use chur.Text.{Text, bytes, is_empty, text_eq, split}
use chur.Text.Trim.{trim_space}
use chur.StrConv.{NumError, parse_int}
use chur.Validate.{Reason, validate_local_base_path}
use chur.ByteSize.{SizeError}
use chur.Webhook.Pod.{Quantity}
use chur.Webhook.Config.{Config, default_config}
use chur.ByteSize

-- The variable that a value is refused for.
pub data CommandError : Type 0 where
  bad_volume_size bad_namespace bad_pull_policy bad_max_concurrent : Text → CommandError
  bad_run_as_user bad_run_as_group bad_fs_group : NumError → CommandError
  bad_max_secret_size : SizeError → CommandError
  over_volume_size : Text → CommandError
  bad_local_base_path : Reason → CommandError

-- firstNonEmpty
unfoldable pub first_non_empty : Text → Text → Text
first_non_empty a b = if not (is_empty a) then a else b

-- The parameters of the configuration.
pub record Cluster : Type 0 where
  pub getenv : Text → Text
  pub version : Text
  pub parse_quantity : Text → Option Quantity
  pub is_dns1123_label : Text → Bool

unfoldable pub quantity_from :
    (Text → Option Quantity) → Quantity → Text → Result CommandError Quantity
quantity_from parse_quantity default v =
    let parsed : Result CommandError Quantity = elim (parse_quantity v) [
      | none ↦ err (bad_volume_size v)
      | some q ↦ ok q
    ] in
    if is_empty v then ok default else parsed

-- The names between the commas; empty ones are skipped.
unfoldable pub namespaces_from : (Text → Bool) → List Text → Result CommandError (List Text)
namespaces_from is_label [] = ok []
namespaces_from is_label (v ∷ vs) =
    let ns = trim_space v in
    let rest = namespaces_from is_label vs in
    if is_empty ns
    then rest
    else if not (is_label ns)
    then err (bad_namespace ns)
    else rest >>= λ l. ok (ns ∷ l)

unfoldable pub init_image_from : Text → Text → Text → Text
init_image_from version default v =
    if not (is_empty v)
    then v
    else if not (text_eq version (bytes "dev"))
    then bytes "ghcr.io/lyafence/chur-init:" ++ version
    else default

unfoldable pub pull_policy_from : Text → Text → Result CommandError Text
pull_policy_from default v =
    if is_empty v
    then ok default
    else if text_eq v (bytes "Always")
        || text_eq v (bytes "Never")
        || text_eq v (bytes "IfNotPresent")
    then ok v
    else err (bad_pull_policy v)

-- strconv.ParseInt of a variable that is set
unfoldable pub int_from :
    {A : Type 0} → (NumError → CommandError) → (ℤ → A) → A → Text → Result CommandError A
int_from {A} cause f default v =
    let parsed : Result CommandError A = map_err cause (parse_int v) >>= λ n. ok (f n) in
    if is_empty v then ok default else parsed

unfoldable pub within_volume : Quantity → Text → ℤ → Result CommandError Text
within_volume volume_limit v n =
    if ltb_ℤ volume_limit.value n then err (over_volume_size v) else ok v

-- parseMaxSecretSizeEnv
unfoldable pub parse_max_secret_size : Text → Quantity → Result CommandError Text
unfolding within_volume
parse_max_secret_size v volume_limit =
    let parsed : Result CommandError Text =
      map_err bad_max_secret_size (ByteSize.parse v) >>= λ n. within_volume volume_limit v n in
    if is_empty v then ok [] else parsed

-- The size of the variable, or the default, checked once more against the volume.
unfoldable pub max_secret_size_from : Quantity → Text → Text → Result CommandError Text
unfolding parse_max_secret_size
max_secret_size_from limit default v = do
  size ← (if is_empty v then ok default else parse_max_secret_size v limit)
  checked ← parse_max_secret_size size limit
  ok size

unfoldable pub base_path_result : Text → Option Reason → Result CommandError Text
base_path_result v none = ok v
base_path_result v (some r) = err (bad_local_base_path r)

unfoldable pub base_path_from : Text → Text → Result CommandError Text
unfolding base_path_result
base_path_from default v =
    if is_empty v then ok default else base_path_result v (validate_local_base_path v)

-- `err != nil || n <= 0`
unfoldable pub positive_count : Text → Result NumError ℤ → Result CommandError ℤ
positive_count v (err e) = err (bad_max_concurrent v)
positive_count v (ok n) = if ltb_ℤ (pos 0) n then ok n else err (bad_max_concurrent v)

unfoldable pub max_concurrent_from : ℤ → Text → Result CommandError ℤ
unfolding positive_count
max_concurrent_from default v = if is_empty v then ok default else positive_count v (parse_int v)

module _ (c : Cluster) where
  -- The configuration that run makes of the environment.
  unfoldable pub command_config : Result CommandError Config
  unfolding quantity_from namespaces_from init_image_from pull_policy_from int_from
      max_secret_size_from base_path_from max_concurrent_from first_non_empty default_config
  command_config = do
    limit ←
        quantity_from c.parse_quantity default_config.volume_size_limit
          (c.getenv (bytes "CHUR_VOLUME_SIZE_LIMIT"))
    namespaces ←
        namespaces_from c.is_dns1123_label (split b',' (c.getenv (bytes "CHUR_ALLOWED_NAMESPACES")))
    policy ←
        pull_policy_from default_config.init_image_pull_policy
          (c.getenv (bytes "CHUR_INIT_IMAGE_PULL_POLICY"))
    user ←
        int_from bad_run_as_user (λ n. n) default_config.run_as_user
          (c.getenv (bytes "CHUR_RUN_AS_USER"))
    group ←
        int_from bad_run_as_group some default_config.run_as_group
          (c.getenv (bytes "CHUR_RUN_AS_GROUP"))
    fs_group ←
        int_from bad_fs_group (λ n. n) default_config.fs_group (c.getenv (bytes "CHUR_FS_GROUP"))
    size ←
        max_secret_size_from limit default_config.max_secret_size
          (c.getenv (bytes "CHUR_MAX_SECRET_SIZE"))
    base_path ←
        base_path_from default_config.local_base_path (c.getenv (bytes "CHUR_LOCAL_BASE_PATH"))
    concurrent ←
        max_concurrent_from default_config.max_concurrent (c.getenv (bytes "CHUR_MAX_CONCURRENT"))
    ok (record {
      volume_size_limit = limit;
      allowed_namespaces = namespaces;
      init_image =
          init_image_from c.version default_config.init_image (c.getenv (bytes "CHUR_INIT_IMAGE"));
      init_image_pull_policy = policy;
      max_secret_size = size;
      local_base_path = base_path;
      max_concurrent = concurrent;
      run_as_user = user;
      run_as_group = group;
      fs_group = fs_group;
      keeper_service_name = c.getenv (bytes "CHUR_KEEPER_SERVICE_NAME");
      keeper_service_namespace =
          first_non_empty (c.getenv (bytes "CHUR_KEEPER_SERVICE_NAMESPACE")) (bytes "chur-system");
      keeper_service_port =
          first_non_empty (c.getenv (bytes "CHUR_KEEPER_SERVICE_PORT")) (bytes "9443");
      keeper_tls_cert_path = c.getenv (bytes "CHUR_KEEPER_TLS_CERT_PATH");
      keeper_tls_key_path = c.getenv (bytes "CHUR_KEEPER_TLS_KEY_PATH");
      keeper_server_ca = c.getenv (bytes "CHUR_KEEPER_SERVER_CA");
      keeper_client_cert_secret_name = c.getenv (bytes "CHUR_KEEPER_CLIENT_CERT_SECRET_NAME");
      keeper_client_max_secret_size = c.getenv (bytes "CHUR_KEEPER_CLIENT_MAX_SECRET_SIZE");
      allow_keeper_skip_verify =
          (let v = c.getenv (bytes "CHUR_ALLOW_KEEPER_SKIP_VERIFY") in
            text_eq v (bytes "1") || text_eq v (bytes "true"));
    })
