-- ===== src/Webhook/Command/WellFormed.antt =====
-- What the webhook's configuration guarantees to the mutator and to chur-init.
use chur.Base.{
  ℕ, ◌<◌, ◌≤◌, Bool, true, false, not, ◌||◌, Bool-cases, Option, none, some, List, [], ◌∷◌, ◌++◌,
  if◌then◌else◌, All, ◌≡◌, ◌≢◌, ◌⊎◌, inl, inr, refl, sym, ap, ◌∙◌, arith, subst, Result, ok, err,
  ◌>>=◌, ◌>>◌, map_err, bind-eq-ok, map_err-eq-ok, ok-injective,
}
use chur.Base.Int.{ℤ, pos, ltb_ℤ}
use chur.Text.{Text, bytes, is_empty, text_eq, split}
use chur.Text.Trim.{trim_space}
use chur.Validate.{Reason, validate_local_base_path}
use chur.StrConv.{NumError, parse_int}
use chur.Webhook.Pod.{Quantity}
use chur.Webhook.Config.{Config, default_config}
use chur.Webhook.Command.{
  bad_max_secret_size, bad_run_as_user, bad_run_as_group, bad_fs_group, first_non_empty, Cluster,
  quantity_from, namespaces_from, pull_policy_from, int_from, within_volume, parse_max_secret_size,
  max_secret_size_from, base_path_result, base_path_from, positive_count, max_concurrent_from,
  command_config,
}
use chur.ByteSize

-- A size that chur-init can parse and that the volume can hold.
pub record IsUsableSize (limit : Quantity) (size : Text) : Type 0 where
  pub not_empty : size ≢ []
  pub bytes_of : ℤ
  pub parsed : ByteSize.parse size ≡ ok bytes_of
  pub fits : ltb_ℤ limit.value bytes_of ≡ false

parse_max-IsUsableSize :
    (v : Text) (limit : Quantity) {size : Text}
    → v ≢ []
    → parse_max_secret_size v limit ≡ ok size
    → IsUsableSize limit v × (size ≡ v)
unfolding parse_max_secret_size within_volume
parse_max-IsUsableSize [] limit n h = absurd (n refl)
parse_max-IsUsableSize (b ∷ bs) limit n h =
    let (m, p, e) = bind-eq-ok (map_err bad_max_secret_size (ByteSize.parse (b ∷ bs))) _ h in
    elim (Bool-cases (ltb_ℤ limit.value m)) [
      | inl t ↦ absurd (cc (rw t at e))
      | inr t ↦ (
        record {
          not_empty = n;
          bytes_of = m;
          parsed = map_err-eq-ok bad_max_secret_size _ p;
          fits = t;
        },
        sym (ok-injective (rw t at e)),
      )
    ]

max_secret_size-IsUsableSize :
    (limit : Quantity) (default v : Text) {size : Text}
    → default ≢ []
    → max_secret_size_from limit default v ≡ ok size
    → IsUsableSize limit size
unfolding max_secret_size_from
max_secret_size-IsUsableSize limit default [] n h =
    let (c, p, e) = bind-eq-ok (parse_max_secret_size default limit) _ h in
    subst (IsUsableSize limit) (ok-injective e) (parse_max-IsUsableSize default limit n p).0
max_secret_size-IsUsableSize limit default (b ∷ bs) n h =
    let (size, p, h1) = bind-eq-ok (parse_max_secret_size (b ∷ bs) limit) _ h in
    let (c, q, e) = bind-eq-ok (parse_max_secret_size size limit) _ h1 in
    let (u, s) = parse_max-IsUsableSize (b ∷ bs) limit (λ q. cc) p in
    subst (IsUsableSize limit) (sym s ∙ ok-injective e) u

-- A name that Kubernetes accepts for a namespace.
abbrev pub IsLabel : (Text → Bool) → Text → Type 0
IsLabel is_label ns = (ns ≢ []) × (is_label ns ≡ true)

namespaces-IsLabel :
    (is_label : Text → Bool) (vs : List Text) {l : List Text}
    → namespaces_from is_label vs ≡ ok l
    → All (IsLabel is_label) l
unfolding namespaces_from
namespaces-IsLabel is_label [] h = subst (All (IsLabel is_label)) (ok-injective h) tt
namespaces-IsLabel is_label (v ∷ vs) h = elim (Bool-cases (is_empty (trim_space v))) [
  | inl e ↦ namespaces-IsLabel is_label vs (rw e at h)
  | inr e ↦ elim (Bool-cases (is_label (trim_space v))) [
    | inr k ↦ absurd (cc (rw (e, k) at h))
    | inl k ↦
        let (l, p, q) = bind-eq-ok (namespaces_from is_label vs) _ (rw (e, k) at h) in
        subst (All (IsLabel is_label)) (ok-injective q)
          (((λ n. cc (rw n at e)), k), namespaces-IsLabel is_label vs p)
  ]
]

base_path_from-ok :
    (default v : Text) {path : Text}
    → validate_local_base_path default ≡ none
    → base_path_from default v ≡ ok path
    → validate_local_base_path path ≡ none
unfolding base_path_from base_path_result
base_path_from-ok default [] d h = subst (λ p. validate_local_base_path p ≡ none) (ok-injective h) d
base_path_from-ok default (b ∷ bs) d h =
    elim (chur.Base.Option-cases (validate_local_base_path (b ∷ bs))) [
      | inl n ↦ subst (λ p. validate_local_base_path p ≡ none) (ok-injective (rw n at h)) n
      | inr (r, n) ↦ absurd (cc (rw n at h))
    ]

positive_count-ok :
    (v : Text) (r : Result NumError ℤ) {n : ℤ} → positive_count v r ≡ ok n → ltb_ℤ (pos 0) n ≡ true
unfolding positive_count
positive_count-ok v (err e) h = absurd (cc)
positive_count-ok v (ok n) h = elim (Bool-cases (ltb_ℤ (pos 0) n)) [
  | inl t ↦ subst (λ n. ltb_ℤ (pos 0) n ≡ true) (ok-injective (rw t at h)) t
  | inr t ↦ absurd (cc (rw t at h))
]

max_concurrent-positive :
    (default : ℤ) (v : Text) {n : ℤ}
    → ltb_ℤ (pos 0) default ≡ true
    → max_concurrent_from default v ≡ ok n
    → ltb_ℤ (pos 0) n ≡ true
unfolding max_concurrent_from
max_concurrent-positive default [] d h = subst (λ n. ltb_ℤ (pos 0) n ≡ true) (ok-injective h) d
max_concurrent-positive default (b ∷ bs) d h = positive_count-ok (b ∷ bs) (parse_int (b ∷ bs)) h

first_non_empty-ne : (a b : Text) → b ≢ [] → first_non_empty a b ≢ []
unfolding first_non_empty
first_non_empty-ne [] b n = n
first_non_empty-ne (c ∷ cs) b n = λ q. cc

-- What a configuration guarantees.
pub record IsCommandConfig (c : Cluster) (cfg : Config) : Type 0 where
  pub size : IsUsableSize cfg.volume_size_limit cfg.max_secret_size
  pub namespaces : All (IsLabel c.is_dns1123_label) cfg.allowed_namespaces
  pub base_path : validate_local_base_path cfg.local_base_path ≡ none
  pub concurrent : ltb_ℤ (pos 0) cfg.max_concurrent ≡ true
  pub service : (cfg.keeper_service_namespace ≢ []) × (cfg.keeper_service_port ≢ [])

defaults :
    (default_config.max_secret_size ≢ [])
    × (validate_local_base_path default_config.local_base_path ≡ none)
    × (ltb_ℤ (pos 0) default_config.max_concurrent ≡ true)
    × (bytes "chur-system" ≢ [])
    × (bytes "9443" ≢ [])
unfolding default_config validate_local_base_path chur.Text.has_prefix text_eq chur.FilePath.clean
    chur.Text.contains chur.Validate.first_invalid chur.Text.Runes.runes
    chur.Validate.is_allowed_mount_rune
defaults = (λ q. cc, refl, refl, λ q. cc, λ q. cc)

module _ (c : Cluster) where
  -- A configuration that the webhook's command accepts has a size limit that chur-init's parser
  -- reads and the memory volume can hold, only namespaces that are labels, a local directory that
  -- the validator accepts, a positive number of concurrent requests, and a namespace and a port for
  -- the keeper.
  pub command_config-IsCommandConfig :
      {cfg : Config} → command_config c ≡ ok cfg → IsCommandConfig c cfg
  unfolding command_config
  command_config-IsCommandConfig h =
      let (size_ne, path_ok, count_ok, namespace_ne, port_ne) = defaults in
      let (limit, a, h1) =
        bind-eq-ok
          (quantity_from c.parse_quantity default_config.volume_size_limit
            (c.getenv (bytes "CHUR_VOLUME_SIZE_LIMIT")))
          _ h in
      let (ns, b, h2) =
        bind-eq-ok
          (namespaces_from c.is_dns1123_label
            (split b',' (c.getenv (bytes "CHUR_ALLOWED_NAMESPACES"))))
          _ h1 in
      let (policy, d, h3) =
        bind-eq-ok
          (pull_policy_from default_config.init_image_pull_policy
            (c.getenv (bytes "CHUR_INIT_IMAGE_PULL_POLICY")))
          _ h2 in
      let (user, e, h4) =
        bind-eq-ok
          (int_from bad_run_as_user (λ n. n) default_config.run_as_user
            (c.getenv (bytes "CHUR_RUN_AS_USER")))
          _ h3 in
      let (group, f, h5) =
        bind-eq-ok
          (int_from bad_run_as_group some default_config.run_as_group
            (c.getenv (bytes "CHUR_RUN_AS_GROUP")))
          _ h4 in
      let (fs, g, h6) =
        bind-eq-ok
          (int_from bad_fs_group (λ n. n) default_config.fs_group
            (c.getenv (bytes "CHUR_FS_GROUP")))
          _ h5 in
      let (size, i, h7) =
        bind-eq-ok
          (max_secret_size_from limit default_config.max_secret_size
            (c.getenv (bytes "CHUR_MAX_SECRET_SIZE")))
          _ h6 in
      let (path, j, h8) =
        bind-eq-ok
          (base_path_from default_config.local_base_path (c.getenv (bytes "CHUR_LOCAL_BASE_PATH")))
          _ h7 in
      let (count, k, h9) =
        bind-eq-ok
          (max_concurrent_from default_config.max_concurrent
            (c.getenv (bytes "CHUR_MAX_CONCURRENT")))
          _ h8 in
      subst (IsCommandConfig c) (ok-injective h9) (record {
        size = max_secret_size-IsUsableSize limit _ _ size_ne i;
        namespaces = namespaces-IsLabel c.is_dns1123_label _ b;
        base_path = base_path_from-ok _ _ path_ok j;
        concurrent = max_concurrent-positive _ _ count_ok k;
        service = (
          first_non_empty-ne (c.getenv (bytes "CHUR_KEEPER_SERVICE_NAMESPACE")) _ namespace_ne,
          first_non_empty-ne (c.getenv (bytes "CHUR_KEEPER_SERVICE_PORT")) _ port_ne,
        );
      })
