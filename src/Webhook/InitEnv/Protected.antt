-- ===== src/Webhook/InitEnv/Protected.antt =====
-- A pod cannot override a variable that the webhook sets for chur-init.
use chur.Base.{
  Bool, true, false, Option, none, some, List, [], ◌∷◌, ◌++◌, ◌≡◌, refl, sym, ◌∙◌, subst, ◌≢◌, inl,
  inr, arith, if◌then◌else◌, Bool-cases, All, All-append, ok, bind-eq-ok, ok-injective, ◌⊎◌,
  append_assoc,
}
use chur.Text.{Text, bytes, text_eq, is_empty}
use chur.Dict.{Dict, get}
use chur.EnvName
use chur.Webhook.Pod.{EnvVar}
use chur.Webhook.Config.{Config, provider_keeper, annotation_provider_env}
use chur.Webhook.ProviderEnv.{decoded_env, parse_provider_env}
use chur.Webhook.ProviderEnv.Sorted.{IsDistinct, names, keys}
use chur.Webhook.ProviderEnv.Accepted.{IsExtraVar, decoded_env-IsExtraEnv}
use chur.Webhook.InitEnv.Names.{
  Sub, done, keep, leave, Sub-append, All-Sub, IsDistinct-Sub, managed, IsReserved,
  managed-IsDistinct, managed-IsReserved, names-append,
}
use chur.Webhook.InitEnv.{
  env_var, env_if_set, keeper_url, skip_verify_env, keeper_env, base_env, build_init_env,
}

-- The names of two lists, behind one another.
Sub-names :
    (xs ys : List EnvVar) {as' bs : List Text}
    → Sub (names xs) as'
    → Sub (names ys) bs
    → Sub (names (xs ++ ys)) (as' ++ bs)
Sub-names xs ys {as'} {bs} s t =
    subst (λ l. Sub l (as' ++ bs)) (sym (names-append xs ys)) (Sub-append s t)

one_if : (b : Bool) (n v : Text) → Sub (names (if b then [] else env_var n v ∷ [])) (n ∷ [])
one_if true n v = leave n done
one_if false n v = keep n done

env_if_set-Sub : (n v : Text) → Sub (names (env_if_set n v)) (n ∷ [])
unfolding env_if_set
env_if_set-Sub n v = one_if (is_empty v) n v

skip_cases :
    (cfg : Config) (annotations : Dict Text) {es : List EnvVar}
    → skip_verify_env cfg annotations ≡ ok es
    → (es ≡ []) ⊎ (es ≡ env_var EnvName.keeper_skip_verify (bytes "1") ∷ [])
unfolding skip_verify_env
skip_cases cfg annotations h = ground arith

skip_verify_env-Sub :
    (cfg : Config) (annotations : Dict Text) {es : List EnvVar}
    → skip_verify_env cfg annotations ≡ ok es
    → Sub (names es) (EnvName.keeper_skip_verify ∷ [])
skip_verify_env-Sub cfg annotations h = elim (skip_cases cfg annotations h) [
  | inl e ↦ subst (λ l. Sub (names l) (EnvName.keeper_skip_verify ∷ [])) (sym e) (leave _ done)
  | inr e ↦ subst (λ l. Sub (names l) (EnvName.keeper_skip_verify ∷ [])) (sym e) (keep _ done)
]

-- The keeper's variables, and the others, in the order of `managed`.
keeper_managed : List Text
keeper_managed =
    EnvName.keeper_url ∷ EnvName.keeper_tls_cert_path ∷ EnvName.keeper_tls_key_path
    ∷ EnvName.keeper_server_ca ∷ EnvName.keeper_client_max_secret_size ∷ EnvName.keeper_skip_verify
    ∷ []

keeper_env-Sub :
    (cfg : Config) (annotations : Dict Text) {es : List EnvVar}
    → keeper_env cfg annotations ≡ ok es
    → Sub (names es) keeper_managed
unfolding keeper_env keeper_managed
keeper_env-Sub cfg annotations h =
    let (skip, s, e) = bind-eq-ok (skip_verify_env cfg annotations) _ h in
    let url = keeper_url cfg in
    subst (λ l. Sub (names l) keeper_managed) (ok-injective e)
      (Sub-names
        (if is_empty cfg.keeper_service_name then [] else env_var EnvName.keeper_url url ∷ []) _
        (one_if (is_empty cfg.keeper_service_name) EnvName.keeper_url url)
        (Sub-names (env_if_set EnvName.keeper_tls_cert_path cfg.keeper_tls_cert_path) _
          (env_if_set-Sub _ _)
          (Sub-names (env_if_set EnvName.keeper_tls_key_path cfg.keeper_tls_key_path) _
            (env_if_set-Sub _ _)
            (Sub-names (env_if_set EnvName.keeper_server_ca cfg.keeper_server_ca) _
              (env_if_set-Sub _ _)
              (Sub-names
                (env_if_set EnvName.keeper_client_max_secret_size cfg.keeper_client_max_secret_size)
                skip (env_if_set-Sub _ _) (skip_verify_env-Sub cfg annotations s))))))

no_keeper : (ks : List Text) → Sub [] ks
no_keeper [] = done
no_keeper (k ∷ ks) = leave k (no_keeper ks)

-- The variables of the webhook itself, in front of those of the annotation.
abbrev pub own_env : Config → Text → Text → Text → Text → List EnvVar → List EnvVar
own_env cfg provider_name secret_ref secret_key mount_path keeper =
    base_env cfg provider_name secret_ref secret_key mount_path ++ keeper

own_env-Sub :
    (cfg : Config) (provider_name secret_ref secret_key mount_path : Text) (keeper : List EnvVar)
    → Sub (names keeper) keeper_managed
    → Sub (names (own_env cfg provider_name secret_ref secret_key mount_path keeper)) managed
unfolding base_env managed keeper_managed
own_env-Sub cfg provider_name secret_ref secret_key mount_path keeper s = keep _ (
    keep _ (
      keep _ (
        keep _ (
          keep _
            (Sub-names (env_if_set EnvName.secret_key secret_key) keeper (env_if_set-Sub _ _) s)))))

-- No name of an extra variable is reserved.
extra-ne-reserved :
    (k : Text) (es : List EnvVar) → IsReserved k → All IsExtraVar es → All (λ j. k ≢ j) (names es)
extra-ne-reserved k [] r h = tt
extra-ne-reserved k (e ∷ es) r h =
    ((λ q. cc (h.0.not_reserved, subst IsReserved q r)), extra-ne-reserved k es r h.1)

IsDistinct-append :
    (ks : List Text) (es : List EnvVar)
    → IsDistinct ks
    → All IsReserved ks
    → All IsExtraVar es
    → IsDistinct (names es)
    → IsDistinct (ks ++ names es)
IsDistinct-append [] es d r h n = n
IsDistinct-append (k ∷ ks) es d r h n = (
  All-append (λ j. k ≢ j) ks (names es) d.0 (extra-ne-reserved k es r.0 h),
  IsDistinct-append ks es d.1 r.1 h n,
)

-- The environment of chur-init: the webhook's own variables, whose names are all reserved, and
-- behind them variables that a pod may set, none of them reserved; no name stands twice.
pub record IsInitEnv (own extra env : List EnvVar) : Type 0 where
  pub parts : env ≡ own ++ extra
  pub own_reserved : All IsReserved (names own)
  pub extra_allowed : All IsExtraVar extra
  pub distinct : IsDistinct (names env)

assemble :
    (own extra : List EnvVar)
    → Sub (names own) managed
    → All IsExtraVar extra
    → IsDistinct (names extra)
    → IsInitEnv own extra (own ++ extra)
assemble own extra s h n = record {
  parts = refl;
  own_reserved = All-Sub IsReserved s managed-IsReserved;
  extra_allowed = h;
  distinct = subst IsDistinct (sym (names-append own extra)) (
      IsDistinct-append (names own) extra (IsDistinct-Sub s managed-IsDistinct)
        (All-Sub IsReserved s managed-IsReserved) h n);
}

decoded-IsExtra :
    (o : Option (Dict Text)) {es : List EnvVar}
    → ((m : Dict Text) → o ≡ some m → IsDistinct (keys m))
    → decoded_env o ≡ ok es
    → All IsExtraVar es × IsDistinct (names es)
decoded-IsExtra none k h = absurd (unfold decoded_env in cc)
decoded-IsExtra (some m) k h =
    let e = decoded_env-IsExtraEnv m (k m refl) h in (e.allowed, e.distinct)

parsed-IsExtra :
    (unmarshal : Text → Option (Dict Text)) (annotation : Text) {es : List EnvVar}
    → ((m : Dict Text) → unmarshal annotation ≡ some m → IsDistinct (keys m))
    → parse_provider_env unmarshal annotation ≡ ok es
    → All IsExtraVar es × IsDistinct (names es)
unfolding parse_provider_env
parsed-IsExtra unmarshal annotation keys_distinct h = elim (Bool-cases (is_empty annotation)) [
  | inl e ↦ subst (λ l. All IsExtraVar l × IsDistinct (names l)) (ok-injective (rw e at h)) (tt, tt)
  | inr e ↦ decoded-IsExtra (unmarshal annotation) keys_distinct (rw e at h)
]

keeper_part :
    (b : Bool) (cfg : Config) (annotations : Dict Text) {es : List EnvVar}
    → (if b then keeper_env cfg annotations else ok []) ≡ ok es
    → Sub (names es) keeper_managed
keeper_part true cfg annotations h = keeper_env-Sub cfg annotations h
keeper_part false cfg annotations h =
    subst (λ l. Sub (names l) keeper_managed) (ok-injective h) (no_keeper keeper_managed)

-- If the decoder gives maps (with distinct keys), an environment that is built consists of the
-- base variables for the validated inputs, those of the keeper, and behind them variables of the
-- annotation; every name of the webhook's own part is reserved, no name of the annotation's part
-- is, and no name stands twice: a pod cannot override what the webhook sets.
pub build_init_env-IsInitEnv :
    (unmarshal : Text → Option (Dict Text)) (cfg : Config)
    (provider_name secret_ref secret_key mount_path : Text) (annotations : Dict Text)
    {env : List EnvVar}
    → ((a : Text) (m : Dict Text) → unmarshal a ≡ some m → IsDistinct (keys m))
    → build_init_env unmarshal cfg provider_name secret_ref secret_key mount_path annotations
      ≡ ok env
    → (keeper : List EnvVar) × (extra : List EnvVar) × IsInitEnv
        (own_env cfg provider_name secret_ref secret_key mount_path keeper)
        extra
        env
unfolding build_init_env
build_init_env-IsInitEnv unmarshal cfg provider_name secret_ref secret_key mount_path annotations
      keys_distinct h =
    let base = base_env cfg provider_name secret_ref secret_key mount_path in
    let (keeper, k, h1) = bind-eq-ok _ _ h in
    let (extra, x, e) = bind-eq-ok _ (λ extra. ok (base ++ (keeper ++ extra))) h1 in
    let (allowed, distinct) =
      parsed-IsExtra unmarshal (get annotation_provider_env annotations)
        (keys_distinct (get annotation_provider_env annotations)) x in
    let s =
      own_env-Sub cfg provider_name secret_ref secret_key mount_path keeper
        (keeper_part (text_eq provider_name provider_keeper) cfg annotations k) in
    (
      keeper,
      extra,
      subst (IsInitEnv (base ++ keeper) extra) (append_assoc base keeper extra ∙ ok-injective e)
          (assemble (base ++ keeper) extra s allowed distinct),
    )
