-- ===== src/Webhook/Admitted.antt =====
-- When MutatePod patches a pod, refuses it, and leaves it alone.
use chur.Base.{
  true, false, Option, none, some, List, [], ◌≡◌, refl, sym, subst, ◌≢◌, ◌⊎◌, inl, inr, arith,
  Bool-cases, Result, ok, err, ◌>>=◌, bind-eq-ok, ok-injective,
}
use chur.Text.{Text, text_eq, is_empty}
use chur.Dict.{Dict, lookup, get, mem_key}
use chur.Validate.{Reason, validate_secret_key, validate_mount_path}
use chur.Validate.SecretRef.{IsSecretRef, validate_secret_ref_iff}
use chur.Validate.Paths.{
  IsPath, IsSecretKey, IsAbsolute, validate_secret_key_iff, validate_mount_path_iff,
  validate_keeper_ref_iff,
}
use chur.Webhook.Pod.{Pod, EnvVar, PatchOperation}
use chur.Webhook.Config.{
  Config, valid_providers, provider_keeper, annotation_provider, annotation_secret,
  annotation_secret_key, annotation_mount, Cause, MutateError, bad_secret_ref, bad_secret_key,
  bad_mount_path,
}
use chur.Webhook.Volumes.{own_fs_group}
use chur.Webhook.InitEnv.{build_init_env}
use chur.Webhook.Namespaces.{IsIn, mem_key_iff, namespace_allowed_iff}
use chur.Webhook.Mutator.{
  AuditInfo, patched, namespace_allowed, require_valid, ref_validator, mount_path_of,
  validated_inputs, fs_group_of, collect_patches, provider_patches, annotated_patches, with_audit,
  mutate_annotated, mutate_with, mutate_pod,
}

require_valid-none :
    (cause : Reason → Cause) (o : Option Reason) {u : Unit {0}}
    → require_valid cause o ≡ ok u
    → o ≡ none
unfolding require_valid
require_valid-none cause none h = refl
require_valid-none cause (some r) h = cc

-- The mount path in force is never empty.
pub mount_path_of-ne : (annotations : Dict Text) → mount_path_of annotations ≢ []
unfolding mount_path_of
mount_path_of-ne annotations = elim (Bool-cases (is_empty (get annotation_mount annotations))) [
  | inl e ↦ rw e (λ q. cc)
  | inr e ↦ rw e (λ q. cc (rw q at e))
]

mount_valid :
    (annotations : Dict Text)
    → validate_mount_path (mount_path_of annotations) ≡ none
    → IsAbsolute (mount_path_of annotations) × IsPath (mount_path_of annotations)
mount_valid annotations h = elim ((validate_mount_path_iff (mount_path_of annotations)).0 h) [
  | inl e ↦ absurd (mount_path_of-ne annotations e)
  | inr v ↦ v
]

-- The inputs of an admitted pod.
pub record AreValid (provider_name : Text) (annotations : Dict Text) : Type 0 where
  pub file_ref :
      text_eq provider_name provider_keeper ≡ false
      → IsSecretRef (get annotation_secret annotations)
  pub keeper_ref :
      text_eq provider_name provider_keeper ≡ true
      → (get annotation_secret annotations ≢ [])
        × (¬ IsAbsolute (get annotation_secret annotations))
        × IsPath (get annotation_secret annotations)
  pub key :
      (get annotation_secret_key annotations ≡ [])
      ⊎ IsSecretKey (get annotation_secret_key annotations)
  pub mount : IsAbsolute (mount_path_of annotations) × IsPath (mount_path_of annotations)

valid_inputs :
    (provider_name : Text) (annotations : Dict Text) {t : Text × Text × Text}
    → validated_inputs provider_name annotations ≡ ok t
    → AreValid provider_name annotations
      × (t ≡ (
        get annotation_secret annotations,
        get annotation_secret_key annotations,
        mount_path_of annotations,
      ))
unfolding validated_inputs
valid_inputs provider_name annotations h =
    let ref = get annotation_secret annotations in
    let (u1, a, h1) =
      bind-eq-ok (require_valid bad_secret_ref (ref_validator provider_name ref)) _ h in
    let (u2, b, h2) =
      bind-eq-ok
        (require_valid bad_secret_key (validate_secret_key (get annotation_secret_key annotations)))
        _ h1 in
    let (u3, c, h3) =
      bind-eq-ok (require_valid bad_mount_path (validate_mount_path (mount_path_of annotations))) _
        h2 in
    let r = require_valid-none bad_secret_ref _ a in
    (
      record {
        file_ref = λ e. (validate_secret_ref_iff ref).0 (unfold ref_validator in rw e at r);
        keeper_ref = λ e. (validate_keeper_ref_iff ref).0 (unfold ref_validator in rw e at r);
        key = (validate_secret_key_iff _).0 (require_valid-none bad_secret_key _ b);
        mount = mount_valid annotations (require_valid-none bad_mount_path _ c);
      },
      sym (ok-injective h3),
    )

-- What holds of a pod that MutatePod patches.
pub record IsAdmitted (unmarshal : Text → Option (Dict Text)) (cfg : Config) (pod : Pod)
    (ai : AuditInfo) (ops : List PatchOperation) : Type 0 where
  pub annotations : Dict Text
  pub annotated : pod.annotations ≡ some annotations
  pub in_namespace : (cfg.allowed_namespaces ≡ []) ⊎ IsIn pod.namespace cfg.allowed_namespaces
  pub provider_is : lookup annotation_provider annotations ≡ some ai.provider
  pub provider_known : IsIn ai.provider valid_providers
  pub audit_pod : (ai.namespace ≡ pod.namespace) × (ai.pod ≡ pod.name)
  pub inputs : AreValid ai.provider annotations
  pub init_env : List EnvVar
  pub env_is :
      build_init_env unmarshal cfg ai.provider
        (get annotation_secret annotations)
        (get annotation_secret_key annotations)
        (mount_path_of annotations)
        annotations
      ≡ ok init_env
  pub patches :
      ops
      ≡ collect_patches pod cfg ai.provider
          (mount_path_of annotations)
          (fs_group_of (own_fs_group pod.security_context) cfg.fs_group)
          init_env

module _ (unmarshal : Text → Option (Dict Text)) (cfg : Config) (pod : Pod) where
  -- The results of the validated part.
  abbrev Patches : Text → Dict Text → List PatchOperation → Type 0
  Patches provider_name annotations ops =
      AreValid provider_name annotations
      × (init_env : List EnvVar) × (build_init_env unmarshal cfg provider_name
            (get annotation_secret annotations) (get annotation_secret_key annotations)
            (mount_path_of annotations) annotations
          ≡ ok init_env)
      × (ops
          ≡ collect_patches pod cfg provider_name (mount_path_of annotations)
              (fs_group_of (own_fs_group pod.security_context) cfg.fs_group) init_env)

  -- What is done with the validated inputs.
  abbrev finish : Text → Dict Text → Text × Text × Text → Result MutateError (List PatchOperation)
  finish provider_name annotations (secret_ref, secret_key, mount_path) =
      build_init_env unmarshal cfg provider_name secret_ref secret_key mount_path annotations
      >>= λ init_env. ok (
          collect_patches pod cfg provider_name mount_path
            (fs_group_of (own_fs_group pod.security_context) cfg.fs_group) init_env)

  Patches-ok :
      (provider_name : Text) (annotations : Dict Text) {ops : List PatchOperation}
      → provider_patches unmarshal cfg pod provider_name annotations ≡ ok ops
      → Patches provider_name annotations ops
  unfolding provider_patches
  Patches-ok provider_name annotations {ops} h =
      let (t, v, h1) =
        bind-eq-ok (validated_inputs provider_name annotations) (finish provider_name annotations)
          h in
      let (valid, e) = valid_inputs provider_name annotations v in
      let h2 = subst (λ x. finish provider_name annotations x ≡ ok ops) e h1 in
      let (env, b, h3) = bind-eq-ok _ _ h2 in (valid, env, b, sym (ok-injective h3))

  annotated-ok :
      (provider_name : Text) (annotations : Dict Text) {ops : List PatchOperation}
      → annotated_patches unmarshal cfg pod provider_name annotations ≡ ok ops
      → (mem_key provider_name valid_providers ≡ true)
        × (provider_patches unmarshal cfg pod provider_name annotations ≡ ok ops)
  unfolding annotated_patches
  annotated-ok provider_name annotations h = ground arith

  with_audit-patched :
      (ai ai' : AuditInfo) (r : Result MutateError (List PatchOperation))
      {ops : List PatchOperation}
      → with_audit ai' r ≡ patched ai ops
      → (ai ≡ ai') × (r ≡ ok ops)
  unfolding with_audit
  with_audit-patched ai ai' (ok x) h = ground arith
  with_audit-patched ai ai' (err e) h = absurd (cc)

  annotation-patched :
      (annotations : Dict Text) (o : Option Text) {ai : AuditInfo} {ops : List PatchOperation}
      → pod.annotations ≡ some annotations
      → namespace_allowed cfg.allowed_namespaces pod.namespace ≡ true
      → lookup annotation_provider annotations ≡ o
      → mutate_annotated unmarshal cfg pod o annotations ≡ patched ai ops
      → IsAdmitted unmarshal cfg pod ai ops
  unfolding mutate_annotated
  annotation-patched annotations none p n l h = absurd (cc)
  annotation-patched annotations (some provider_name) {ai} {ops} p n l h =
      let audit : AuditInfo = record {
        namespace = pod.namespace;
        pod = pod.name;
        provider = provider_name;
      } in
      let (a, r) =
        with_audit-patched ai audit (annotated_patches unmarshal cfg pod provider_name annotations)
          h in
      let (known, q) = annotated-ok provider_name annotations r in
      let (valid, env, b, c) = Patches-ok provider_name annotations q in
      subst (λ x. IsAdmitted unmarshal cfg pod x ops) (sym a)
        (record {
          annotations = annotations;
          annotated = p;
          in_namespace = (namespace_allowed_iff cfg.allowed_namespaces pod.namespace).0 n;
          provider_is = l;
          provider_known = (mem_key_iff provider_name valid_providers).0 known;
          audit_pod = (refl, refl);
          inputs = valid;
          init_env = env;
          env_is = b;
          patches = c;
        })

  with-patched :
      (o : Option (Dict Text)) {ai : AuditInfo} {ops : List PatchOperation}
      → pod.annotations ≡ o
      → mutate_with unmarshal cfg pod o ≡ patched ai ops
      → IsAdmitted unmarshal cfg pod ai ops
  unfolding mutate_with
  with-patched none p h = absurd (cc)
  with-patched (some annotations) p h =
      elim (Bool-cases (namespace_allowed cfg.allowed_namespaces pod.namespace)) [
        | inl n ↦
            annotation-patched annotations (lookup annotation_provider annotations) p n refl
              (rw n at h)
        | inr n ↦ absurd (cc (rw n at h))
      ]

  -- A pod is patched only if its namespace is allowed, its provider is one of the four, its secret
  -- ref, key and mount path are valid for that provider, and the environment could be built; the
  -- patches are then exactly those computed from these inputs.
  pub mutate_pod-IsAdmitted :
      {ai : AuditInfo} {ops : List PatchOperation}
      → mutate_pod unmarshal (some pod) (some cfg) ≡ patched ai ops
      → IsAdmitted unmarshal cfg pod ai ops
  unfolding mutate_pod
  mutate_pod-IsAdmitted h = with-patched pod.annotations refl h
