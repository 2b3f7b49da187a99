-- ===== src/Webhook/Refusals.antt =====
-- Every error of MutatePod wraps ErrValidation, and when MutatePod leaves a pod alone.
use chur.Base.{
  ◌≢◌, Bool, true, false, Option, none, some, List, [], ◌∷◌, ◌≡◌, refl, ◌↔◌, ◌⊎◌, inl, inr, arith,
  if◌then◌else◌, Bool-cases, Result, ok, err, ◌>>=◌,
}
use chur.Text.{Text}
use chur.Dict.{Dict, lookup}
use chur.Validate.{Reason}
use chur.Webhook.Pod.{Pod, PatchOperation}
use chur.Webhook.Config.{
  Config, annotation_provider, Cause, MutateError, validation, bad_env_json, is_validation,
}
use chur.Webhook.InitEnv.{build_init_env, skip_verify_env, keeper_env}
use chur.Webhook.ProviderEnv.{check_entry, check_entries, decoded_env, parse_provider_env}
use chur.Webhook.Namespaces.{IsIn, namespace_denied_iff}
use chur.Webhook.Mutator.{
  AuditInfo, unchanged, refused, namespace_allowed, require_valid, validated_inputs,
  provider_patches, annotated_patches, with_audit, mutate_annotated, mutate_with, mutate_pod,
  or_default,
}

-- An error, if it is one, wraps ErrValidation.
data IsRefusal {ℓ} {A : Type ℓ} : Result MutateError A → Type ℓ where
  of_ok : (a : A) → IsRefusal (ok a)
  of_validation : (c : Cause) → IsRefusal (err (validation c))

bind-IsRefusal {ℓ κ} :
    {A : Type ℓ} {B : Type κ} (m : Result MutateError A) (f : A → Result MutateError B)
    → IsRefusal m
    → ((a : A) → IsRefusal (f a))
    → IsRefusal (m >>= f)
bind-IsRefusal _ f (of_ok a) k = k a
bind-IsRefusal _ f (of_validation c) k = of_validation c

if-IsRefusal {ℓ} :
    {A : Type ℓ} (b : Bool) (x y : Result MutateError A)
    → IsRefusal x
    → IsRefusal y
    → IsRefusal (if b then x else y)
if-IsRefusal true x y h k = h
if-IsRefusal false x y h k = k

ruleset refusal_rules = (of_ok, of_validation, bind-IsRefusal, if-IsRefusal)

check_entry-IsRefusal : (k v : Text) → IsRefusal (check_entry k v)
unfolding check_entry
check_entry-IsRefusal k v = search refusal_rules

check_entries-IsRefusal : (m : Dict Text) → IsRefusal (check_entries m)
unfolding check_entries
check_entries-IsRefusal [] = of_ok []
check_entries-IsRefusal ((k, v) ∷ m) =
    search (refusal_rules, check_entry-IsRefusal k v, check_entries-IsRefusal m)

decoded_env-IsRefusal : (o : Option (Dict Text)) → IsRefusal (decoded_env o)
unfolding decoded_env
decoded_env-IsRefusal none = of_validation bad_env_json
decoded_env-IsRefusal (some m) = search (refusal_rules, check_entries-IsRefusal)

parse_provider_env-IsRefusal :
    (unmarshal : Text → Option (Dict Text)) (a : Text) → IsRefusal (parse_provider_env unmarshal a)
unfolding parse_provider_env
parse_provider_env-IsRefusal unmarshal a = search (refusal_rules, decoded_env-IsRefusal)

skip_verify_env-IsRefusal :
    (cfg : Config) (annotations : Dict Text) → IsRefusal (skip_verify_env cfg annotations)
unfolding skip_verify_env
skip_verify_env-IsRefusal cfg annotations = search refusal_rules

keeper_env-IsRefusal :
    (cfg : Config) (annotations : Dict Text) → IsRefusal (keeper_env cfg annotations)
unfolding keeper_env
keeper_env-IsRefusal cfg annotations = search (refusal_rules, skip_verify_env-IsRefusal)

require_valid-IsRefusal :
    (cause : Reason → Cause) (o : Option Reason) → IsRefusal (require_valid cause o)
unfolding require_valid
require_valid-IsRefusal cause none = of_ok tt
require_valid-IsRefusal cause (some r) = of_validation (cause r)

module _ (unmarshal : Text → Option (Dict Text)) (cfg : Config) where
  build_init_env-IsRefusal :
      (p r k m : Text) (annotations : Dict Text)
      → IsRefusal (build_init_env unmarshal cfg p r k m annotations)
  unfolding build_init_env
  build_init_env-IsRefusal p r k m annotations =
      search (refusal_rules, keeper_env-IsRefusal, parse_provider_env-IsRefusal)

  validated_inputs-IsRefusal :
      (p : Text) (annotations : Dict Text) → IsRefusal (validated_inputs p annotations)
  unfolding validated_inputs
  validated_inputs-IsRefusal p annotations = search (refusal_rules, require_valid-IsRefusal) depth 9

  annotated_patches-IsRefusal :
      (pod : Pod) (p : Text) (annotations : Dict Text)
      → IsRefusal (annotated_patches unmarshal cfg pod p annotations)
  unfolding annotated_patches provider_patches
  annotated_patches-IsRefusal pod p annotations =
      search (refusal_rules, validated_inputs-IsRefusal, build_init_env-IsRefusal) depth 9

refusal-is_validation {ℓ} :
    {A : Type ℓ} {r : Result MutateError A} {e : MutateError}
    → IsRefusal r
    → r ≡ err e
    → is_validation e ≡ true
unfolding is_validation
refusal-is_validation (of_ok a) h = absurd (cc)
refusal-is_validation (of_validation c) h = ground arith

with_audit-refused :
    (ai ai' : AuditInfo) (r : Result MutateError (List PatchOperation)) {e : MutateError}
    → with_audit ai' r ≡ refused ai e
    → r ≡ err e
unfolding with_audit
with_audit-refused ai ai' (ok x) h = absurd (cc)
with_audit-refused ai ai' (err x) h = ground arith

module _ (unmarshal : Text → Option (Dict Text)) (cfg : Config) (pod : Pod) where
  annotated-refused :
      (o : Option Text) (annotations : Dict Text) {ai : AuditInfo} {e : MutateError}
      → mutate_annotated unmarshal cfg pod o annotations ≡ refused ai e
      → is_validation e ≡ true
  unfolding mutate_annotated
  annotated-refused none annotations h = absurd (cc)
  annotated-refused (some p) annotations {ai} h =
      refusal-is_validation (annotated_patches-IsRefusal unmarshal cfg pod p annotations) (
        with_audit-refused ai (record { namespace = pod.namespace; pod = pod.name; provider = p })
          (annotated_patches unmarshal cfg pod p annotations) h)

  with-refused :
      (o : Option (Dict Text)) {ai : AuditInfo} {e : MutateError}
      → mutate_with unmarshal cfg pod o ≡ refused ai e
      → is_validation e ≡ true
  unfolding mutate_with
  with-refused none h = absurd (cc)
  with-refused (some annotations) h =
      elim (Bool-cases (namespace_allowed cfg.allowed_namespaces pod.namespace)) [
        | inl n ↦ annotated-refused (lookup annotation_provider annotations) annotations (rw n at h)
        | inr n ↦ absurd (cc (rw n at h))
      ]

  annotated-unchanged :
      (o : Option Text) (annotations : Dict Text)
      → (mutate_annotated unmarshal cfg pod o annotations ≡ unchanged) ↔ (o ≡ none)
  unfolding mutate_annotated with_audit
  annotated-unchanged o annotations = ground arith

  with-unchanged :
      (o : Option (Dict Text))
      → (mutate_with unmarshal cfg pod o ≡ unchanged) ↔ (
          (o ≡ none)
          ⊎ (namespace_allowed cfg.allowed_namespaces pod.namespace ≡ false)
          ⊎ ((annotations : Dict Text) × (o ≡ some annotations)
              × (lookup annotation_provider annotations ≡ none)))
  unfolding mutate_with
  with-unchanged none = ground arith
  with-unchanged (some annotations) =
      let (to', from) = annotated-unchanged (lookup annotation_provider annotations) annotations in
      elim (Bool-cases (namespace_allowed cfg.allowed_namespaces pod.namespace)) [
        | inl n ↦ rw n (
          λ h. inr (inr (annotations, refl, to' h)),
          elim [
            | inl e ↦ absurd (cc)
            | inr (inl m) ↦ absurd (cc)
            | inr (inr (x, e, l)) ↦ from (ground arith)
          ],
        )
        | inr n ↦ rw n (λ h. inr (inl refl), λ h. refl)
      ]

-- An error of MutatePod always wraps ErrValidation.
pub mutate_pod-refused :
    (unmarshal : Text → Option (Dict Text)) (pod : Option Pod) (cfg : Option Config)
    {ai : AuditInfo} {e : MutateError}
    → mutate_pod unmarshal pod cfg ≡ refused ai e
    → is_validation e ≡ true
unfolding mutate_pod
mutate_pod-refused unmarshal none cfg h = absurd (cc)
mutate_pod-refused unmarshal (some pod) cfg h =
    with-refused unmarshal (or_default cfg) pod pod.annotations h

-- MutatePod leaves a pod alone, with no error, exactly if it has no annotations, its namespace is
-- none of those in a list that is not empty, or the provider annotation is missing.
pub mutate_pod-unchanged :
    (unmarshal : Text → Option (Dict Text)) (pod : Pod) (cfg : Config)
    → (mutate_pod unmarshal (some pod) (some cfg) ≡ unchanged) ↔ (
        (pod.annotations ≡ none)
        ⊎ ((cfg.allowed_namespaces ≢ []) × (¬ IsIn pod.namespace cfg.allowed_namespaces))
        ⊎ ((annotations : Dict Text) × (pod.annotations ≡ some annotations)
            × (lookup annotation_provider annotations ≡ none)))
unfolding mutate_pod
mutate_pod-unchanged unmarshal pod cfg =
    let (to', from) = with-unchanged unmarshal cfg pod pod.annotations in
    let d = namespace_denied_iff cfg.allowed_namespaces pod.namespace in
    (
      λ h. elim (to' h) [
        | inl e ↦ inl e
        | inr (inl n) ↦ inr (inl (d.0 n))
        | inr (inr x) ↦ inr (inr x)
      ],
      λ c.
          from (elim c [
            | inl e ↦ inl e
            | inr (inl n) ↦ inr (inl (d.1 n))
            | inr (inr x) ↦ inr (inr x)
          ]),
    )
