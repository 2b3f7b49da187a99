-- ===== src/Tests/ApiServer.antt =====
-- An API server that applies the operations of the mutator to a pod, which the interface of
-- Webhook/JsonPatch.antt describes.
use chur.Base.{
  ℕ, zero, suc, Option, none, some, List, [], ◌∷◌, ◌++◌, ◌≡◌, refl, ap, ◌∙◌, ◌≢◌, length,
}
use chur.Base.Int.{ℤ}
use chur.Webhook.Pod.{
  VolumeMount, Container, Pod, PodSecurityContext, PatchPath, PatchValue, at_security_context,
  at_fs_group, at_volumes, at_volumes_end, at_init_containers, at_init_containers_end,
  at_volume_mounts, at_volume_mounts_end, pod_security_context, group, volume_list, one_volume,
  container_list, one_container, mount_list, one_mount,
}
use chur.Webhook.JsonPatch.{JsonPatch}

-- `/-` needs a list.
abbrev append_to {ℓ} : {A : Type ℓ} → List A → A → Option (List A)
append_to [] a = none
append_to (x ∷ xs) a = some (x ∷ xs ++ a ∷ [])

pub append_to-ne {ℓ} :
    {A : Type ℓ} (xs : List A) (a : A) → xs ≢ [] → append_to xs a ≡ some (xs ++ a ∷ [])
append_to-ne [] a h = absurd (h refl)
append_to-ne (x ∷ xs) a h = refl

abbrev in_option {ℓ κ} : {A : Type ℓ} {B : Type κ} → (A → B) → Option A → Option B
in_option f none = none
in_option f (some a) = some (f a)

-- The change of one element, if it is there.
abbrev change_at {ℓ} : {A : Type ℓ} → (A → Option A) → ℕ → List A → Option (List A)
change_at f i [] = none
change_at f zero (x ∷ xs) = in_option (λ y. y ∷ xs) (f x)
change_at f (suc i) (x ∷ xs) = in_option (◌∷◌ x) (change_at f i xs)

pub change_at-append {ℓ} :
    {A : Type ℓ} (f : A → Option A) (before after : List A) (c d : A)
    → f c ≡ some d
    → change_at f (length before) (before ++ (c ∷ after)) ≡ some (before ++ (d ∷ after))
change_at-append f [] after c d h = ap (in_option (λ y. y ∷ after)) h
change_at-append f (x ∷ before) after c d h =
    ap (in_option (◌∷◌ x)) (change_at-append f before after c d h)

abbrev set_group : Pod → ℤ → Option PodSecurityContext → Option Pod
set_group p g none = none
set_group p g (some sc) =
    some (record p { security_context = some (record sc { fs_group = some g }) })

abbrev append_mount : VolumeMount → Container → Option Container
append_mount m c = in_option (λ ms. record c { volume_mounts = ms }) (append_to c.volume_mounts m)

abbrev apply_at : Pod → PatchPath → PatchValue → Option Pod
apply_at p at_security_context (pod_security_context sc) =
    some (record p { security_context = some sc })
apply_at p at_fs_group (group g) = set_group p g p.security_context
apply_at p at_volumes (volume_list vs) = some (record p { volumes = vs })
apply_at p at_volumes_end (one_volume v) =
    in_option (λ vs. record p { volumes = vs }) (append_to p.volumes v)
apply_at p at_init_containers (container_list cs) = some (record p { init_containers = cs })
apply_at p at_init_containers_end (one_container c) =
    in_option (λ cs. record p { init_containers = cs }) (append_to p.init_containers c)
apply_at p (at_volume_mounts i) (mount_list ms) =
    in_option (λ cs. record p { containers = cs })
      (change_at (λ c. some (record c { volume_mounts = ms })) i p.containers)
apply_at p (at_volume_mounts_end i) (one_mount m) =
    in_option (λ cs. record p { containers = cs }) (change_at (append_mount m) i p.containers)
apply_at p path value = none

unfoldable pub api_server : JsonPatch
api_server = record {
  apply = λ p op. apply_at p op.path op.value;
  add_security_context = λ p sc. refl;
  add_fs_group = λ p sc g h. ap (set_group p g) h;
  add_volumes = λ p vs. refl;
  add_volumes_end =
      λ p v ne. ap (in_option (λ vs. record p { volumes = vs })) (append_to-ne p.volumes v ne);
  add_init_containers = λ p cs. refl;
  add_init_containers_end = λ p c ne.
      ap (in_option (λ cs. record p { init_containers = cs }))
        (append_to-ne p.init_containers c ne);
  add_volume_mounts = λ p before after c ms h.
      let f : Container → Option Container = λ c. some (record c { volume_mounts = ms }) in
      ap (in_option (λ cs. record p { containers = cs })) (
        ap (change_at f (length before)) h
        ∙ change_at-append f before after c (record c { volume_mounts = ms }) refl);
  add_volume_mounts_end = λ p before after c m h ne.
      ap (in_option (λ cs. record p { containers = cs })) (
        ap (change_at (append_mount m) (length before)) h
        ∙ change_at-append (append_mount m) before after c
            (record c { volume_mounts = c.volume_mounts ++ m ∷ [] })
            (ap (in_option (λ ms. record c { volume_mounts = ms }))
              (append_to-ne c.volume_mounts m ne)));
}
