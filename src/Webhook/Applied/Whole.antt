-- ===== src/Webhook/Applied/Whole.antt =====
-- The whole patch of MutatePod, applied.
use chur.Base.{
  false, Option, none, some, List, [], ◌∷◌, ◌++◌, map, ◌≡◌, refl, ap, ◌∙◌, ◌≢◌, ◌⊎◌, inl, inr,
  if◌then◌else◌, Bool-cases,
}
use chur.Base.Int.{ℤ}
use chur.Text.{Text}
use chur.Webhook.Pod.{Container, EnvVar, Pod, PodSecurityContext}
use chur.Webhook.Config.{Config}
use chur.Webhook.Volumes.{patch_security_context, security_patch, fs_group_patch, patch_volumes}
use chur.Webhook.Containers.{build_init_container, init_container_exists, add_init_container}
use chur.Webhook.Mutator.{collect_patches}
use chur.Webhook.JsonPatch.{JsonPatch, apply_all, apply_all-append, apply_all-one}
use chur.Webhook.Applied.Volumes.{missing_volumes, uses_keeper_volume, apply-patch_volumes}
use chur.Webhook.Applied.Mounts.{ensure_mount, apply-mount_to_app_containers}

keep_group : Option ℤ → ℤ → Option ℤ
keep_group none g = some g
keep_group (some own) g = some own

-- The group that the pod ends up with: its own where it has one.
unfoldable pub with_group : Option PodSecurityContext → ℤ → Option PodSecurityContext
unfolding keep_group
with_group none g = some (record { fs_group = some g })
with_group (some sc) g = some (record sc { fs_group = keep_group sc.fs_group g })

-- The init containers, with this one at the end unless one of its name is there.
unfoldable pub with_init : List Container → Container → List Container
with_init cs c = if init_container_exists cs c.name then cs else cs ++ c ∷ []

-- The pod that the mutator asks for.
unfoldable pub injected : Pod → Config → Text → Text → ℤ → List EnvVar → Pod
injected pod cfg provider_name mount_path fs_group init_env = record pod {
  security_context = with_group pod.security_context fs_group;
  volumes = pod.volumes ++ missing_volumes pod cfg provider_name;
  init_containers =
      with_init pod.init_containers
        (build_init_container cfg init_env mount_path provider_name fs_group);
  containers = map (ensure_mount mount_path) pod.containers;
}

module _ (server : JsonPatch) where
  apply_group :
      (p : Pod) (sc : PodSecurityContext) (g : ℤ) (o : Option ℤ)
      → p.security_context ≡ some sc
      → sc.fs_group ≡ o
      → apply_all server p (fs_group_patch o g)
        ≡ some (record p { security_context = some (record sc { fs_group = keep_group o g }) })
  unfolding fs_group_patch keep_group
  apply_group p sc g none e f = apply_all-one server p _ (server.add_fs_group p sc g e)
  apply_group p sc g (some own) e f =
      unfold apply_all in
      ap (λ x. some (record p { security_context = x }))
        (e ∙ ap (λ x. some (record sc { fs_group = x })) f)

  apply_security :
      (p : Pod) (g : ℤ) (o : Option PodSecurityContext)
      → p.security_context ≡ o
      → apply_all server p (security_patch o g)
        ≡ some (record p { security_context = with_group o g })
  unfolding security_patch with_group
  apply_security p g none e =
      apply_all-one server p _ (server.add_security_context p (record { fs_group = some g }))
  apply_security p g (some sc) e = apply_group p sc g sc.fs_group e refl

  -- The patches read the volumes of the pod as it came.
  apply_volumes :
      (pod : Pod) (sc : Option PodSecurityContext) (cfg : Config) (provider_name : Text)
      → (pod.volumes ≢ []) ⊎ (uses_keeper_volume cfg provider_name ≡ false)
      → apply_all server
          (record pod { security_context = sc })
          (patch_volumes pod cfg provider_name)
        ≡ some (record pod {
          security_context = sc;
          volumes = pod.volumes ++ missing_volumes pod cfg provider_name;
        })
  unfolding patch_volumes missing_volumes
  apply_volumes pod sc cfg provider_name h =
      apply-patch_volumes server (record pod { security_context = sc }) cfg provider_name h

  apply_init :
      (p : Pod) (cs : List Container) (c : Container)
      → p.init_containers ≡ cs
      → apply_all server p
          (if init_container_exists cs c.name then [] else add_init_container cs c ∷ [])
        ≡ some (record p { init_containers = with_init cs c })
  unfolding add_init_container with_init
  apply_init p [] c e =
      unfold init_container_exists in
      apply_all-one server p _ (server.add_init_containers p (c ∷ []))
  apply_init p (x ∷ xs) c e = elim (Bool-cases (init_container_exists (x ∷ xs) c.name)) [
    | inl has ↦ rw has (unfold apply_all in ap (λ i. some (record p { init_containers = i })) e)
    | inr lacks ↦ rw lacks (
        apply_all-one server p _ (server.add_init_containers_end p c (λ q. cc))
        ∙ ap (λ i. some (record p { init_containers = i ++ c ∷ [] })) e)
  ]

  -- If the pod has a volume, or the keeper's certificate is not mounted, the server accepts every
  -- operation, and the pod becomes exactly the injected one.
  pub apply-collect_patches :
      (pod : Pod) (cfg : Config) (provider_name mount_path : Text) (g : ℤ) (init_env : List EnvVar)
      → (pod.volumes ≢ []) ⊎ (uses_keeper_volume cfg provider_name ≡ false)
      → apply_all server pod (collect_patches pod cfg provider_name mount_path g init_env)
        ≡ some (injected pod cfg provider_name mount_path g init_env)
  unfolding collect_patches injected patch_security_context
  apply-collect_patches pod cfg provider_name mount_path g init_env h =
      let c = build_init_container cfg init_env mount_path provider_name g in
      let p1 = record pod { security_context = with_group pod.security_context g } in
      let p2 = record p1 { volumes = pod.volumes ++ missing_volumes pod cfg provider_name } in
      let p3 = record p2 { init_containers = with_init pod.init_containers c } in
      apply_all-append server _ _ pod (apply_security pod g pod.security_context refl)
      ∙ apply_all-append server (patch_volumes pod cfg provider_name) _ p1
          (apply_volumes pod p1.security_context cfg provider_name h)
      ∙ apply_all-append server _ _ p2 (apply_init p2 pod.init_containers c refl)
      ∙ apply-mount_to_app_containers server mount_path p3
