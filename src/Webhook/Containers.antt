-- ===== src/Webhook/Containers.antt =====
-- The init container and the mounts of the application containers: buildInitContainer,
-- initContainerExists, volumeMountExists and mountToAppContainers (internal/webhook/mutator.go).
use chur.Base.{
  ℕ, ◌+◌, Bool, true, false, not, ◌&&◌, ◌||◌, Option, none, some, List, [], ◌∷◌, ◌++◌,
  if◌then◌else◌,
}
use chur.Base.Int.{ℤ}
use chur.Text.{Text, bytes, text_eq, is_empty, contains_byte, before_last}
use chur.Webhook.Pod.{
  EnvVar, VolumeMount, Container, PatchOperation, add, at_init_containers, at_init_containers_end,
  at_volume_mounts, at_volume_mounts_end, container_list, one_container, mount_list, one_mount,
}
use chur.Webhook.Config.{
  Config, provider_local, provider_keeper, vol_name_secrets, vol_name_local, vol_name_keeper,
}

unfoldable pub init_container_name : Text
init_container_name = bytes "chur-init"

unfoldable pub init_container_exists : List Container → Text → Bool
init_container_exists [] name = false
init_container_exists (c ∷ cs) name = text_eq c.name name || init_container_exists cs name

unfoldable pub volume_mount_exists : List VolumeMount → Text → Text → Bool
volume_mount_exists [] name mount_path = false
volume_mount_exists (m ∷ ms) name mount_path =
    text_eq m.name name && text_eq m.mount_path mount_path || volume_mount_exists ms name mount_path

-- The directory of the client certificate: what stands before the last slash.
unfoldable pub keeper_mount_dir : Config → Text
unfolding before_last contains_byte
keeper_mount_dir cfg =
    let mount_dir =
      if is_empty cfg.keeper_tls_cert_path
      then bytes "/etc/chur-keeper/client-tls"
      else cfg.keeper_tls_cert_path in
    if contains_byte mount_dir b'/' then before_last mount_dir b'/' else mount_dir

-- The group of the init container; the pod's group where none is configured.
or_group : Option ℤ → ℤ → Option ℤ
or_group none fs_group = some fs_group
or_group (some g) fs_group = some g

-- The mounts of the init container.
unfoldable pub init_mounts : Config → Text → Text → List VolumeMount
unfolding keeper_mount_dir
init_mounts cfg mount_path provider_name =
    record { name = vol_name_secrets; mount_path = mount_path; read_only = false }
    ∷ ((if text_eq provider_name provider_local
          then record { name = vol_name_local; mount_path = cfg.local_base_path; read_only = true }
            ∷ []
          else [])
        ++ (if text_eq provider_name provider_keeper
              && not (is_empty cfg.keeper_client_cert_secret_name)
            then record {
              name = vol_name_keeper;
              mount_path = keeper_mount_dir cfg;
              read_only = true;
            }
              ∷ []
            else []))

unfoldable pub build_init_container : Config → List EnvVar → Text → Text → ℤ → Container
unfolding init_mounts init_container_name or_group
build_init_container cfg init_env mount_path provider_name fs_group = record {
  name = init_container_name;
  image = cfg.init_image;
  image_pull_policy = cfg.init_image_pull_policy;
  command = bytes "/chur-init" ∷ [];
  security_context = some (record {
    run_as_non_root = some true;
    run_as_user = some cfg.run_as_user;
    run_as_group = or_group cfg.run_as_group fs_group;
    read_only_root_filesystem = some true;
    allow_privilege_escalation = some false;
    drop_capabilities = bytes "ALL" ∷ [];
    seccomp_profile = some (bytes "RuntimeDefault");
  });
  env = init_env;
  volume_mounts = init_mounts cfg mount_path provider_name;
}

-- The patch that adds the init container: a new list, or an extension of the pod's.
unfoldable pub add_init_container : List Container → Container → PatchOperation
add_init_container [] c = add at_init_containers (container_list (c ∷ []))
add_init_container (x ∷ xs) c = add at_init_containers_end (one_container c)

-- The mount that an application container gets.
unfoldable pub app_mount : Text → VolumeMount
app_mount mount_path = record { name = vol_name_secrets; mount_path = mount_path; read_only = true }

-- The patch for container `i`, by the mounts that it has.
unfoldable pub add_mount : ℕ → List VolumeMount → Text → PatchOperation
add_mount i [] mount_path = add (at_volume_mounts i) (mount_list (app_mount mount_path ∷ []))
add_mount i (m ∷ ms) mount_path = add (at_volume_mounts_end i) (one_mount (app_mount mount_path))

-- The loop over the containers, from index `i`.
unfoldable pub mount_from : ℕ → List Container → Text → List PatchOperation
unfolding add_mount app_mount
mount_from i [] mount_path = []
mount_from i (c ∷ cs) mount_path =
    let rest = mount_from (i + 1) cs mount_path in
    if volume_mount_exists c.volume_mounts vol_name_secrets mount_path
    then rest
    else add_mount i c.volume_mounts mount_path ∷ rest

unfoldable pub mount_to_app_containers : List Container → Text → List PatchOperation
unfolding mount_from
mount_to_app_containers = mount_from 0
