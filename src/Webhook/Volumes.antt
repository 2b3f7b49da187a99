-- ===== src/Webhook/Volumes.antt =====
-- The volumes and the security context of the pod: patchSecurityContext, patchVolumes and
-- volumeExists (internal/webhook/mutator.go).
use chur.Base.{Bool, false, not, ◌&&◌, ◌||◌, Option, none, some, List, [], ◌∷◌, ◌++◌, if◌then◌else◌}
use chur.Base.Int.{ℤ}
use chur.Text.{Text, text_eq, is_empty}
use chur.Webhook.Pod.{
  Volume, empty_dir_memory, host_path_directory_or_create, secret_volume, Pod, PodSecurityContext,
  PatchOperation, add, at_security_context, at_fs_group, at_volumes, at_volumes_end,
  pod_security_context, group, volume_list, one_volume,
}
use chur.Webhook.Config.{
  Config, provider_local, provider_keeper, vol_name_secrets, vol_name_local, vol_name_keeper,
}

unfoldable pub volume_exists : List Volume → Text → Bool
volume_exists [] name = false
volume_exists (v ∷ vs) name = text_eq v.name name || volume_exists vs name

-- The group of the pod's security context, where it sets one.
unfoldable pub own_fs_group : Option PodSecurityContext → Option ℤ
own_fs_group none = none
own_fs_group (some sc) = sc.fs_group

unfoldable pub fs_group_patch : Option ℤ → ℤ → List PatchOperation
fs_group_patch none fs_group = add at_fs_group (group fs_group) ∷ []
fs_group_patch (some g) fs_group = []

unfoldable pub security_patch : Option PodSecurityContext → ℤ → List PatchOperation
security_patch none fs_group =
    add at_security_context (pod_security_context (record { fs_group = some fs_group })) ∷ []
security_patch (some sc) fs_group = fs_group_patch sc.fs_group fs_group

unfoldable pub patch_security_context : Pod → ℤ → List PatchOperation
unfolding security_patch fs_group_patch
patch_security_context pod fs_group = security_patch pod.security_context fs_group

-- A list is created where the pod has none, and extended at its end otherwise.
unfoldable pub add_volume : List Volume → Volume → PatchOperation
add_volume [] v = add at_volumes (volume_list (v ∷ []))
add_volume (w ∷ ws) v = add at_volumes_end (one_volume v)

unfoldable pub secrets_volume : Config → Volume
secrets_volume cfg = record {
  name = vol_name_secrets;
  source = empty_dir_memory cfg.volume_size_limit;
}

unfoldable pub local_volume : Config → Volume
local_volume cfg = record {
  name = vol_name_local;
  source = host_path_directory_or_create cfg.local_base_path;
}

-- 0444 is 292.
unfoldable pub keeper_volume : Config → Volume
keeper_volume cfg = record {
  name = vol_name_keeper;
  source = secret_volume cfg.keeper_client_cert_secret_name 292;
}

-- The pod does not change while the patches are collected: both tests on it read the volumes that
-- came with the request.
unfoldable pub patch_volumes : Pod → Config → Text → List PatchOperation
unfolding add_volume
patch_volumes pod cfg provider_name =
    (if not (volume_exists pod.volumes vol_name_secrets)
      then add_volume pod.volumes (secrets_volume cfg) ∷ []
      else [])
    ++ ((if text_eq provider_name provider_local && not (volume_exists pod.volumes vol_name_local)
          then add at_volumes_end (one_volume (local_volume cfg)) ∷ []
          else [])
        ++ (if text_eq provider_name provider_keeper
              && not (is_empty cfg.keeper_client_cert_secret_name)
              && not (volume_exists pod.volumes vol_name_keeper)
            then add_volume pod.volumes (keeper_volume cfg) ∷ []
            else []))
