-- ===== src/Webhook/Pod.antt =====
-- The parts of a Kubernetes Pod that the mutator reads or writes (k8s.io/api/core/v1), and the JSON
-- patch operations (internal/webhook/mutator.go, PatchOperation).
use chur.Base.{ℕ, Bool, Option, List}
use chur.Base.Int.{ℤ}
use chur.Text.{Text}
use chur.Dict.{Dict}

-- resource.Quantity, by what the program asks of it: String() and Value().
pub record Quantity : Type 0 where
  pub text : Text
  pub value : ℤ

-- corev1.EnvVar with a literal value
pub record EnvVar : Type 0 where
  pub name : Text
  pub value : Text

-- corev1.VolumeMount
pub record VolumeMount : Type 0 where
  pub name : Text
  pub mount_path : Text
  pub read_only : Bool

-- corev1.VolumeSource: the three kinds that the mutator writes, and any other by its contents.
pub data VolumeSource : Type 0 where
  empty_dir_memory : Quantity → VolumeSource
  host_path_directory_or_create : Text → VolumeSource
  secret_volume : Text → ℕ → VolumeSource
  other_source : Text → VolumeSource

pub record Volume : Type 0 where
  pub name : Text
  pub source : VolumeSource

-- corev1.SecurityContext, the fields that the mutator sets; none is a nil pointer.
pub record SecurityContext : Type 0 where
  pub run_as_non_root : Option Bool
  pub run_as_user : Option ℤ
  pub run_as_group : Option ℤ
  pub read_only_root_filesystem : Option Bool
  pub allow_privilege_escalation : Option Bool
  pub drop_capabilities : List Text
  pub seccomp_profile : Option Text

pub record Container : Type 0 where
  pub name : Text
  pub image : Text
  pub image_pull_policy : Text
  pub command : List Text
  pub security_context : Option SecurityContext
  pub env : List EnvVar
  pub volume_mounts : List VolumeMount

-- corev1.PodSecurityContext, by the field that the mutator reads
pub record PodSecurityContext : Type 0 where
  pub fs_group : Option ℤ

pub record Pod : Type 0 where
  pub name : Text
  pub namespace : Text
  pub annotations : Option (Dict Text)
  pub security_context : Option PodSecurityContext
  pub volumes : List Volume
  pub init_containers : List Container
  pub containers : List Container

-- The JSON pointers that the mutator writes; the number is the index of a container. The ones
-- with `_end` finish in `/-`.
pub data PatchPath : Type 0 where
  at_security_context at_fs_group at_volumes at_volumes_end : PatchPath
  at_init_containers at_init_containers_end : PatchPath
  at_volume_mounts at_volume_mounts_end : ℕ → PatchPath

pub data PatchValue : Type 0 where
  pod_security_context : PodSecurityContext → PatchValue
  group : ℤ → PatchValue
  volume_list : List Volume → PatchValue
  one_volume : Volume → PatchValue
  container_list : List Container → PatchValue
  one_container : Container → PatchValue
  mount_list : List VolumeMount → PatchValue
  one_mount : VolumeMount → PatchValue

-- Every operation of the mutator is an `add`.
pub record PatchOperation : Type 0 where
  pub path : PatchPath
  pub value : PatchValue

abbrev pub add : PatchPath → PatchValue → PatchOperation
add p v = record { path = p; value = v }
