-- ===== src/Kube.antt =====
-- The part of the Kubernetes API types (k8s.io/api/core/v1, k8s.io/apimachinery meta/v1) that the
-- repository reads and writes: the fields that its code names, under their names. A pointer field
-- is an `Option`, a map an association list whose first entry counts.
use iron_book.Common.{ℕ, String, Bool, List, [], ◌∷◌, Option, str_eq, if◌then◌else◌}

abbrev pub Labels : Type 0
Labels = List (String × String)

-- `labels[key]`: the empty text where the key is missing.
unfoldable pub label : Labels → String → String
label [] key = ""
label ((k, v) ∷ labels) key = if str_eq k key then v else label labels key

-- `deleting` is `!DeletionTimestamp.IsZero()`; `owner` is the name of the controller reference.
pub record ObjectMeta : Type 0 where
  pub name : String
  pub namespace : String
  pub labels : Labels
  pub finalizers : List String
  pub deleting : Bool
  pub owner : Option String

pub record Condition : Type 0 where
  pub type : String
  pub status : Bool
  pub reason : String
  pub message : String

pub record SecurityContext : Type 0 where
  pub allow_privilege_escalation : Option Bool
  pub read_only_root_filesystem : Option Bool
  -- `Capabilities.Drop`, where `Capabilities` is not nil.
  pub capabilities_drop : Option (List String)

pub record EnvVar : Type 0 where
  pub name : String
  pub value : String

pub record ContainerPort : Type 0 where
  pub name : String
  pub container_port : ℕ

pub record VolumeMount : Type 0 where
  pub name : String
  pub mount_path : String

-- Quantities are kept as they are written.
pub record Resources : Type 0 where
  pub request_cpu : String
  pub request_memory : String
  pub limit_cpu : String
  pub limit_memory : String

pub record Container : Type 0 where
  pub name : String
  pub image : String
  pub image_pull_policy : String
  pub ports : List ContainerPort
  pub security_context : Option SecurityContext
  pub volume_mounts : List VolumeMount
  pub env : List EnvVar
  pub resources : Option Resources

pub record PodSecurityContext : Type 0 where
  pub run_as_non_root : Option Bool
  pub run_as_user : Option ℕ
  pub run_as_group : Option ℕ
  pub seccomp_profile : Option String

pub data VolumeSource : Type 0 where
  host_path : String → VolumeSource
  empty_dir : VolumeSource
  other_source : VolumeSource

pub record Volume : Type 0 where
  pub name : String
  pub source : VolumeSource

pub record PodSpec : Type 0 where
  pub host_network : Bool
  pub host_pid : Bool
  pub host_ipc : Bool
  pub runtime_class_name : Option String
  pub restart_policy : String
  pub security_context : Option PodSecurityContext
  pub init_containers : List Container
  pub containers : List Container
  pub volumes : List Volume

pub data PodPhase : Type 0 where
  pod_unset pod_pending pod_running pod_succeeded pod_failed pod_unknown : PodPhase

pub record PodStatus : Type 0 where
  pub phase : PodPhase
  -- The conditions' types, with whether the status is "True".
  pub conditions : List (String × Bool)

pub record Pod : Type 0 where
  pub meta : ObjectMeta
  pub spec : PodSpec
  pub status : PodStatus
