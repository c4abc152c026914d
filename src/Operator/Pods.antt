-- ===== src/Operator/Pods.antt =====
-- The pod and service templates of
-- apps/benchmark-operator/internal/controller/benchmarkrun_controller.go.
use iron_book.Common.{ℕ, String, true, false, List, [], ◌∷◌, none, some}
use iron_book.Common.Text.{concat}
use iron_book.Common.Decimal.{fmt_int}
use iron_book.Kube.{
  Labels, ObjectMeta, Pod, pod_unset, Container, ContainerPort, SecurityContext, PodSecurityContext,
  EnvVar, Resources, Volume, VolumeMount, empty_dir,
}
use iron_book.Operator.Types.{BenchmarkRun, Submission, Scenario}
use iron_book.Operator.Client.{Service}

abbrev pub label_run : String
label_run = "ironbook.io/run"

abbrev pub label_role : String
label_role = "ironbook.io/role"

-- The values of the role label.
pub data Role : Type 0 where
  role_oracle role_submission role_gateway role_coordinator : Role

abbrev pub role_name : Role → String
role_name role_oracle = "reference-oracle"
role_name role_submission = "submission"
role_name role_gateway = "fairness-gateway"
role_name role_coordinator = "bot-coordinator"

-- `fmt.Sprintf("%s-%s", role, br.Name)`.
abbrev pub role_object : Role → BenchmarkRun → String
role_object role br = concat (role_name role) (concat "-" br.meta.name)

-- `fmt.Sprintf("%s-%s.%s.svc:PORT", role, br.Name, br.Namespace)`.
abbrev pub endpoint : Role → BenchmarkRun → String → String
endpoint role br port =
    concat (role_object role br) (concat "." (concat br.meta.namespace (concat ".svc:" port)))

abbrev pub run_labels : BenchmarkRun → Role → Labels
run_labels br role = (label_run, br.meta.name) ∷ (label_role, role_name role) ∷ []

unfoldable pub pod_meta : BenchmarkRun → Role → ObjectMeta
pod_meta br role = record {
  name = role_object role br;
  namespace = br.meta.namespace;
  labels = run_labels br role;
  finalizers = [];
  deleting = false;
  owner = none;
}

abbrev pub non_root_pod_security_context : PodSecurityContext
non_root_pod_security_context = record {
  run_as_non_root = some true;
  run_as_user = some 65532;
  run_as_group = some 65532;
  seccomp_profile = some "RuntimeDefault";
}

abbrev pub hardened_container_security_context : SecurityContext
hardened_container_security_context = record {
  allow_privilege_escalation = some false;
  read_only_root_filesystem = some true;
  capabilities_drop = some ("ALL" ∷ []);
}

abbrev pub small_resources : Resources
small_resources = record {
  request_cpu = "100m";
  request_memory = "128Mi";
  limit_cpu = "500m";
  limit_memory = "512Mi";
}

-- What the four templates share: one hardened container, no restart, not root.
abbrev container : String → String → List ContainerPort → List VolumeMount → List EnvVar → Container
container name image ports volume_mounts env = record {
  name = name;
  image = image;
  image_pull_policy = "IfNotPresent";
  ports = ports;
  security_context = some hardened_container_security_context;
  volume_mounts = volume_mounts;
  env = env;
  resources = some small_resources;
}

abbrev pod : ObjectMeta → List Volume → Container → Pod
pod meta volumes c = record {
  meta = meta;
  spec = record {
    host_network = false;
    host_pid = false;
    host_ipc = false;
    runtime_class_name = none;
    restart_policy = "Never";
    security_context = some non_root_pod_security_context;
    init_containers = [];
    containers = c ∷ [];
    volumes = volumes;
  };
  status = record { phase = pod_unset; conditions = [] };
}

abbrev port : String → ℕ → ContainerPort
port name number = record { name = name; container_port = number }

abbrev env : String → String → EnvVar
env name value = record { name = name; value = value }

unfoldable pub oracle_pod : BenchmarkRun → Pod
oracle_pod br =
    pod (pod_meta br role_oracle) []
      (container "oracle" "ironbook/reference-oracle:dev" (port "grpc" 7080 ∷ []) [] [])

unfoldable pub submission_pod : BenchmarkRun → Submission → Pod
submission_pod br sub =
    pod (pod_meta br role_submission) []
      (container "engine" sub.status.image_digest (port "engine" 7777 ∷ []) [] [])

-- The environment that the gateway's configuration reads.
abbrev pub gateway_env : BenchmarkRun → List EnvVar
gateway_env br =
    env "IRONBOOK_HTTP_ADDR" ":8080"
    ∷ env "IRONBOOK_TIME_SERVICE" "time-service.ironbook.svc.cluster.local:7070"
    ∷ env "IRONBOOK_SUBMISSION_ENDPOINT" br.status.submission_endpoint
    ∷ env "IRONBOOK_ORACLE_ENDPOINT" br.status.oracle_endpoint
    ∷ env "IRONBOOK_EVENT_LOG_PATH" "/var/log/ironbook/events.jsonl"
    ∷ []

unfoldable pub gateway_pod : BenchmarkRun → Pod
gateway_pod br =
    pod (pod_meta br role_gateway) (record { name = "scratch"; source = empty_dir } ∷ []) (
      container "gateway" "ironbook/fairness-gateway:dev" (port "http" 8080 ∷ [])
        (record { name = "scratch"; mount_path = "/var/log/ironbook" } ∷ []) (gateway_env br))

-- The environment that the coordinator reads.
abbrev pub coordinator_env : BenchmarkRun → Scenario → List EnvVar
coordinator_env br scn =
    env "IRONBOOK_SCENARIO_YAML" scn.spec.yaml_spec
    ∷ env "IRONBOOK_SCENARIO_SEED" (fmt_int br.spec.seed)
    ∷ env "IRONBOOK_DURATION_SECONDS" (fmt_int scn.spec.duration_seconds)
    ∷ env "IRONBOOK_GATEWAY_URL" (concat "http://" br.status.gateway_endpoint)
    ∷ []

unfoldable pub coordinator_pod : BenchmarkRun → Scenario → Pod
coordinator_pod br scn =
    pod (pod_meta br role_coordinator) []
      (container "coordinator" "ironbook/bot-coordinator:dev" [] [] (coordinator_env br scn))

-- The service that `ensureService` makes for a role.
unfoldable pub role_service : BenchmarkRun → Role → ℕ → Service
unfolding pod_meta
role_service br role number = record {
  meta = pod_meta br role;
  selector = run_labels br role;
  port = number;
  target_port = number;
}
