-- ===== src/Operator/Run/Examples.antt =====
-- The life of a run at concrete inputs: a server that keeps one run, whose four pods are ready.
use iron_book.Common.{ℕ, String, ◌≤◌, refl, Bool, true, false, List, [], ◌∷◌, Option, none, some}
use iron_book.Common.Int.{pos}
use iron_book.Kube.{ObjectMeta, Pod, PodPhase, pod_running, pod_succeeded}
use iron_book.Operator.Types.{BenchmarkRun, BenchmarkRunStatus, Submission, Scenario, BotSwarm}
use iron_book.Operator.Client.{Client, NamespacedName, found}
use iron_book.Operator.Phases.{phase_of}
use iron_book.Operator.Pods.{
  Role, role_oracle, role_submission, role_gateway, role_coordinator, role_name,
}
use iron_book.Operator.Run.Progress.{Attempt, stored, rank, stored-bound}

abbrev named : String → ObjectMeta
named name = record {
  name = name;
  namespace = "ironbook";
  labels = [];
  finalizers = [];
  deleting = false;
  owner = none;
}

abbrev in_phase : String → Option ℕ → Option ℕ → BenchmarkRunStatus
in_phase phase start end = record {
  phase = phase;
  started_at = start;
  ended_at = end;
  submission_endpoint = "";
  oracle_endpoint = "";
  gateway_endpoint = "";
  conditions = [];
}

abbrev pub fresh_run : BenchmarkRun
fresh_run = record {
  meta = named "run";
  spec = record { submission_ref = "s"; scenario_ref = "c"; bot_swarm_ref = "b"; seed = pos 42 };
  status = in_phase "" none none;
}

abbrev pub submission : Submission
submission = record {
  meta = named "s";
  spec = record { sha256 = "abc"; language = "rust" };
  status = record {
    phase = "READY";
    image_digest = "img@sha256:00";
    reject_reason = "";
    conditions = [];
  };
}

abbrev pub scenario : Scenario
scenario = record {
  meta = named "c";
  spec = record {
    yaml_spec = "steps";
    seed = pos 7;
    duration_seconds = pos 60;
    targets = record { p50_us = pos 1; p99_us = pos 2; tps = pos 3 };
  };
  status = record { content_hash = "00ff"; conditions = [] };
}

abbrev pub swarm : BotSwarm
swarm = record {
  meta = named "b";
  spec = record {
    max_workers = pos 1;
    protocols = [];
    order_mix = record { limit_fraction = "1"; ioc_fraction = "0"; cancel_fraction = "0" };
  };
  status = record { conditions = [] };
}

abbrev pub ready_pod : Role → PodPhase → Pod
ready_pod role phase = record {
  meta = record (named (role_name role)) { labels = ("ironbook.io/role", role_name role) ∷ [] };
  spec = record {
    host_network = false;
    host_pid = false;
    host_ipc = false;
    runtime_class_name = none;
    restart_policy = "Never";
    security_context = none;
    init_containers = [];
    containers = [];
    volumes = [];
  };
  status = record { phase = phase; conditions = ("Ready", true) ∷ [] };
}

abbrev pub pods : List Pod
pods =
    ready_pod role_oracle pod_running
    ∷ ready_pod role_submission pod_running
    ∷ ready_pod role_gateway pod_running
    ∷ ready_pod role_coordinator pod_succeeded
    ∷ []

abbrev pub is_nonempty : List String → Bool
is_nonempty [] = false
is_nonempty (x ∷ xs) = true

abbrev server : Client
server = record {
  World = BenchmarkRun;
  get_run = λ key w. found w;
  get_submission = λ key w. found submission;
  get_scenario = λ key w. found scenario;
  get_bot_swarm = λ key w. found swarm;
  list_pods = λ namespace run w. found pods;
  update_run = λ r w. (none, record w { meta = r.meta });
  update_run_status = λ r w. (none, record w { status = r.status });
  update_submission_status = λ s w. (none, w);
  update_scenario_status = λ s w. (none, w);
  create_pod = λ p w. (none, w);
  create_service = λ s w. (none, w);
  delete_pod = λ p w. (none, w);
  set_status_condition = λ c conditions. c ∷ conditions;
  set_controller_reference = λ run meta. found meta;
  contains_finalizer = λ meta finalizer. is_nonempty meta.finalizers;
  add_finalizer = λ meta finalizer. record meta { finalizers = finalizer ∷ meta.finalizers };
  remove_finalizer = λ meta finalizer. record meta { finalizers = [] };
  quote = λ s. s;
  error_text = λ e. "error";
}

abbrev pub key : NamespacedName
key = record { namespace = "ironbook"; name = "run" }

abbrev draining_run : BenchmarkRun
draining_run = record {
  meta = record (named "run") { finalizers = "ironbook.io/run-cleanup" ∷ [] };
  spec = fresh_run.spec;
  status = in_phase "DRAINING" (some 14) none;
}

abbrev complete_run : BenchmarkRun
complete_run = record draining_run {
  status = record (in_phase "COMPLETE" (some 14) (some 16)) {
    conditions =
        record { type = "Completed"; status = true; reason = "DrainSuccessful"; message = "" } ∷ [];
  };
}

abbrev last_status : Attempt server key
unfolding iron_book.Operator.Run.reconcile iron_book.Operator.Flow.◌>>=◌
    iron_book.Operator.Flow.fetch iron_book.Operator.Flow.finish_with
last_status = record {
  now = 16;
  world = draining_run;
  read = draining_run;
  status_sent = complete_run;
  before = [];
  after = [];
  reads = refl;
  sends = refl;
}

-- The status is refused, sent again and stored, and sent once more from an old run.
abbrev attempts : List (Attempt server key × Bool)
attempts = (last_status, false) ∷ (last_status, true) ∷ (last_status, false) ∷ []

stored-bound_example :
    (stored server key attempts ≤ 6) × (stored server key attempts ≤ rank (phase_of "DRAINING"))
unfolding last_status
stored-bound_example = stored-bound server key "DRAINING" attempts (refl, tt)
