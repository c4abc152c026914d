-- ===== src/Operator/Examples.antt =====
-- The operator at concrete inputs: an API server whose world is one run, and which accepts every
-- write.
use iron_book.Common.{ℕ, ◌≡◌, refl, String, true, false, List, [], ◌∷◌, All, none, some}
use iron_book.Common.Int.{ℤ, pos}
use iron_book.Kube.{ObjectMeta}
use iron_book.Admission.Policy.{validate}
use iron_book.Admission.Policy.Compliance.{IsCompliant}
use iron_book.Operator.Types.{BenchmarkRun, BenchmarkRunStatus, Submission, Scenario, ScenarioSpec}
use iron_book.Operator.Client.{Client, NamespacedName, found, failed, not_found}
use iron_book.Operator.Recorded.{recorded}
use iron_book.Operator.Pods.{submission_pod}
use iron_book.Operator.Run.{reconcile}
use iron_book.Operator.Run.Writes.{Written, reconcile-Allowed}
use iron_book.Operator.Run.Life.{WellTimed, reconcile-IsTimed}
use iron_book.Operator.Sandbox.{submission_pod-unchecked}
use iron_book.Operator.Resources.{submission_reconcile, scenario_reconcile}
use iron_book.Operator.Resources.Settled.{Pends, Hashes, reconcile-Settled}

abbrev named : String → ObjectMeta
named name = record {
  name = name;
  namespace = "ironbook";
  labels = [];
  finalizers = "ironbook.io/run-cleanup" ∷ [];
  deleting = false;
  owner = none;
}

abbrev status : BenchmarkRunStatus
status = record {
  phase = "DRAINING";
  started_at = some 100;
  ended_at = none;
  submission_endpoint = "";
  oracle_endpoint = "";
  gateway_endpoint = "";
  conditions = [];
}

abbrev draining_run : BenchmarkRun
draining_run = record {
  meta = named "run";
  spec = record { submission_ref = "s"; scenario_ref = "c"; bot_swarm_ref = "b"; seed = pos 42 };
  status = status;
}

abbrev submission : Submission
submission = record {
  meta = named "s";
  spec = record { sha256 = "abc"; language = "rust" };
  status = record {
    phase = "READY";
    image_digest = "img@sha256:00";
    reject_reason = "";
    conditions = [];
  };
}

abbrev scenario_spec : ℤ → ScenarioSpec
scenario_spec seed = record {
  yaml_spec = "steps";
  seed = seed;
  duration_seconds = pos 60;
  targets = record { p50_us = pos 1; p99_us = pos 2; tps = pos 3 };
}

abbrev server : Client
server = record {
  World = BenchmarkRun;
  get_run = λ key w. found w;
  get_submission = λ key w. found submission;
  get_scenario = λ key w. failed not_found;
  get_bot_swarm = λ key w. failed not_found;
  list_pods = λ namespace run w. found [];
  update_run = λ r w. (none, r);
  update_run_status = λ r w. (none, record w { status = r.status });
  update_submission_status = λ s w. (none, w);
  update_scenario_status = λ s w. (none, w);
  create_pod = λ p w. (none, w);
  create_service = λ s w. (none, w);
  delete_pod = λ p w. (none, w);
  set_status_condition = λ c conditions. c ∷ conditions;
  set_controller_reference = λ run meta. found meta;
  contains_finalizer = λ meta finalizer. true;
  add_finalizer = λ meta finalizer. meta;
  remove_finalizer = λ meta finalizer. record meta { finalizers = [] };
  quote = λ s. s;
  error_text = λ e. "error";
}

abbrev key : NamespacedName
key = record { namespace = "ironbook"; name = "run" }

reconcile-Allowed_example :
    Written server 160 draining_run
      (found draining_run)
      (reconcile (recorded server) key 160 (draining_run, [])).1.1
reconcile-Allowed_example = reconcile-Allowed server 160 key draining_run

reconcile-IsTimed_example :
    All WellTimed (reconcile (recorded server) key 160 (draining_run, [])).1.1
reconcile-IsTimed_example =
    reconcile-IsTimed server 160 key draining_run draining_run refl
      (record { start = 100; started = refl; not_ended = refl })

submission_pod-unchecked_example :
    ((validate (submission_pod draining_run submission)).allowed ≡ true)
    × ¬ IsCompliant (submission_pod draining_run submission)
submission_pod-unchecked_example = submission_pod-unchecked draining_run submission

abbrev one_digest : List ℕ → List ℕ
one_digest text = 1 ∷ 2 ∷ []

abbrev new_submission : Submission
new_submission = record submission { status = record (submission.status) { phase = "" } }

abbrev new_scenario : Scenario
new_scenario = record {
  meta = named "c";
  spec = scenario_spec (pos 1);
  status = record { content_hash = ""; conditions = [] };
}

-- A server where nothing was reconciled yet.
abbrev new_server : Client
new_server = record server {
  get_submission = λ key w. found new_submission;
  get_scenario = λ key w. found new_scenario;
}

reconcile-Settled_example :
    All
      (Pends new_server (found new_submission))
      (submission_reconcile (recorded new_server) key (draining_run, [])).1.1
    × All
        (Hashes one_digest (found new_scenario))
        (scenario_reconcile (recorded new_server) one_digest key (draining_run, [])).1.1
reconcile-Settled_example = reconcile-Settled new_server one_digest key draining_run
