-- ===== src/Operator/Run/Deletes/Examples.antt =====
-- The deletion of a run with two pods, one of which is going already; the world is the run, its
-- pods, and the rounds for which pods that are going stay listed.
use iron_book.Common.{
  ℕ, zero, suc, ◌≤◌, ◌*◌, arith, All, String, ◌≡◌, refl, Bool, true, false, List, [], ◌∷◌, none,
}
use iron_book.Common.Int.{pos}
use iron_book.Kube.{Pod, pod_running}
use iron_book.Operator.Types.{BenchmarkRun}
use iron_book.Operator.Client.{Client, NamespacedName, found, failed, not_found}
use iron_book.Operator.Run.{reconcile}
use iron_book.Operator.Run.Deletes.{IsGraceful, Frees, reconcile_deletes}
use iron_book.Operator.Run.Deletes.Marked.{marked, Dying}

abbrev deleted_run : BenchmarkRun
deleted_run = record {
  meta = record {
    name = "run";
    namespace = "ironbook";
    labels = [];
    finalizers = "ironbook.io/run-cleanup" ∷ [];
    deleting = true;
    owner = none;
  };
  spec = record { submission_ref = "s"; scenario_ref = "c"; bot_swarm_ref = "b"; seed = pos 42 };
  status = record {
    phase = "RUNNING";
    started_at = none;
    ended_at = none;
    submission_endpoint = "";
    oracle_endpoint = "";
    gateway_endpoint = "";
    conditions = [];
  };
}

abbrev a_pod : String → Bool → Pod
a_pod name going = record {
  meta = record {
    name = name;
    namespace = "ironbook";
    labels = [];
    finalizers = [];
    deleting = going;
    owner = none;
  };
  spec = record {
    host_network = false;
    host_pid = false;
    host_ipc = false;
    runtime_class_name = none;
    restart_policy = "Never";
    security_context = none;
    init_containers = [];
    containers = [];
    volumes = [];
  };
  status = record { phase = pod_running; conditions = [] };
}

abbrev is_nonempty : List String → Bool
is_nonempty [] = false
is_nonempty (x ∷ xs) = true

abbrev server : Client
server = record {
  World = BenchmarkRun × List Pod × ℕ;
  get_run = λ key w. found w.0;
  get_submission = λ key w. failed not_found;
  get_scenario = λ key w. failed not_found;
  get_bot_swarm = λ key w. failed not_found;
  list_pods = λ namespace run w. found w.1;
  update_run = λ r w. (none, (record (w.0) { meta = r.meta }, w.1, w.2));
  update_run_status = λ r w. (none, w);
  update_submission_status = λ s w. (none, w);
  update_scenario_status = λ s w. (none, w);
  create_pod = λ p w. (none, w);
  create_service = λ s w. (none, w);
  delete_pod = λ p w. (none, (w.0, marked p.meta.name w.1, w.2));
  set_status_condition = λ c conditions. c ∷ conditions;
  set_controller_reference = λ run meta. found meta;
  contains_finalizer = λ meta finalizer. is_nonempty meta.finalizers;
  add_finalizer = λ meta finalizer. record meta { finalizers = finalizer ∷ meta.finalizers };
  remove_finalizer = λ meta finalizer. record meta { finalizers = [] };
  quote = λ s. s;
  error_text = λ e. "error";
}

abbrev key : NamespacedName
key = record { namespace = "ironbook"; name = "run" }

-- A round less; at the last the pods are gone.
abbrev passed : List Pod → ℕ → List Pod × ℕ
passed pods zero = ([], 0)
passed pods (suc zero) = ([], 0)
passed pods (suc (suc n)) = (pods, suc n)

-- Pods that were never listed need no time.
abbrev time_left : List Pod → ℕ → ℕ
time_left [] n = 0
time_left (p ∷ pods) n = suc n

passed-All : (P : Pod → Type 0) (pods : List Pod) (n : ℕ) → All P pods → All P (passed pods n).0
passed-All P pods zero h = tt
passed-All P pods (suc zero) h = tt
passed-All P pods (suc (suc n)) h = h

passed-shrinks :
    (n : ℕ) (pods : List Pod) (k : ℕ)
    → time_left pods k ≤ suc n
    → time_left (passed pods k).0 (passed pods k).1 ≤ n
passed-shrinks n pods zero h = omega arith
passed-shrinks n pods (suc zero) h = omega arith
passed-shrinks n [] (suc (suc k)) h = omega arith
passed-shrinks n (p ∷ pods) (suc (suc k)) h = omega (arith, h)

none_left : (pods : List Pod) (k : ℕ) → time_left pods k ≤ 0 → pods ≡ []
none_left [] k h = refl
none_left (p ∷ pods) k h = absurd (omega (arith, h))

abbrev graceful : IsGraceful server key
graceful = record {
  run = λ w. w.0;
  reads = λ w. refl;
  pods = λ w. w.1;
  lists = λ namespace name w. refl;
  takes_delete = λ p w. refl;
  marks = λ P p w h. h;
  keeps_run = λ p w. refl;
  stores_run = λ r w. refl;
  drops = λ m. refl;
  passes = λ w. let (pods, n) = passed w.1 w.2 in (w.0, pods, n);
  passes_run = λ w. refl;
  passes_pods = λ P w h. passed-All P w.1 w.2 h;
  grace = λ w. time_left w.1 w.2;
  shrinks = λ n w dying h. passed-shrinks n w.1 w.2 h;
  ends = λ w dying h. none_left w.1 w.2 h;
}

abbrev at_start : BenchmarkRun × List Pod × ℕ
at_start = (deleted_run, a_pod "x" false ∷ a_pod "y" true ∷ [], 3)

abbrev every_two_seconds : ℕ → ℕ
every_two_seconds k = k * 2

reconcile_deletes_example :
    let w = (reconcile server key (every_two_seconds 0) at_start).1 in
    Dying (graceful.pods w)
    × (graceful.run w ≡ deleted_run)
    × Frees server key graceful every_two_seconds 1
        (graceful.grace (graceful.passes w))
        (graceful.passes w)
reconcile_deletes_example =
    reconcile_deletes server key graceful every_two_seconds at_start (a_pod "x" false)
      (a_pod "y" true ∷ []) refl refl
