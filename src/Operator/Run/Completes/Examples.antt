-- ===== src/Operator/Run/Completes/Examples.antt =====
-- A run on a server whose pods take their time: it is polled once before they are ready and once
-- before the coordinator has finished.
use iron_book.Common.{◌≡◌, refl, true, false, List, [], ◌∷◌, none, some}
use iron_book.Kube.{Pod, label, pod_running}
use iron_book.Operator.Types.{BenchmarkRun}
use iron_book.Operator.Client.{Client, found}
use iron_book.Operator.Pods.{role_oracle, role_submission, role_gateway, role_coordinator}
use iron_book.Operator.Gate.{all_ready, coordinator_done}
use iron_book.Operator.Run.{reconcile}
use iron_book.Operator.Run.Examples.{
  fresh_run, submission, scenario, swarm, ready_pod, key, pods, is_nonempty,
}
use iron_book.Operator.Run.Willing.{IsWilling, In}
use iron_book.Operator.Run.Polls.{Polls, pass_now, poll}
use iron_book.Operator.Run.Completes.{reconciles, reconciles_complete}

-- The server keeps the run and its pods.
abbrev server : Client
server = record {
  World = BenchmarkRun × List Pod;
  get_run = λ key w. found w.0;
  get_submission = λ key w. found submission;
  get_scenario = λ key w. found scenario;
  get_bot_swarm = λ key w. found swarm;
  list_pods = λ namespace run w. found w.1;
  update_run = λ r w. (none, (record (w.0) { meta = r.meta }, w.1));
  update_run_status = λ r w. (none, (record (w.0) { status = r.status }, w.1));
  update_submission_status = λ s w. (none, w);
  update_scenario_status = λ s w. (none, w);
  create_pod = λ p w. (none, (w.0, p ∷ w.1));
  create_service = λ s w. (none, w);
  delete_pod = λ p w. (none, w);
  set_status_condition = λ c conditions. c ∷ conditions;
  set_controller_reference = λ run meta. found meta;
  contains_finalizer = λ meta finalizer. is_nonempty meta.finalizers;
  add_finalizer = λ meta finalizer. record meta { finalizers = finalizer ∷ meta.finalizers };
  remove_finalizer = λ meta finalizer. record meta { finalizers = [] };
  quote = λ s. s;
  error_text = λ e. "error";
}

abbrev willing : IsWilling server key
willing = record {
  run = λ w. w.0;
  reads = λ w. refl;
  stores_status = λ r w. refl;
  stores_run = λ r w. refl;
  takes_pod = λ p w. refl;
  keeps_pod = λ p w. refl;
  takes_service = λ s w. refl;
  keeps_service = λ s w. refl;
  owns = λ br meta. (meta, refl);
  adds = λ m. refl;
  keeps_deleting = λ m. refl;
  submission = submission;
  finds_submission = λ k w. refl;
  submission_ready = refl;
  scenario = scenario;
  finds_scenario = λ k w. refl;
  scenario_hashed = refl;
  swarm = swarm;
  finds_swarm = λ k w. refl;
  pods = λ w. w.1;
  lists = λ namespace name w. refl;
}

abbrev pods_running : List Pod
pods_running =
    ready_pod role_oracle pod_running
    ∷ ready_pod role_submission pod_running
    ∷ ready_pod role_gateway pod_running
    ∷ ready_pod role_coordinator pod_running
    ∷ []

-- Three of them.
abbrev pods_starting : List Pod
pods_starting =
    ready_pod role_oracle pod_running
    ∷ ready_pod role_submission pod_running
    ∷ ready_pod role_gateway pod_running
    ∷ []

abbrev World : Type 0
World = BenchmarkRun × List Pod

abbrev allocated : World
allocated = reconciles server key (10 ∷ 11 ∷ 12 ∷ 13 ∷ []) (fresh_run, [])

abbrev started : World
started = ((reconcile server key 14 (allocated.0, pods_starting)).1.0, pods_running)

abbrev running : World
running = (reconcile server key 15 started).1

abbrev finished : World
finished = ((reconcile server key 16 (running.0, pods_running)).1.0, pods)

starting_unready : all_ready pods_starting ≡ false
unfolding all_ready label
starting_unready = refl

running_ready : all_ready pods_running ≡ true
unfolding all_ready label
running_ready = refl

running_unfinished : coordinator_done pods_running ≡ false
unfolding coordinator_done label
running_unfinished = refl

finished_done : coordinator_done pods ≡ true
unfolding coordinator_done label
finished_done = refl

until_ready : Polls server key willing all_ready allocated started
until_ready =
    poll {w' = (allocated.0, pods_starting)} 14 (record { same = refl }) starting_unready
      (pass_now (record { same = refl }) running_ready)

until_over : Polls server key willing coordinator_done running finished
until_over =
    poll {w' = (running.0, pods_running)} 16 (record { same = refl }) running_unfinished
      (pass_now (record { same = refl }) finished_done)

reconciles_complete_example :
    In server key willing "COMPLETE"
      (some 15)
      (some 18)
      (reconciles server key (17 ∷ 18 ∷ []) finished)
reconciles_complete_example =
    reconciles_complete server key willing (fresh_run, []) started finished 10 11 12 13 15 17 18
      (record { bare = refl; alive = refl; no_phase = refl; not_started = refl; not_ended = refl })
      until_ready until_over
