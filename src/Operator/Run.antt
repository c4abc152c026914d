-- ===== src/Operator/Run.antt =====
-- apps/benchmark-operator/internal/controller/benchmarkrun_controller.go: `Reconcile` and the
-- transitions of a benchmark run.
pub mod Frame
pub mod Writes
pub mod Life
pub mod Progress
pub mod Willing
pub mod Polls
pub mod Completes
pub mod Deletes
pub mod Examples
use iron_book.Common.{
  ℕ, String, Bool, true, false, not, ◌&&◌, List, [], ◌∷◌, Option, none, some, ltb, length, str_eq,
  if◌then◌else◌,
}
use iron_book.Common.Text.{concat}
use iron_book.Kube.{
  label, ObjectMeta, Condition, Pod, PodPhase, pod_unset, pod_pending, pod_running, pod_succeeded,
  pod_failed, pod_unknown,
}
use iron_book.Operator.Types.{BenchmarkRun, Submission, Scenario, BotSwarm}
use iron_book.Operator.Client.{
  Client, ApiError, not_found, already_exists, ignore_not_found, Got, found, failed, NamespacedName,
  Service,
}
use iron_book.Operator.Flow.{
  Requeue, no_requeue, requeue, requeue_after, Returned, Flow, go_on, return, M, ◌>>=◌, ◌>>◌,
  finish, finish_with, return_if, fetch, return_error, and_check, try, pass,
}
use iron_book.Operator.Phases.{
  Phase, unset, pending, allocating, priming, running, draining, terminal, unknown, phase_of,
}
use iron_book.Operator.Gate.{all_ready, coordinator_done}
use iron_book.Operator.Pods.{
  Role, role_oracle, role_submission, role_gateway, role_coordinator, role_name, label_run,
  label_role, endpoint, oracle_pod, submission_pod, gateway_pod, coordinator_pod, role_service,
}

abbrev pub iron_book_finalizer : String
iron_book_finalizer = "ironbook.io/run-cleanup"

abbrev pub condition : String → Bool → String → String → Condition
condition type status reason message = record {
  type = type;
  status = status;
  reason = reason;
  message = message;
}

module _ (c : Client) where
  open c use {World}

  -- `br` with a new phase and one condition set.
  abbrev pub enter : String → Condition → BenchmarkRun → BenchmarkRun
  enter phase cond br = record br {
    status = record (br.status) {
      phase = phase;
      conditions = c.set_status_condition cond br.status.conditions;
    };
  }

  pub to_pending : BenchmarkRun → M World Returned
  to_pending br = finish_with requeue (
      c.update_run_status
        (enter "PENDING" (condition "Initialized" true "Created" "BenchmarkRun accepted") br))

  -- `fmt.Sprintf("KIND %q not found: %v", name, err)`.
  abbrev pub missing : String → String → ApiError → String
  missing kind name e =
      concat kind (concat " " (concat (c.quote name) (concat " not found: " (c.error_text e))))

  pub to_invalid : {A : Type 0} → BenchmarkRun → String → M World A
  to_invalid br reason = finish_with no_requeue (
      c.update_run_status
        (enter "INVALID" (condition "RefsValidated" false "MissingRef" reason) br))

  abbrev beside : BenchmarkRun → String → NamespacedName
  beside br name = record { namespace = br.meta.namespace; name = name }

  pub to_allocating : BenchmarkRun → M World Returned
  unfolding to_invalid
  to_allocating br = do
    sub ←
        fetch (c.get_submission (beside br br.spec.submission_ref))
          λ e. to_invalid br (missing "submission" br.spec.submission_ref e)
    return_if (not (str_eq sub.status.phase "READY")) (requeue_after 5)
    scn ←
        fetch (c.get_scenario (beside br br.spec.scenario_ref))
          λ e. to_invalid br (missing "scenario" br.spec.scenario_ref e)
    return_if (str_eq scn.status.content_hash "") (requeue_after 2)
    _swarm ←
        fetch (c.get_bot_swarm (beside br br.spec.bot_swarm_ref))
          λ e. to_invalid br (missing "botswarm" br.spec.bot_swarm_ref e)
    finish_with requeue (
        c.update_run_status
          (enter "ALLOCATING" (condition "RefsValidated" true "AllRefsReady" "") br))

  -- `err != nil && !apierrors.IsAlreadyExists(err)`.
  abbrev pub ignore_already_exists : Option ApiError → Option ApiError
  ignore_already_exists (some already_exists) = none
  ignore_already_exists e = e

  pub ensure_pod : BenchmarkRun → Pod → M World (Unit {0})
  ensure_pod br pod = do
    meta ← try (c.set_controller_reference br pod.meta)
    and_check (c.create_pod (record pod { meta = meta })) ignore_already_exists

  pub ensure_service : BenchmarkRun → Role → ℕ → M World (Unit {0})
  ensure_service br role port = do
    meta ← try (c.set_controller_reference br (role_service br role port).meta)
    and_check (c.create_service (record (role_service br role port) { meta = meta }))
        ignore_already_exists

  -- The endpoints, stamped before the gateway's pod is made.
  abbrev pub with_endpoints : BenchmarkRun → BenchmarkRun
  with_endpoints br = record br {
    status = record (br.status) {
      oracle_endpoint = endpoint role_oracle br "7080";
      submission_endpoint = endpoint role_submission br "7777";
      gateway_endpoint = endpoint role_gateway br "8080";
    };
  }

  -- The four pods and the three services of a run.
  pub allocate : BenchmarkRun → Submission → Scenario → M World (Unit {0})
  unfolding ensure_pod ensure_service
  allocate br sub scn = do
    ensure_pod br (oracle_pod br)
    ensure_pod br (submission_pod br sub)
    ensure_pod br (gateway_pod br)
    ensure_pod br (coordinator_pod br scn)
    ensure_service br role_oracle 7080
    ensure_service br role_submission 7777
    ensure_service br role_gateway 8080

  pub to_priming : BenchmarkRun → M World Returned
  unfolding allocate
  to_priming br = do
    sub ← fetch (c.get_submission (beside br br.spec.submission_ref)) return_error
    scn ← fetch (c.get_scenario (beside br br.spec.scenario_ref)) return_error
    allocate (with_endpoints br) sub scn
    finish_with requeue (
        c.update_run_status
          (enter "PRIMING" (condition "PodsAllocated" true "PodsCreated" "") (with_endpoints br)))

  list_owned_pods : BenchmarkRun → M World (List Pod)
  list_owned_pods br = fetch (c.list_pods br.meta.namespace br.meta.name) return_error

  -- `now` is what `metav1.Now()` reads.
  pub observe_priming : ℕ → BenchmarkRun → M World Returned
  unfolding list_owned_pods
  observe_priming now br = do
    pods ← list_owned_pods br
    return_if (not (all_ready pods)) (requeue_after 2)
    let started = record br { status = record (br.status) { started_at = some now } }
    finish_with requeue
        (c.update_run_status (enter "RUNNING" (condition "PodsReady" true "AllReady" "") started))

  pub observe_running : BenchmarkRun → M World Returned
  unfolding list_owned_pods
  observe_running br = do
    pods ← list_owned_pods br
    return_if (not (coordinator_done pods)) (requeue_after 5)
    finish_with requeue (
        c.update_run_status
          (enter "DRAINING" (condition "ScheduleDispatched" true "CoordinatorDone" "") br))

  pub to_complete : ℕ → BenchmarkRun → M World Returned
  to_complete now br =
      let ended : BenchmarkRun = record br {
        status = record (br.status) { ended_at = some now };
      } in
      finish_with no_requeue (
        c.update_run_status
          (enter "COMPLETE" (condition "Completed" true "DrainSuccessful" "") ended))

  abbrev ignore_gone : Option ApiError → Option ApiError
  ignore_gone (some not_found) = none
  ignore_gone e = e

  -- The loop of `handleDelete` over the pods that are left.
  pub delete_pods : List Pod → M World (Unit {0})
  delete_pods [] = pass
  delete_pods (p ∷ pods) =
      let rest : M World (Unit {0}) = delete_pods pods in
      if p.meta.deleting then rest else (and_check (c.delete_pod p) ignore_gone >> rest)

  abbrev is_nonempty : List Pod → Bool
  is_nonempty [] = false
  is_nonempty (p ∷ pods) = true

  -- `handleDelete` from the listed pods on.
  pub handle_listed : BenchmarkRun → List Pod → M World Returned
  unfolding delete_pods
  handle_listed br pods = do
    delete_pods pods
    return_if (is_nonempty pods) (requeue_after 2)
    finish_with no_requeue
        (c.update_run (record br { meta = c.remove_finalizer br.meta iron_book_finalizer }))

  pub handle_delete : BenchmarkRun → M World Returned
  unfolding list_owned_pods handle_listed
  handle_delete br = list_owned_pods br >>= handle_listed br

  -- The `switch` of `Reconcile`.
  pub transition : Phase → ℕ → BenchmarkRun → M World Returned
  unfolding to_pending to_allocating to_priming observe_priming observe_running to_complete
  transition unset now br = to_pending br
  transition pending now br = to_allocating br
  transition allocating now br = to_priming br
  transition priming now br = observe_priming now br
  transition running now br = observe_running br
  transition draining now br = to_complete now br
  transition terminal now br = finish no_requeue none
  transition unknown now br =
      return_error (ApiError.other (concat "unknown phase " (c.quote br.status.phase)))

  -- `Reconcile` from the fetched run on.
  pub reconcile_run : ℕ → BenchmarkRun → M World Returned
  unfolding handle_delete transition
  reconcile_run now br =
      if br.meta.deleting
      then handle_delete br
      else if not (c.contains_finalizer br.meta iron_book_finalizer)
      then finish_with no_requeue
          (c.update_run (record br { meta = c.add_finalizer br.meta iron_book_finalizer }))
      else transition (phase_of br.status.phase) now br

  abbrev returned : Flow Returned × World → Returned × World
  returned (go_on r, w) = (r, w)
  returned (return r, w) = (r, w)

  pub reconcile : NamespacedName → ℕ → World → Returned × World
  unfolding reconcile_run
  reconcile key now w = returned (
      (do
        br ← fetch (c.get_run key) λ e. finish no_requeue (ignore_not_found e)
        reconcile_run now br)
        w)
