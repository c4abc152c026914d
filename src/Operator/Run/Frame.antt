-- ===== src/Operator/Run/Frame.antt =====
-- What one reconciliation of a run may write.
use iron_book.Common.{ℕ, String, ◌≡◌, ◌⊎◌, inl, inr, refl, true, false, [], some}
use iron_book.Kube.{Pod}
use iron_book.Operator.Types.{BenchmarkRun, BenchmarkRunStatus, Submission, Scenario, BotSwarm}
use iron_book.Operator.Client.{Client, found}
use iron_book.Operator.Flow.{M, Returned, no_requeue, requeue}
use iron_book.Operator.Pods.{Role, role_oracle, role_submission, role_gateway, endpoint}
use iron_book.Operator.Recorded.{
  Write, put_run, put_run_status, put_submission_status, put_scenario_status, made_pod, removed_pod,
  made_service, recorded, Logs, bind-Logs, finish-Logs, return_if-Logs, try-Logs, fetch-Logs,
  finish_with-Logs, and_check-Logs,
}
use iron_book.Operator.Phases.{
  Phase, unset, pending, allocating, priming, running, draining, terminal, unknown, phase_of,
}
use iron_book.Operator.Run.{
  iron_book_finalizer, to_pending, to_allocating, to_invalid, to_priming, ensure_pod,
  ensure_service, allocate, observe_priming, observe_running, to_complete, transition,
}

-- The fields of the status that a transition may leave alone.
pub record SameTimes (s t : BenchmarkRunStatus) : Type 0 where
  pub started : t.started_at ≡ s.started_at
  pub ended : t.ended_at ≡ s.ended_at

pub record SameEndpoints (s t : BenchmarkRunStatus) : Type 0 where
  pub submission : t.submission_endpoint ≡ s.submission_endpoint
  pub oracle : t.oracle_endpoint ≡ s.oracle_endpoint
  pub gateway : t.gateway_endpoint ≡ s.gateway_endpoint

-- The transitions of the state machine: the phase that follows each phase, and what is stamped.
abbrev pub Edge : ℕ → BenchmarkRun → Phase → BenchmarkRunStatus → Type 0
Edge now br unset t = (t.phase ≡ "PENDING") × SameTimes br.status t × SameEndpoints br.status t
Edge now br pending t =
    ((t.phase ≡ "ALLOCATING") ⊎ (t.phase ≡ "INVALID"))
    × SameTimes br.status t
    × SameEndpoints br.status t
Edge now br allocating t =
    (t.phase ≡ "PRIMING")
    × SameTimes br.status t
    × (t.oracle_endpoint ≡ endpoint role_oracle br "7080")
    × (t.submission_endpoint ≡ endpoint role_submission br "7777")
    × (t.gateway_endpoint ≡ endpoint role_gateway br "8080")
Edge now br priming t =
    (t.phase ≡ "RUNNING")
    × (t.started_at ≡ some now)
    × (t.ended_at ≡ br.status.ended_at)
    × SameEndpoints br.status t
Edge now br running t = (t.phase ≡ "DRAINING") × SameTimes br.status t × SameEndpoints br.status t
Edge now br draining t =
    (t.phase ≡ "COMPLETE")
    × (t.started_at ≡ br.status.started_at)
    × (t.ended_at ≡ some now)
    × SameEndpoints br.status t
Edge now br terminal t = ⊥
Edge now br unknown t = ⊥

module _ (c : Client) (now : ℕ) (br : BenchmarkRun) (w₀ : c.World) where
  -- What may be written: the status along an edge; the metadata to add the finalizer, or, for a
  -- run that is being deleted and has no pods left, to remove it; pods and services only while
  -- allocating; deletions of pods only while the run is being deleted.
  abbrev pub Allowed : Write → Type 0
  Allowed (put_run_status r) =
      (br.meta.deleting ≡ false)
      × (r.meta ≡ br.meta)
      × (r.spec ≡ br.spec)
      × Edge now br (phase_of br.status.phase) r.status
  Allowed (put_run r) =
      (r.spec ≡ br.spec)
      × (r.status ≡ br.status)
      × (((br.meta.deleting ≡ false)
            × (c.contains_finalizer br.meta iron_book_finalizer ≡ false)
            × (r.meta ≡ c.add_finalizer br.meta iron_book_finalizer))
          ⊎ ((br.meta.deleting ≡ true)
              × (c.list_pods br.meta.namespace br.meta.name w₀ ≡ found [])
              × (r.meta ≡ c.remove_finalizer br.meta iron_book_finalizer)))
  Allowed (made_pod p) = (br.meta.deleting ≡ false) × (phase_of br.status.phase ≡ allocating)
  Allowed (made_service s) = (br.meta.deleting ≡ false) × (phase_of br.status.phase ≡ allocating)
  Allowed (removed_pod p) = (br.meta.deleting ≡ true) × (p.meta.deleting ≡ false)
  Allowed (put_submission_status s) = ⊥
  Allowed (put_scenario_status s) = ⊥

  abbrev Ok : {A : Type 0} → M (recorded c).World A → Type 0
  Ok = Logs c Allowed

  status-Ok :
      {p : Phase} (d : br.meta.deleting ≡ false) (e : phase_of br.status.phase ≡ p)
      (r : BenchmarkRun)
      → r.meta ≡ br.meta
      → r.spec ≡ br.spec
      → Edge now br p r.status
      → Allowed (put_run_status r)
  status-Ok d e r m s x = (d, m, s, rw e x)

  to_pending-Ok :
      br.meta.deleting ≡ false → phase_of br.status.phase ≡ unset → Ok (to_pending (recorded c) br)
  unfolding to_pending
  to_pending-Ok d e =
      finish_with-Logs c Allowed put_run_status c.update_run_status _
        (status-Ok d e _ refl refl (
          refl,
          record { started = refl; ended = refl },
          record { submission = refl; oracle = refl; gateway = refl },
        ))
        Returned requeue

  to_invalid-Ok :
      (A : Type 0) (reason : String)
      → br.meta.deleting ≡ false
      → phase_of br.status.phase ≡ pending
      → Ok (to_invalid (recorded c) {A = A} br reason)
  unfolding to_invalid
  to_invalid-Ok A reason d e =
      finish_with-Logs c Allowed put_run_status c.update_run_status _
        (status-Ok d e _ refl refl (
          inr refl,
          record { started = refl; ended = refl },
          record { submission = refl; oracle = refl; gateway = refl },
        ))
        A no_requeue

  to_allocating-Ok :
      br.meta.deleting ≡ false
      → phase_of br.status.phase ≡ pending
      → Ok (to_allocating (recorded c) br)
  unfolding to_allocating
  to_allocating-Ok d e =
      bind-Logs c Allowed (fetch-Logs c Allowed _ _ (λ x. to_invalid-Ok Submission _ d e)) λ sub.
        bind-Logs c Allowed (return_if-Logs c Allowed _ _) λ _.
          bind-Logs c Allowed (fetch-Logs c Allowed _ _ (λ x. to_invalid-Ok Scenario _ d e)) λ scn.
            bind-Logs c Allowed (return_if-Logs c Allowed _ _) λ _.
              bind-Logs c Allowed (fetch-Logs c Allowed _ _ (λ x. to_invalid-Ok BotSwarm _ d e))
                λ _.
                  finish_with-Logs c Allowed put_run_status c.update_run_status _
                    (status-Ok d e _ refl refl (
                      inl refl,
                      record { started = refl; ended = refl },
                      record { submission = refl; oracle = refl; gateway = refl },
                    ))
                    Returned requeue

  module _ (d : br.meta.deleting ≡ false) (e : phase_of br.status.phase ≡ allocating) where
    ensure_pod-Ok : (r : BenchmarkRun) (p : Pod) → Ok (ensure_pod (recorded c) r p)
    unfolding ensure_pod
    ensure_pod-Ok r p =
        bind-Logs c Allowed (try-Logs c Allowed _)
          λ meta. and_check-Logs c Allowed made_pod c.create_pod _ (d, e) _

    ensure_service-Ok :
        (r : BenchmarkRun) (role : Role) (port : ℕ) → Ok (ensure_service (recorded c) r role port)
    unfolding ensure_service
    ensure_service-Ok r role port =
        bind-Logs c Allowed (try-Logs c Allowed _)
          λ meta. and_check-Logs c Allowed made_service c.create_service _ (d, e) _

    allocate-Ok :
        (r : BenchmarkRun) (sub : Submission) (scn : Scenario)
        → Ok (allocate (recorded c) r sub scn)
    unfolding allocate
    allocate-Ok r sub scn = bind-Logs c Allowed (ensure_pod-Ok r _) λ _.
        bind-Logs c Allowed (ensure_pod-Ok r _) λ _. bind-Logs c Allowed (ensure_pod-Ok r _) λ _.
          bind-Logs c Allowed (ensure_pod-Ok r _) λ _.
            bind-Logs c Allowed (ensure_service-Ok r _ _)
              λ _. bind-Logs c Allowed (ensure_service-Ok r _ _) λ _. ensure_service-Ok r _ _

    to_priming-Ok : Ok (to_priming (recorded c) br)
    unfolding to_priming
    to_priming-Ok =
        bind-Logs c Allowed (fetch-Logs c Allowed _ _ (λ x. finish-Logs c Allowed _ _ _)) λ sub.
          bind-Logs c Allowed (fetch-Logs c Allowed _ _ (λ x. finish-Logs c Allowed _ _ _)) λ scn.
            bind-Logs c Allowed (allocate-Ok _ sub scn) λ _.
              finish_with-Logs c Allowed put_run_status c.update_run_status _
                (status-Ok d e _ refl refl
                  (refl, record { started = refl; ended = refl }, refl, refl, refl))
                Returned requeue

  observe_priming-Ok :
      br.meta.deleting ≡ false
      → phase_of br.status.phase ≡ priming
      → Ok (observe_priming (recorded c) now br)
  unfolding observe_priming
  observe_priming-Ok d e =
      bind-Logs c Allowed (fetch-Logs c Allowed _ _ (λ x. finish-Logs c Allowed _ _ _)) λ pods.
        bind-Logs c Allowed (return_if-Logs c Allowed _ _) λ _.
          finish_with-Logs c Allowed put_run_status c.update_run_status _
            (status-Ok d e _ refl refl
              (refl, refl, refl, record { submission = refl; oracle = refl; gateway = refl }))
            Returned requeue

  observe_running-Ok :
      br.meta.deleting ≡ false
      → phase_of br.status.phase ≡ running
      → Ok (observe_running (recorded c) br)
  unfolding observe_running
  observe_running-Ok d e =
      bind-Logs c Allowed (fetch-Logs c Allowed _ _ (λ x. finish-Logs c Allowed _ _ _)) λ pods.
        bind-Logs c Allowed (return_if-Logs c Allowed _ _) λ _.
          finish_with-Logs c Allowed put_run_status c.update_run_status _
            (status-Ok d e _ refl refl (
              refl,
              record { started = refl; ended = refl },
              record { submission = refl; oracle = refl; gateway = refl },
            ))
            Returned requeue

  to_complete-Ok :
      br.meta.deleting ≡ false
      → phase_of br.status.phase ≡ draining
      → Ok (to_complete (recorded c) now br)
  unfolding to_complete
  to_complete-Ok d e =
      finish_with-Logs c Allowed put_run_status c.update_run_status _
        (status-Ok d e _ refl refl
          (refl, refl, refl, record { submission = refl; oracle = refl; gateway = refl }))
        Returned no_requeue

  pub transition-Ok :
      (p : Phase)
      → br.meta.deleting ≡ false
      → phase_of br.status.phase ≡ p
      → Ok (transition (recorded c) p now br)
  unfolding transition
  transition-Ok unset d e = to_pending-Ok d e
  transition-Ok pending d e = to_allocating-Ok d e
  transition-Ok allocating d e = to_priming-Ok d e
  transition-Ok priming d e = observe_priming-Ok d e
  transition-Ok running d e = observe_running-Ok d e
  transition-Ok draining d e = to_complete-Ok d e
  transition-Ok terminal d e = finish-Logs c Allowed _ _ _
  transition-Ok unknown d e = finish-Logs c Allowed _ _ _
