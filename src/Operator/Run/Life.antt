-- ===== src/Operator/Run/Life.antt =====
-- The life of a run: what its status holds in each phase (benchmarkrun_controller.go).
use iron_book.Common.{
  ℕ, String, ◌≡◌, ◌⊎◌, inl, inr, List, [], ◌∷◌, none, some, All, subst, sym, ◌∙◌,
}
use iron_book.Operator.Types.{BenchmarkRun, BenchmarkRunStatus}
use iron_book.Operator.Client.{Client, found, NamespacedName}
use iron_book.Operator.Recorded.{
  Write, put_run, put_run_status, put_submission_status, put_scenario_status, made_pod, removed_pod,
  made_service, recorded,
}
use iron_book.Operator.Phases.{
  Phase, unset, pending, allocating, priming, running, draining, terminal, unknown, phase_of,
}
use iron_book.Operator.Run.{reconcile}
use iron_book.Operator.Run.Frame.{Allowed, Edge, SameTimes}
use iron_book.Operator.Run.Writes.{Written, reconcile-Allowed}

pub record IsUnstarted (s : BenchmarkRunStatus) : Type 0 where
  pub not_started : s.started_at ≡ none
  pub not_ended : s.ended_at ≡ none

pub record IsUnderWay (s : BenchmarkRunStatus) : Type 0 where
  pub start : ℕ
  pub started : s.started_at ≡ some start
  pub not_ended : s.ended_at ≡ none

pub record IsOver (s : BenchmarkRunStatus) : Type 0 where
  pub start : ℕ
  pub end : ℕ
  pub started : s.started_at ≡ some start
  pub ended : s.ended_at ≡ some end

-- The times that a status of each phase carries. Of the terminal phases only two occur.
abbrev pub TimedIn : Phase → BenchmarkRunStatus → Type 0
TimedIn unset s = IsUnstarted s
TimedIn pending s = IsUnstarted s
TimedIn allocating s = IsUnstarted s
TimedIn priming s = IsUnstarted s
TimedIn running s = IsUnderWay s
TimedIn draining s = IsUnderWay s
TimedIn terminal s = ((s.phase ≡ "INVALID") × IsUnstarted s) ⊎ ((s.phase ≡ "COMPLETE") × IsOver s)
TimedIn unknown s = ⊥

abbrev pub IsTimed : BenchmarkRunStatus → Type 0
IsTimed s = TimedIn (phase_of s.phase) s

still-Unstarted : (s t : BenchmarkRunStatus) → SameTimes s t → IsUnstarted s → IsUnstarted t
still-Unstarted s t same u = record {
  not_started = same.started ∙ u.not_started;
  not_ended = same.ended ∙ u.not_ended;
}

in_phase :
    (t : BenchmarkRunStatus) (name : String)
    → t.phase ≡ name
    → TimedIn (phase_of name) t
    → IsTimed t
in_phase t name e h = subst (λ p. TimedIn (phase_of p) t) (sym e) h

-- Every edge of the state machine keeps the times of the phase it reaches.
Edge-IsTimed :
    (now : ℕ) (br : BenchmarkRun) (p : Phase) (t : BenchmarkRunStatus)
    → TimedIn p br.status
    → Edge now br p t
    → IsTimed t
Edge-IsTimed now br unset t h (e, same, ends) =
    in_phase t "PENDING" e (still-Unstarted br.status t same h)
Edge-IsTimed now br pending t h (inl e, same, ends) =
    in_phase t "ALLOCATING" e (still-Unstarted br.status t same h)
Edge-IsTimed now br pending t h (inr e, same, ends) =
    in_phase t "INVALID" e (inl (e, still-Unstarted br.status t same h))
Edge-IsTimed now br allocating t h (e, same, oracle, submission, gateway) =
    in_phase t "PRIMING" e (still-Unstarted br.status t same h)
Edge-IsTimed now br priming t h (e, start, ended, ends) =
    in_phase t "RUNNING" e
      (record { start = now; started = start; not_ended = ended ∙ h.not_ended })
Edge-IsTimed now br running t h (e, same, ends) = in_phase t "DRAINING" e (record {
  start = h.start;
  started = same.started ∙ h.started;
  not_ended = same.ended ∙ h.not_ended;
})
Edge-IsTimed now br draining t h (e, start, ended, ends) =
    in_phase t "COMPLETE" e
      (inr (e, record { start = h.start; end = now; started = start ∙ h.started; ended = ended }))
Edge-IsTimed now br terminal t h e = absurd e
Edge-IsTimed now br unknown t h e = absurd e

-- A write that stores a run stores one whose times fit its phase.
abbrev pub WellTimed : Write → Type 0
WellTimed (put_run r) = IsTimed r.status
WellTimed (put_run_status r) = IsTimed r.status
WellTimed _ = Unit

Allowed-WellTimed :
    (c : Client) (now : ℕ) (br : BenchmarkRun) (w : c.World) (x : Write)
    → IsTimed br.status
    → Allowed c now br w x
    → WellTimed x
Allowed-WellTimed c now br w (put_run r) h (spec, status, finalizer) = subst IsTimed (sym status) h
Allowed-WellTimed c now br w (put_run_status r) h (deleting, meta, spec, edge) =
    Edge-IsTimed now br (phase_of br.status.phase) r.status h edge
Allowed-WellTimed c now br w (put_submission_status s) h a = tt
Allowed-WellTimed c now br w (put_scenario_status s) h a = tt
Allowed-WellTimed c now br w (made_pod p) h a = tt
Allowed-WellTimed c now br w (removed_pod p) h a = tt
Allowed-WellTimed c now br w (made_service s) h a = tt

All-WellTimed :
    (c : Client) (now : ℕ) (br : BenchmarkRun) (w : c.World) (log : List Write)
    → IsTimed br.status
    → All (Allowed c now br w) log
    → All WellTimed log
All-WellTimed c now br w [] h a = tt
All-WellTimed c now br w (x ∷ log) h a =
    (Allowed-WellTimed c now br w x h a.0, All-WellTimed c now br w log h a.1)

-- Where the run that is read has the times of its phase, every run that the reconciliation stores
-- has the times of its own phase: no times before RUNNING, a start and no end in RUNNING and
-- DRAINING, both in COMPLETE, none in INVALID. No other phase is stored, so ABORTED,
-- INSUFFICIENT_CAPACITY and GATEWAY_REJECT never occur.
pub reconcile-IsTimed :
    (c : Client) (now : ℕ) (key : NamespacedName) (w : c.World) (br : BenchmarkRun)
    → c.get_run key w ≡ found br
    → IsTimed br.status
    → All WellTimed (reconcile (recorded c) key now (w, [])).1.1
reconcile-IsTimed c now key w br h timed = All-WellTimed c now br w _ timed (
    subst (λ x. Written c now w x (reconcile (recorded c) key now (w, [])).1.1) h
      (reconcile-Allowed c now key w))
