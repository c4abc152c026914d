-- ===== src/Operator/Run/Progress.antt =====
-- How often the status of a run is stored
-- (apps/benchmark-operator/internal/controller/benchmarkrun_controller.go).
use iron_book.Common.{
  ℕ, suc, String, ◌≡◌, ◌≤◌, ◌<◌, arith, inl, inr, subst, Bool, true, false, List, [], ◌∷◌, ◌++◌,
  All, All-within,
}
use iron_book.Operator.Types.{BenchmarkRun, BenchmarkRunStatus}
use iron_book.Operator.Client.{Client, found, NamespacedName}
use iron_book.Operator.Recorded.{Write, put_run_status, recorded}
use iron_book.Operator.Phases.{
  Phase, unset, pending, allocating, priming, running, draining, terminal, unknown, phase_of,
}
use iron_book.Operator.Run.{reconcile}
use iron_book.Operator.Run.Frame.{Allowed, Edge}
use iron_book.Operator.Run.Writes.{Written, reconcile-Allowed}

-- How many transitions a run in a phase may still make.
abbrev pub rank : Phase → ℕ
rank unset = 6
rank pending = 5
rank allocating = 4
rank priming = 3
rank running = 2
rank draining = 1
rank terminal = 0
rank unknown = 0

Edge-rank :
    (now : ℕ) (br : BenchmarkRun) (p : Phase) (t : BenchmarkRunStatus)
    → Edge now br p t
    → rank (phase_of t.phase) < rank p
Edge-rank now br unset t (e, _, _) = rw e (omega arith)
Edge-rank now br pending t (inl e, _, _) = rw e (omega arith)
Edge-rank now br pending t (inr e, _, _) = rw e (omega arith)
Edge-rank now br allocating t (e, _, _, _, _) = rw e (omega arith)
Edge-rank now br priming t (e, _, _, _) = rw e (omega arith)
Edge-rank now br running t (e, _, _) = rw e (omega arith)
Edge-rank now br draining t (e, _, _, _) = rw e (omega arith)
Edge-rank now br terminal t e = absurd e
Edge-rank now br unknown t e = absurd e

module _ (c : Client) (key : NamespacedName) where
  -- A status that one reconciliation sends, at any time and in any state of the API server, and the
  -- run that it read, which may be an old one.
  pub record Attempt : Type 0 where
    pub now : ℕ
    pub world : c.World
    pub read : BenchmarkRun
    pub status_sent : BenchmarkRun
    pub before : List Write
    pub after : List Write
    pub reads : c.get_run key world ≡ found read
    pub sends :
        (reconcile (recorded c) key now (world, [])).1.1
        ≡ before ++ put_run_status status_sent ∷ after

  -- Attempts, oldest first, with whether the API server stored the status; it refuses one that was
  -- made from another version of the run than it has. The run starts in the phase, and only these
  -- change it.
  abbrev pub Versioned : String → List (Attempt × Bool) → Type 0
  Versioned phase [] = Unit
  Versioned phase ((a, true) ∷ h) =
      (a.read.status.phase ≡ phase) × Versioned a.status_sent.status.phase h
  Versioned phase ((a, false) ∷ h) = Versioned phase h

  -- How many were stored.
  abbrev pub stored : List (Attempt × Bool) → ℕ
  stored [] = 0
  stored ((a, true) ∷ h) = suc (stored h)
  stored ((a, false) ∷ h) = stored h

  Attempt-rank :
      (a : Attempt)
      → rank (phase_of a.status_sent.status.phase) < rank (phase_of a.read.status.phase)
  Attempt-rank a =
      let log = (reconcile (recorded c) key a.now (a.world, [])).1.1 in
      let written =
        subst (λ x. Written c a.now a.world x log) a.reads
          (reconcile-Allowed c a.now key a.world) in
      let allowed : Allowed c a.now a.read a.world (put_run_status a.status_sent) =
        All-within (Allowed c a.now a.read a.world) a.before a.after
          (subst (All (Allowed c a.now a.read a.world)) a.sends written) in
      Edge-rank a.now a.read (phase_of a.read.status.phase) a.status_sent.status allowed.3

  stored-rank :
      (phase : String) (h : List (Attempt × Bool))
      → Versioned phase h
      → stored h ≤ rank (phase_of phase)
  stored-rank phase [] v = omega arith
  stored-rank phase ((a, true) ∷ h) v =
      let less =
        subst (λ p. rank (phase_of a.status_sent.status.phase) < rank (phase_of p)) v.0
          (Attempt-rank a) in
      let most = stored-rank a.status_sent.status.phase h v.1 in omega arith
  stored-rank phase ((a, false) ∷ h) v = stored-rank phase h v

  rank_small : (p : Phase) → rank p ≤ 6
  rank_small p = ground arith

  -- Of the statuses that any reconciliations send for a run, the API server stores at most six, and
  -- at most as many as the rank of its phase says: none once the phase is terminal or unknown. The
  -- API server stores a status only where the reconciliation has read the run in the version that it
  -- has, and only these change the phase; how often it refuses, and how old the runs are that are
  -- read, is open.
  pub stored-bound :
      (phase : String) (h : List (Attempt × Bool))
      → Versioned phase h
      → (stored h ≤ 6) × (stored h ≤ rank (phase_of phase))
  stored-bound phase h v =
      let least = stored-rank phase h v in
      let small = rank_small (phase_of phase) in (omega arith, least)
