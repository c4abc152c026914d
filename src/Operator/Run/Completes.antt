-- ===== src/Operator/Run/Completes.antt =====
-- A run from its making to its completion, on an API server that stores what it is sent.
pub mod Examples
use iron_book.Common.{
  ℕ, String, ◌≡◌, refl, sym, ap, ◌∙◌, subst, Bool, true, false, not, List, [], ◌∷◌, Option, none,
  some,
}
use iron_book.Operator.Types.{BenchmarkRun}
use iron_book.Operator.Client.{Client, NamespacedName}
use iron_book.Kube.{Pod}
use iron_book.Operator.Gate.{all_ready, coordinator_done}
use iron_book.Operator.Flow.{no_requeue, requeue_after, finish_with}
use iron_book.Operator.Flow.Passing.{
  go_on->>=, fetch-found, return_if-false, return->>=, return_if-true,
}
use iron_book.Operator.Run.{
  iron_book_finalizer, reconcile, reconcile_run, returned, transition, to_pending, to_allocating,
  to_priming, observe_priming, observe_running, to_complete, with_endpoints, list_owned_pods,
}
use iron_book.Operator.Run.Willing.{
  IsWilling, In, reconcile-In, reconcile_reads, advance, allocate-Passes,
}
use iron_book.Operator.Run.Polls.{Polls, through_priming, through_running}

module _ (c : Client) (key : NamespacedName) where
  -- Reconciliations one after another, at the given times.
  abbrev pub reconciles : List ℕ → c.World → c.World
  reconciles [] w = w
  reconciles (now ∷ times) w = reconciles times (reconcile c key now w).1

module _ (c : Client) (key : NamespacedName) (s : IsWilling c key) where
  from_unset :
      (now : ℕ) (w : c.World) {start end : Option ℕ}
      → In c key s "" start end w
      → In c key s "PENDING" start end (reconcile c key now w).1
  unfolding transition to_pending finish_with
  from_unset now w i = advance c key s now w w _ i refl refl i.started i.ended

  from_pending :
      (now : ℕ) (w : c.World) {start end : Option ℕ}
      → In c key s "PENDING" start end w
      → In c key s "ALLOCATING" start end (reconcile c key now w).1
  unfolding transition to_allocating finish_with
  from_pending now w i =
      advance c key s now w w _ i refl
        (go_on->>= _ _ w (fetch-found _ _ w (s.finds_submission _ w))
          ∙ go_on->>= _ _ w (return_if-false _ _ w (ap not s.submission_ready))
          ∙ go_on->>= _ _ w (fetch-found _ _ w (s.finds_scenario _ w))
          ∙ go_on->>= _ _ w (return_if-false _ _ w s.scenario_hashed)
          ∙ go_on->>= _ _ w (fetch-found _ _ w (s.finds_swarm _ w)))
        i.started i.ended

  from_allocating :
      (now : ℕ) (w : c.World) {start end : Option ℕ}
      → In c key s "ALLOCATING" start end w
      → In c key s "PRIMING" start end (reconcile c key now w).1
  unfolding transition to_priming finish_with
  from_allocating now w i =
      let p = allocate-Passes c key s (with_endpoints c (s.run w)) s.submission s.scenario w in
      advance c key s now w p.after _ i p.same
        (go_on->>= _ _ w (fetch-found _ _ w (s.finds_submission _ w))
          ∙ go_on->>= _ _ w (fetch-found _ _ w (s.finds_scenario _ w))
          ∙ go_on->>= _ _ w p.ran)
        i.started i.ended

  from_priming :
      (now : ℕ) (w : c.World) {start end : Option ℕ}
      → In c key s "PRIMING" start end w
      → all_ready (s.pods w) ≡ true
      → In c key s "RUNNING" (some now) end (reconcile c key now w).1
  unfolding transition observe_priming list_owned_pods finish_with
  from_priming now w i ready =
      advance c key s now w w _ i refl
        (go_on->>= _ _ w (fetch-found _ _ w (s.lists _ _ w))
          ∙ go_on->>= _ _ w (return_if-false _ _ w (ap not ready)))
        refl i.ended

  from_running :
      (now : ℕ) (w : c.World) {start end : Option ℕ}
      → In c key s "RUNNING" start end w
      → coordinator_done (s.pods w) ≡ true
      → In c key s "DRAINING" start end (reconcile c key now w).1
  unfolding transition observe_running list_owned_pods finish_with
  from_running now w i over =
      advance c key s now w w _ i refl
        (go_on->>= _ _ w (fetch-found _ _ w (s.lists _ _ w))
          ∙ go_on->>= _ _ w (return_if-false _ _ w (ap not over)))
        i.started i.ended

  from_draining :
      (now : ℕ) (w : c.World) {start end : Option ℕ}
      → In c key s "DRAINING" start end w
      → In c key s "COMPLETE" start (some now) (reconcile c key now w).1
  unfolding transition to_complete finish_with
  from_draining now w i = advance c key s now w w _ i refl refl i.started refl

  -- A run that was just made: no finalizer, no phase and no times.
  pub record IsFresh (w : c.World) : Type 0 where
    pub bare : c.contains_finalizer (s.run w).meta iron_book_finalizer ≡ false
    pub alive : (s.run w).meta.deleting ≡ false
    pub no_phase : (s.run w).status.phase ≡ ""
    pub not_started : (s.run w).status.started_at ≡ none
    pub not_ended : (s.run w).status.ended_at ≡ none

  -- The metadata that a run without the finalizer is given.
  abbrev with_finalizer : BenchmarkRun → BenchmarkRun
  with_finalizer br = record br { meta = c.add_finalizer br.meta iron_book_finalizer }

  bare_run :
      (now : ℕ) (w : c.World)
      → IsFresh w
      → reconcile_run c now (s.run w) w
        ≡ finish_with no_requeue (c.update_run (with_finalizer (s.run w))) w
  unfolding reconcile_run
  bare_run now w f = simp (f.alive, f.bare)

  add_first :
      (now : ℕ) (w : c.World)
      → IsFresh w
      → (reconcile c key now w).1 ≡ (c.update_run (with_finalizer (s.run w)) w).1
  unfolding reconcile_run finish_with
  add_first now w f =
      ap (λ x. x.1) (reconcile_reads c key s now w) ∙ ap (λ x. (returned c x).1) (bare_run now w f)

  from_fresh :
      (now : ℕ) (w : c.World) → IsFresh w → In c key s "" none none (reconcile c key now w).1
  from_fresh now w f =
      let stored = s.stores_run (with_finalizer (s.run w)) w in
      subst (In c key s "" none none) (sym (add_first now w f)) (record {
        kept = ap (λ x. c.contains_finalizer x.meta iron_book_finalizer) stored ∙ s.adds _;
        alive = ap (λ x. x.meta.deleting) stored ∙ s.keeps_deleting _ ∙ f.alive;
        phase_is = ap (λ x. x.status.phase) stored ∙ f.no_phase;
        started = ap (λ x. x.status.started_at) stored ∙ f.not_started;
        ended = ap (λ x. x.status.ended_at) stored ∙ f.not_ended;
      })

  -- A run that was just made, without the finalizer, a phase or times, and not being deleted, is in
  -- PRIMING after four reconciliations, waits there through any number of them until the pods are
  -- ready, then runs, waits again until the coordinator has succeeded, and is complete two
  -- reconciliations later. Its start is the time of the reconciliation that found the pods ready,
  -- and its end that of the last. It is so on an API server that stores the status and the
  -- metadata that it is sent, accepts pods and services, and finds what the run refers to ready.
  pub reconciles_complete :
      (w w' w'' : c.World) (t₁ t₂ t₃ t₄ t₅ t₆ t₇ : ℕ)
      → IsFresh w
      → Polls c key s all_ready (reconciles c key (t₁ ∷ t₂ ∷ t₃ ∷ t₄ ∷ []) w) w'
      → Polls c key s coordinator_done (reconcile c key t₅ w').1 w''
      → In c key s "COMPLETE" (some t₅) (some t₇) (reconciles c key (t₆ ∷ t₇ ∷ []) w'')
  reconciles_complete w w' w'' t₁ t₂ t₃ t₄ t₅ t₆ t₇ fresh until_ready until_over =
      let (primed, ready) =
        through_priming c key s until_ready
          (from_allocating t₄ _ (from_pending t₃ _ (from_unset t₂ _ (from_fresh t₁ w fresh)))) in
      let (ran, over) = through_running c key s until_over (from_priming t₅ w' primed ready) in
      from_draining t₇ _ (from_running t₆ w'' ran over)
