-- ===== src/Operator/Run/Polls.antt =====
-- A run that waits for its pods (apps/benchmark-operator/internal/controller/benchmarkrun_controller.go):
-- `observePriming` and `observeRunning` are called again until they find what they wait for.
use iron_book.Common.{
  ℕ, String, ◌≡◌, sym, ap, ◌∙◌, subst, Bool, true, false, not, List, Option, none,
}
use iron_book.Operator.Client.{Client, NamespacedName}
use iron_book.Kube.{Pod}
use iron_book.Operator.Gate.{all_ready, coordinator_done}
use iron_book.Operator.Flow.{requeue_after}
use iron_book.Operator.Flow.Passing.{go_on->>=, fetch-found, return->>=, return_if-true}
use iron_book.Operator.Run.{
  iron_book_finalizer, reconcile, returned, transition, observe_priming, observe_running,
  list_owned_pods,
}
use iron_book.Operator.Run.Willing.{IsWilling, In, reconcile-In}

module _ (c : Client) (key : NamespacedName) (s : IsWilling c key) where
  -- A poll that finds the pods not ready yet writes nothing, and asks for another in two seconds.
  poll_priming :
      (now : ℕ) (w : c.World) {start end : Option ℕ}
      → In c key s "PRIMING" start end w
      → all_ready (s.pods w) ≡ false
      → reconcile c key now w ≡ (record { result = requeue_after 2; error = none }, w)
  unfolding transition observe_priming list_owned_pods
  poll_priming now w i early =
      reconcile-In c key s now w i
      ∙ ap (returned c) (
          go_on->>= _ _ w (fetch-found _ _ w (s.lists _ _ w))
          ∙ return->>= _ _ w (return_if-true _ _ w (ap not early)))

  -- The same in five seconds, where the coordinator has not finished.
  poll_running :
      (now : ℕ) (w : c.World) {start end : Option ℕ}
      → In c key s "RUNNING" start end w
      → coordinator_done (s.pods w) ≡ false
      → reconcile c key now w ≡ (record { result = requeue_after 5; error = none }, w)
  unfolding transition observe_running list_owned_pods
  poll_running now w i early =
      reconcile-In c key s now w i
      ∙ ap (returned c) (
          go_on->>= _ _ w (fetch-found _ _ w (s.lists _ _ w))
          ∙ return->>= _ _ w (return_if-true _ _ w (ap not early)))

  -- What happens on the server between two reconciliations leaves the run alone.
  pub record Meanwhile (w w' : c.World) : Type 0 where
    pub same : s.run w' ≡ s.run w

  Meanwhile-In :
      {w w' : c.World} {phase : String} {start end : Option ℕ}
      → Meanwhile w w'
      → In c key s phase start end w
      → In c key s phase start end w'
  Meanwhile-In m i = record {
    kept = ap (λ x. c.contains_finalizer x.meta iron_book_finalizer) m.same ∙ i.kept;
    alive = ap (λ x. x.meta.deleting) m.same ∙ i.alive;
    phase_is = ap (λ x. x.status.phase) m.same ∙ i.phase_is;
    started = ap (λ x. x.status.started_at) m.same ∙ i.started;
    ended = ap (λ x. x.status.ended_at) m.same ∙ i.ended;
  }

  -- Any number of reconciliations that come before the pods pass a test, and then a moment when
  -- they pass it.
  pub data Polls (test : List Pod → Bool) : c.World → c.World → Type 0 where
    pass_now : {w w' : c.World} → Meanwhile w w' → test (s.pods w') ≡ true → Polls test w w'
    poll :
        {w w' w'' : c.World} (now : ℕ)
        → Meanwhile w w'
        → test (s.pods w') ≡ false
        → Polls test (reconcile c key now w').1 w''
        → Polls test w w''

  pub through_priming :
      {w w' : c.World} {start end : Option ℕ}
      → Polls all_ready w w'
      → In c key s "PRIMING" start end w
      → In c key s "PRIMING" start end w' × (all_ready (s.pods w') ≡ true)
  through_priming (pass_now m ready) i = (Meanwhile-In m i, ready)
  through_priming (poll {w'} now m early rest) i = through_priming rest (
      subst (In c key s "PRIMING" _ _)
        (sym (ap (λ x. x.1) (poll_priming now w' (Meanwhile-In m i) early))) (Meanwhile-In m i))

  pub through_running :
      {w w' : c.World} {start end : Option ℕ}
      → Polls coordinator_done w w'
      → In c key s "RUNNING" start end w
      → In c key s "RUNNING" start end w' × (coordinator_done (s.pods w') ≡ true)
  through_running (pass_now m over) i = (Meanwhile-In m i, over)
  through_running (poll {w'} now m early rest) i = through_running rest (
      subst (In c key s "RUNNING" _ _)
        (sym (ap (λ x. x.1) (poll_running now w' (Meanwhile-In m i) early))) (Meanwhile-In m i))
