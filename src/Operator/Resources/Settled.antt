-- ===== src/Operator/Resources/Settled.antt =====
-- What the reconcilers of submissions and scenarios write (submission_controller.go,
-- scenario_controller.go).
use iron_book.Common.{
  ℕ, String, ◌≡◌, refl, sym, ap, subst, Bool, true, false, not, List, [], All, Option, str_eq,
  eq_iff,
}
use iron_book.Operator.Types.{Submission, Scenario}
use iron_book.Operator.Client.{
  Client, ApiError, Got, found, failed, NamespacedName, ignore_not_found,
}
use iron_book.Operator.Flow.{M, Returned, no_requeue, ◌>>=◌, finish, fetch, return_if, finish_with}
use iron_book.Operator.Flow.Passing.{
  go_on->>=, fetch-found, return_if-false, return_if-true, return->>=, fetch-failed,
}
use iron_book.Operator.Recorded.{
  Write, log_write, put_submission_status, put_scenario_status, recorded,
}
use iron_book.Operator.Run.{condition}
use iron_book.Operator.Resources.{submission_reconcile, scenario_reconcile, content_hash}

-- A submission as it was read, but for a phase that is PENDING and one condition.
abbrev pub Pends : Client → Got Submission → Write → Type 0
Pends c (found sub) (put_submission_status s) =
    (sub.status.phase ≡ "")
    × (s.meta ≡ sub.meta)
    × (s.spec ≡ sub.spec)
    × (s.status.phase ≡ "PENDING")
    × (s.status.image_digest ≡ sub.status.image_digest)
    × (s.status.reject_reason ≡ sub.status.reject_reason)
    × (s.status.conditions
        ≡ c.set_status_condition
            (condition "Initialized" true "Created" "Submission accepted; awaiting build")
            sub.status.conditions)
Pends c _ _ = ⊥

-- A scenario as it was read, but for the content hash.
abbrev pub Hashes : (List ℕ → List ℕ) → Got Scenario → Write → Type 0
Hashes sha256 (found scn) (put_scenario_status s) =
    (scn.status.content_hash ≡ "")
    × (s.meta ≡ scn.meta)
    × (s.spec ≡ scn.spec)
    × (s.status.content_hash ≡ content_hash sha256 scn.spec)
    × (s.status.conditions ≡ scn.status.conditions)
Hashes sha256 _ _ = ⊥

-- A handler that reads, returns where a text is not empty, and writes once.
module _ (c : Client) {A V : Type 0} (get : c.World → Got A) (text : A → String) (sort : V → Write)
    (write : V → c.World → Option ApiError × c.World) (value : A → V) where
  abbrev gone : ApiError → M (recorded c).World A
  gone e = finish no_requeue (ignore_not_found e)

  abbrev write_once : A → M (recorded c).World Returned
  write_once a = finish_with no_requeue (log_write c sort write (value a))

  abbrev when_empty : A → M (recorded c).World Returned
  when_empty a = return_if (not (str_eq (text a) "")) no_requeue >>= λ _. write_once a

  abbrev handler : M (recorded c).World Returned
  handler = fetch (λ x. get x.0) gone >>= when_empty

  module _ (P : Got A → Write → Type 0) (h : (a : A) → text a ≡ "" → P (found a) (sort (value a)))
      (w : c.World) where
    when_empty-writes :
        (a : A) (b : Bool) → str_eq (text a) "" ≡ b → All (P (found a)) (when_empty a (w, [])).1.1
    unfolding finish_with
    when_empty-writes a true e =
        subst (λ y. All (P (found a)) y.1.1)
          (sym (go_on->>= _ (λ _. write_once a) (w, []) (return_if-false _ _ _ (ap not e))))
          (h a ((eq_iff (text a) "").0 e), tt)
    when_empty-writes a false e =
        subst (λ y. All (P (found a)) y.1.1)
          (sym (return->>= _ (λ _. write_once a) (w, []) (return_if-true _ _ _ (ap not e)))) tt

    handler-got : (x : Got A) → get w ≡ x → All (P x) (handler (w, [])).1.1
    unfolding finish
    handler-got (found a) e =
        subst (λ y. All (P (found a)) y.1.1)
          (sym (go_on->>= _ when_empty (w, []) (fetch-found _ gone (w, []) e)))
          (when_empty-writes a _ refl)
    handler-got (failed m) e =
        subst (λ y. All (P (failed m)) y.1.1)
          (sym (return->>= _ when_empty (w, []) (fetch-failed _ gone (w, []) e))) tt

module _ (c : Client) (sha256 : List ℕ → List ℕ) (key : NamespacedName) (w : c.World) where
  -- A reconciliation of a submission writes only where the submission has no phase, and then gives
  -- it the phase PENDING and sets the condition Initialized among its conditions, and leaves its
  -- metadata, its specification, its image and its reason as they are. A reconciliation of a
  -- scenario writes only where it has no content hash, and then stores the hash of its
  -- specification and leaves its metadata, its specification and its conditions. So no submission
  -- becomes READY by them.
  pub reconcile-Settled :
      All (Pends c (c.get_submission key w)) (submission_reconcile (recorded c) key (w, [])).1.1
      × All
          (Hashes sha256 (c.get_scenario key w))
          (scenario_reconcile (recorded c) sha256 key (w, [])).1.1
  unfolding submission_reconcile scenario_reconcile
  reconcile-Settled = (
    handler-got c (c.get_submission key) (λ s. s.status.phase) put_submission_status
        c.update_submission_status _ (Pends c) (λ sub e. (e, refl, refl, refl, refl, refl, refl)) w
        _ refl,
    handler-got c (c.get_scenario key) (λ s. s.status.content_hash) put_scenario_status
        c.update_scenario_status _ (Hashes sha256) (λ scn e. (e, refl, refl, refl, refl)) w _ refl,
  )
