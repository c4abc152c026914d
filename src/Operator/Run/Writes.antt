-- ===== src/Operator/Run/Writes.antt =====
-- What `Reconcile` writes, on every path: the frame of one reconciliation.
use iron_book.Common.{
  subst, sym, ℕ, ◌≡◌, inl, inr, refl, Bool, true, false, List, [], ◌∷◌, All, not, if◌then◌else◌,
}
use iron_book.Kube.{Pod}
use iron_book.Operator.Types.{BenchmarkRun}
use iron_book.Operator.Client.{Client, Got, found, failed, NamespacedName, ignore_not_found}
use iron_book.Operator.Flow.{
  M, Flow, Returned, go_on, return, no_requeue, ◌>>=◌, finish, finish_with, and_check, ◌>>◌, fetch,
}
use iron_book.Operator.Recorded.{
  Write, put_run, removed_pod, recorded, Logs, fetch->>=-kept, return_if-true-Logs, bind-Logs,
  return_if-Logs, pass-Logs, finish_with-Logs, and_check-Logs,
}
use iron_book.Operator.Phases.{phase_of}
use iron_book.Operator.Run.{
  iron_book_finalizer, ignore_gone, delete_pods, list_owned_pods, handle_listed, handle_delete,
  transition, reconcile_run, reconcile, returned,
}
use iron_book.Operator.Run.Frame.{Allowed, transition-Ok}

module _ (c : Client) (now : ℕ) (br : BenchmarkRun) where
  module _ (w : c.World) (d : br.meta.deleting ≡ true) where
    -- One turn of the loop, for a pod that is being deleted or not.
    delete_one-Ok :
        (gone : Bool) (p : Pod)
        → p.meta.deleting ≡ gone
        → {rest : M (recorded c).World (Unit {0})} → Logs c (Allowed c now br w) rest
        → Logs c
            (Allowed c now br w)
            (if gone then rest else (and_check ((recorded c).delete_pod p) (ignore_gone c) >> rest))
    delete_one-Ok true p e r = r
    delete_one-Ok false p e r =
        bind-Logs c _ (and_check-Logs c _ removed_pod c.delete_pod p (d, e) _) (λ _. r)

    delete_pods-Ok : (pods : List Pod) → Logs c (Allowed c now br w) (delete_pods (recorded c) pods)
    unfolding delete_pods
    delete_pods-Ok [] = pass-Logs c _
    delete_pods-Ok (p ∷ pods) = delete_one-Ok _ p refl (delete_pods-Ok pods)

  -- The rest of `handleDelete`, for the pods that were listed.
  handle_listed-Ok :
      (w : c.World)
      → br.meta.deleting ≡ true
      → (pods : List Pod) → c.list_pods br.meta.namespace br.meta.name w ≡ found pods
      → Logs c (Allowed c now br w) (handle_listed (recorded c) br pods)
  unfolding handle_listed
  handle_listed-Ok w d [] h = bind-Logs c _ (delete_pods-Ok w d []) λ _.
      bind-Logs c _ (return_if-Logs c _ false _) λ _.
        finish_with-Logs c _ put_run c.update_run _ (refl, refl, inr (d, h, refl)) Returned
          no_requeue
  handle_listed-Ok w d (p ∷ pods) h =
      bind-Logs c _ (delete_pods-Ok w d (p ∷ pods)) λ _. return_if-true-Logs c _ _ _

  handle_delete-written :
      (w : c.World)
      → br.meta.deleting ≡ true
      → All (Allowed c now br w) (handle_delete (recorded c) br (w, [])).1.1
  unfolding handle_delete list_owned_pods
  handle_delete-written w d =
      fetch->>=-kept c (Allowed c now br w) _ (handle_listed (recorded c) br) (w, []) tt
        λ pods h. (handle_listed-Ok w d pods h).kept w [] tt

  -- The guards of `Reconcile`, by what they find.
  guarded-written :
      (w : c.World) (deleting kept : Bool)
      → br.meta.deleting ≡ deleting
      → c.contains_finalizer br.meta iron_book_finalizer ≡ kept
      → All
          (Allowed c now br w)
          ((if deleting
              then handle_delete (recorded c) br
              else if not kept
              then finish_with no_requeue (
                  (recorded c).update_run
                    (record br { meta = c.add_finalizer br.meta iron_book_finalizer }))
              else transition (recorded c) (phase_of br.status.phase) now br)
            (w, [])).1.1
  unfolding finish_with
  guarded-written w true kept d f = handle_delete-written w d
  guarded-written w false false d f = ((refl, refl, inl (d, f, refl)), tt)
  guarded-written w false true d f =
      (transition-Ok c now br w (phase_of br.status.phase) d refl).kept w [] tt

  reconcile_run-written :
      (w : c.World) → All (Allowed c now br w) (reconcile_run (recorded c) now br (w, [])).1.1
  unfolding reconcile_run
  reconcile_run-written w = guarded-written w _ _ refl refl

-- What the log of one reconciliation may hold, by what the read of the run answered.
abbrev pub Written : (c : Client) → ℕ → c.World → Got BenchmarkRun → List Write → Type 0
Written c now w (found br) log = All (Allowed c now br w) log
Written c now w (failed e) log = log ≡ []

returned-log :
    (c : Client) (x : Flow Returned × (recorded c).World) → (returned (recorded c) x).1.1 ≡ x.1.1
returned-log c (go_on r, w) = refl
returned-log c (return r, w) = refl

reconcile_got :
    (c : Client) (now : ℕ) (w : c.World) (x : Got BenchmarkRun)
    → Written c now w x
        ((fetch (λ (_ : (recorded c).World). x) (λ e. finish no_requeue (ignore_not_found e))
            >>= reconcile_run (recorded c) now)
          (w, [])).1.1
unfolding fetch ◌>>=◌ finish
reconcile_got c now w (found br) = reconcile_run-written c now br w
reconcile_got c now w (failed e) = refl

-- One call of `Reconcile`, whatever the API server answers to each request: where the run cannot
-- be read, nothing is written; otherwise every request to write that is sent is one that the
-- phase that was read allows. The status moves along the edges of the state machine only, with
-- the spec and the metadata as read; pods and services are made only while allocating; pods are
-- deleted only while the run is being deleted; and the finalizer is removed only then, and only
-- after a listing without any pod.
pub reconcile-Allowed :
    (c : Client) (now : ℕ) (key : NamespacedName) (w : c.World)
    → Written c now w (c.get_run key w) (reconcile (recorded c) key now (w, [])).1.1
unfolding reconcile fetch ◌>>=◌ finish
reconcile-Allowed c now key w =
    subst (Written c now w (c.get_run key w)) (sym (returned-log c _))
      (reconcile_got c now w (c.get_run key w))
