-- ===== src/Operator/Run/Deletes.antt =====
-- A run that is deleted: its pods go gracefully, and then its finalizer
-- (`handleDelete` of apps/benchmark-operator/internal/controller/benchmarkrun_controller.go).
pub mod Marked
pub mod Examples
use iron_book.Common.{
  ℕ, zero, suc, ◌≤◌, arith, String, ◌≡◌, ◌⊎◌, inl, inr, refl, sym, ap, ◌∙◌, subst, Bool, true,
  false, List, [], ◌∷◌, All, Option, none, some, str_eq, eq_iff, Bool-cases, if◌then◌else◌,
}
use iron_book.Common.Text.{ne_of_str_eq}
use iron_book.Kube.{ObjectMeta, Pod}
use iron_book.Operator.Types.{BenchmarkRun}
use iron_book.Operator.Client.{Client, found, NamespacedName}
use iron_book.Operator.Flow.{
  M, Flow, Returned, go_on, return, no_requeue, requeue_after, ◌>>=◌, ◌>>◌, finish_with, return_if,
  fetch, and_check, pass,
}
use iron_book.Operator.Flow.Passing.{
  go_on->>=, return->>=, fetch-found, return_if-false, return_if-true, and_check-none,
}
use iron_book.Operator.Run.Deletes.Marked.{
  marked, Dying, Due, self-Due, Due-skip, Due-marked, Due-Dying,
}
use iron_book.Operator.Run.{
  iron_book_finalizer, ignore_gone, is_nonempty, reconcile, reconcile_run, returned, delete_pods,
  handle_listed, handle_delete, list_owned_pods,
}

-- An API server that knows one run and its pods, and deletes gracefully. A pod that is told to go is
-- given a time of deletion and stays in the listing until its grace period ends; it may also be gone
-- at once. `passes` is what happens between two reconciliations: pods may leave the listing and
-- none comes or changes; while every pod is going, the grace that remains shrinks, and at 0 there
-- is none left.
pub record IsGraceful (c : Client) (key : NamespacedName) : Type 1 where
  pub run : c.World → BenchmarkRun
  pub reads : (w : c.World) → c.get_run key w ≡ found (run w)
  pub pods : c.World → List Pod
  pub lists :
      (namespace name : String) (w : c.World) → c.list_pods namespace name w ≡ found (pods w)
  pub takes_delete : (p : Pod) (w : c.World) → (c.delete_pod p w).0 ≡ none
  pub marks :
      (P : Pod → Type 0) (p : Pod) (w : c.World)
      → All P (marked p.meta.name (pods w))
      → All P (pods (c.delete_pod p w).1)
  pub keeps_run : (p : Pod) (w : c.World) → run (c.delete_pod p w).1 ≡ run w
  pub stores_run :
      (r : BenchmarkRun) (w : c.World) → run (c.update_run r w).1 ≡ record (run w) { meta = r.meta }
  pub drops :
      (m : ObjectMeta)
      → c.contains_finalizer (c.remove_finalizer m iron_book_finalizer) iron_book_finalizer ≡ false
  pub passes : c.World → c.World
  pub passes_run : (w : c.World) → run (passes w) ≡ run w
  pub passes_pods : (P : Pod → Type 0) (w : c.World) → All P (pods w) → All P (pods (passes w))
  pub grace : c.World → ℕ
  pub shrinks : (n : ℕ) (w : c.World) → Dying (pods w) → grace w ≤ suc n → grace (passes w) ≤ n
  pub ends : (w : c.World) → Dying (pods w) → grace w ≤ 0 → pods w ≡ []

module _ (c : Client) (key : NamespacedName) (s : IsGraceful c key) where
  -- A loop that went on.
  record Deleted (ps : List Pod) (w : c.World) : Type 0 where
    pub after : c.World
    pub ran : delete_pods c ps w ≡ (go_on tt, after)
    pub dying : All (Due ps) (s.pods w) → Dying (s.pods after)
    pub same : s.run after ≡ s.run w
    pub idle : Dying ps → after ≡ w

  abbrev Turn : Pod → List Pod → Bool → M c.World (Unit {0})
  Turn p ps b =
      if b
      then delete_pods c ps
      else (and_check (c.delete_pod p) (ignore_gone c) >> delete_pods c ps)

  delete_pods-Deleted : (ps : List Pod) (w : c.World) → Deleted ps w
  unfolding delete_pods pass
  delete_pods-Deleted [] w = record {
    after = w;
    ran = refl;
    dying = Due-Dying (s.pods w);
    same = refl;
    idle = λ h. refl;
  }
  delete_pods-Deleted (p ∷ ps) w = elim (Bool-cases p.meta.deleting) [
    | inl going ↦
        let d = delete_pods-Deleted ps w in
        record {
          after = d.after;
          ran = subst (λ b. Turn p ps b w ≡ (go_on tt, d.after)) (sym going) d.ran;
          dying = λ h. d.dying (Due-skip p ps (s.pods w) going h);
          same = d.same;
          idle = λ h. d.idle h.1;
        }
    | inr alive ↦
        let w₁ = (c.delete_pod p w).1 in
        let d = delete_pods-Deleted ps w₁ in
        record {
          after = d.after;
          ran =
              subst (λ b. Turn p ps b w ≡ (go_on tt, d.after)) (sym alive)
                (go_on->>= _ (λ _. delete_pods c ps) w
                    (and_check-none (c.delete_pod p) (ignore_gone c) w (s.takes_delete p w) refl)
                  ∙ d.ran);
          dying = λ h. d.dying (s.marks (Due ps) p w (Due-marked p ps (s.pods w) h));
          same = d.same ∙ s.keeps_run p w;
          idle = λ h. absurd (cc (h.0, alive));
        }
  ]

  deleting_run :
      (now : ℕ) (w : c.World)
      → (s.run w).meta.deleting ≡ true
      → reconcile_run c now (s.run w) w ≡ handle_delete c (s.run w) w
  unfolding reconcile_run
  deleting_run now w d = simp d

  deleting_reads :
      (now : ℕ) (w : c.World)
      → (s.run w).meta.deleting ≡ true
      → reconcile c key now w ≡ returned c (handle_listed c (s.run w) (s.pods w) w)
  unfolding reconcile handle_delete list_owned_pods
  deleting_reads now w d = ap (returned c) (
      go_on->>= _ (reconcile_run c now) w (fetch-found _ _ w (s.reads w))
      ∙ deleting_run now w d
      ∙ go_on->>= _ (handle_listed c (s.run w)) w (fetch-found _ _ w (s.lists _ _ w)))

  -- With pods listed, the run stays as it is, and afterwards every pod is going; if all were going,
  -- nothing is sent.
  record Told (w w' : c.World) : Type 0 where
    pub dying : Dying (s.pods w')
    pub same : s.run w' ≡ s.run w
    pub idle : Dying (s.pods w) → w' ≡ w

  with_pods :
      (now : ℕ) (w : c.World) (p : Pod) (ps : List Pod)
      → (s.run w).meta.deleting ≡ true
      → s.pods w ≡ p ∷ ps
      → Told w (reconcile c key now w).1
  unfolding handle_listed
  with_pods now w p ps d there =
      let r = delete_pods-Deleted (p ∷ ps) w in
      let moved : (reconcile c key now w).1 ≡ r.after =
        ap (λ x. x.1)
          (deleting_reads now w d
            ∙ ap (λ pods. returned c (handle_listed c (s.run w) pods w)) there
            ∙ ap (returned c) (
                go_on->>= _ _ w r.ran
                ∙ return->>= _ _ r.after (return_if-true _ _ r.after refl))) in
      record {
        dying =
            subst (λ v. Dying (s.pods v)) (sym moved)
              (r.dying (subst (λ qs. All (Due (p ∷ ps)) qs) (sym there) (self-Due (p ∷ ps))));
        same = ap s.run moved ∙ r.same;
        idle = λ h. moved ∙ r.idle (subst Dying there h);
      }

  -- Without pods, the finalizer is removed.
  abbrev Freed : c.World → Type 0
  Freed w = c.contains_finalizer (s.run w).meta iron_book_finalizer ≡ false

  without_pods :
      (now : ℕ) (w : c.World)
      → (s.run w).meta.deleting ≡ true
      → s.pods w ≡ []
      → Freed (reconcile c key now w).1
  unfolding handle_listed delete_pods pass finish_with
  without_pods now w d none_left =
      let freed : BenchmarkRun = record (s.run w) {
        meta = c.remove_finalizer (s.run w).meta iron_book_finalizer;
      } in
      let moved : (reconcile c key now w).1 ≡ (c.update_run freed w).1 =
        ap (λ x. x.1)
          (deleting_reads now w d
            ∙ ap (λ pods. returned c (handle_listed c (s.run w) pods w)) none_left
            ∙ ap (returned c)
                (go_on->>= _ _ w refl ∙ go_on->>= _ _ w (return_if-false _ _ w refl))) in
      ap (λ v. c.contains_finalizer (s.run v).meta iron_book_finalizer) moved
      ∙ ap (λ r. c.contains_finalizer r.meta iron_book_finalizer) (s.stores_run freed w)
      ∙ s.drops (s.run w).meta

  -- Reconciliations from the k-th on, with what happens after each; `clock` has their times.
  abbrev pub rounds : (ℕ → ℕ) → ℕ → ℕ → c.World → c.World
  rounds clock k zero w = w
  rounds clock k (suc n) w = rounds clock (suc k) n (s.passes (reconcile c key (clock k) w).1)

  -- After some rounds, at most `most`, no pod is listed, the run is as it was, and the next
  -- reconciliation removes its finalizer.
  pub record Frees (clock : ℕ → ℕ) (k most : ℕ) (w : c.World) : Type 0 where
    pub count : ℕ
    pub bounded : count ≤ most
    pub emptied : s.pods (rounds clock k count w) ≡ []
    pub kept : s.run (rounds clock k count w) ≡ s.run w
    pub frees : (now : ℕ) → Freed (reconcile c key now (rounds clock k count w)).1

  module _ (clock : ℕ → ℕ) where
    at_once :
        (k n : ℕ) (w : c.World) → (s.run w).meta.deleting ≡ true → s.pods w ≡ [] → Frees clock k n w
    at_once k n w d empty = record {
      count = 0;
      bounded = omega arith;
      emptied = empty;
      kept = refl;
      frees = λ now. without_pods now w d empty;
    }

    -- While all pods are going, the reconciliations wait.
    wait :
        (n k : ℕ) (w : c.World) (qs : List Pod)
        → s.pods w ≡ qs
        → (s.run w).meta.deleting ≡ true
        → Dying (s.pods w)
        → s.grace w ≤ n
        → Frees clock k n w
    wait n k w [] there d dying short = at_once k n w d there
    wait zero k w (p ∷ ps) there d dying short = at_once k 0 w d (s.ends w dying short)
    wait (suc n) k w (p ∷ ps) there d dying short =
        let told = with_pods (clock k) w p ps d there in
        let w' = (reconcile c key (clock k) w).1 in
        let same : s.run (s.passes w') ≡ s.run w = s.passes_run w' ∙ told.same in
        let more =
          wait n (suc k) (s.passes w') (s.pods (s.passes w')) refl
            (ap (λ r. r.meta.deleting) same ∙ d)
            (s.passes_pods (λ q. q.meta.deleting ≡ true) w' told.dying)
            (s.shrinks n w' told.dying
              (subst (λ v. s.grace v ≤ suc n) (sym (told.idle dying)) short)) in
        record {
          count = suc more.count;
          bounded = omega (arith, more.bounded);
          emptied = more.emptied;
          kept = more.kept ∙ same;
          frees = more.frees;
        }

    -- The first reconciliation of a run that is being deleted and has pods leaves every pod going
    -- and the run as it is. After at most as many reconciliations more as the grace that remains then
    -- says, no pod is listed, and the run is still as it was; the next reconciliation then removes
    -- the finalizer that keeps the run. It is so on an API server that deletes gracefully and stores
    -- the metadata that it is sent; some of the pods may have been going before.
    pub reconcile_deletes :
        (w : c.World) (p : Pod) (ps : List Pod)
        → (s.run w).meta.deleting ≡ true
        → s.pods w ≡ p ∷ ps
        → let w' = (reconcile c key (clock 0) w).1 in
          Dying (s.pods w')
          × (s.run w' ≡ s.run w)
          × Frees clock 1 (s.grace (s.passes w')) (s.passes w')
    reconcile_deletes w p ps d there =
        let told = with_pods (clock 0) w p ps d there in
        let w' = (reconcile c key (clock 0) w).1 in
        (
          told.dying,
          told.same,
          wait _ 1 (s.passes w') _ refl
              (ap (λ r. r.meta.deleting) (s.passes_run w' ∙ told.same) ∙ d)
              (s.passes_pods (λ q. q.meta.deleting ≡ true) w' told.dying) (omega arith),
        )
