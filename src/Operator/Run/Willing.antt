-- ===== src/Operator/Run/Willing.antt =====
-- An API server that stores what it is sent, and what a reconciliation does on it.
use iron_book.Common.{
  ℕ, String, ◌≡◌, refl, sym, ap, ◌∙◌, subst, true, false, List, Option, none, str_eq,
}
use iron_book.Kube.{ObjectMeta, Pod}
use iron_book.Operator.Types.{BenchmarkRun, Submission, Scenario, BotSwarm}
use iron_book.Operator.Client.{Client, found, NamespacedName, Service}
use iron_book.Operator.Flow.{M, Returned, go_on, return, ◌>>=◌, fetch, try}
use iron_book.Operator.Flow.Passing.{go_on->>=, fetch-found, try-found, and_check-none}
use iron_book.Operator.Phases.{phase_of}
use iron_book.Operator.Pods.{
  Role, role_oracle, role_submission, role_gateway, oracle_pod, submission_pod, gateway_pod,
  coordinator_pod, role_service,
}
use iron_book.Operator.Run.{
  iron_book_finalizer, reconcile, reconcile_run, returned, transition, ensure_pod, ensure_service,
  allocate,
}

-- An API server that knows one run, and answers as documented: it stores the status, or the
-- metadata, that it is sent, and gives them back; objects that are made are accepted and leave
-- the run alone. What the run refers to is ready; the pods that are listed vary.
pub record IsWilling (c : Client) (key : NamespacedName) : Type 0 where
  pub run : c.World → BenchmarkRun
  pub reads : (w : c.World) → c.get_run key w ≡ found (run w)
  pub stores_status :
      (r : BenchmarkRun) (w : c.World)
      → run (c.update_run_status r w).1 ≡ record (run w) { status = r.status }
  pub stores_run :
      (r : BenchmarkRun) (w : c.World) → run (c.update_run r w).1 ≡ record (run w) { meta = r.meta }
  pub takes_pod : (p : Pod) (w : c.World) → (c.create_pod p w).0 ≡ none
  pub keeps_pod : (p : Pod) (w : c.World) → run (c.create_pod p w).1 ≡ run w
  pub takes_service : (s : Service) (w : c.World) → (c.create_service s w).0 ≡ none
  pub keeps_service : (s : Service) (w : c.World) → run (c.create_service s w).1 ≡ run w
  pub owns :
      (br : BenchmarkRun) (meta : ObjectMeta)
      → (m : ObjectMeta) × (c.set_controller_reference br meta ≡ found m)
  pub adds :
      (m : ObjectMeta)
      → c.contains_finalizer (c.add_finalizer m iron_book_finalizer) iron_book_finalizer ≡ true
  pub keeps_deleting :
      (m : ObjectMeta) → (c.add_finalizer m iron_book_finalizer).deleting ≡ m.deleting
  pub submission : Submission
  pub finds_submission :
      (k : NamespacedName) (w : c.World) → c.get_submission k w ≡ found submission
  pub submission_ready : str_eq submission.status.phase "READY" ≡ true
  pub scenario : Scenario
  pub finds_scenario : (k : NamespacedName) (w : c.World) → c.get_scenario k w ≡ found scenario
  pub scenario_hashed : str_eq scenario.status.content_hash "" ≡ false
  pub swarm : BotSwarm
  pub finds_swarm : (k : NamespacedName) (w : c.World) → c.get_bot_swarm k w ≡ found swarm
  pub pods : c.World → List Pod
  pub lists :
      (namespace name : String) (w : c.World) → c.list_pods namespace name w ≡ found (pods w)

module _ (c : Client) (key : NamespacedName) (s : IsWilling c key) where
  -- The run that the server has, with its finalizer and not being deleted.
  pub record In (phase : String) (start end : Option ℕ) (w : c.World) : Type 0 where
    pub kept : c.contains_finalizer (s.run w).meta iron_book_finalizer ≡ true
    pub alive : (s.run w).meta.deleting ≡ false
    pub phase_is : (s.run w).status.phase ≡ phase
    pub started : (s.run w).status.started_at ≡ start
    pub ended : (s.run w).status.ended_at ≡ end

  -- The guards of `Reconcile`.
  pub guarded :
      (now : ℕ) (w : c.World) (phase : String) {start end : Option ℕ}
      → In phase start end w
      → reconcile_run c now (s.run w) w ≡ transition c (phase_of phase) now (s.run w) w
  unfolding reconcile_run
  guarded now w phase i = simp (i.alive, i.kept, i.phase_is)

  pub reconcile_reads :
      (now : ℕ) (w : c.World) → reconcile c key now w ≡ returned c (reconcile_run c now (s.run w) w)
  unfolding reconcile
  reconcile_reads now w =
      ap (returned c) (
        go_on->>= (fetch (c.get_run key) _) (reconcile_run c now) w (fetch-found _ _ w (s.reads w)))

  pub reconcile-In :
      (now : ℕ) (w : c.World) {phase : String} {start end : Option ℕ}
      → In phase start end w
      → reconcile c key now w ≡ returned c (transition c (phase_of phase) now (s.run w) w)
  reconcile-In now w {phase} i = reconcile_reads now w ∙ ap (returned c) (guarded now w phase i)

  -- A transition that stores a status, after calls that leave the run as it was.
  pub advance :
      (now : ℕ) (w w₁ : c.World) (r : BenchmarkRun) {ret : Returned} {phase : String}
      {start end start' end' : Option ℕ}
      → In phase start end w
      → s.run w₁ ≡ s.run w
      → transition c (phase_of phase) now (s.run w) w ≡ (return ret, (c.update_run_status r w₁).1)
      → r.status.started_at ≡ start'
      → r.status.ended_at ≡ end'
      → In r.status.phase start' end' (reconcile c key now w).1
  advance now w w₁ r {phase = phase} {start' = start'} {end' = end'} i same moved starts ends =
      subst (λ v. In r.status.phase start' end' v)
        (sym (ap (λ x. x.1) (reconcile-In now w i ∙ ap (returned c) moved)))
        (record {
          kept =
              ap (λ x. c.contains_finalizer x.meta iron_book_finalizer) (s.stores_status r w₁)
              ∙ ap (λ x. c.contains_finalizer x.meta iron_book_finalizer) same
              ∙ i.kept;
          alive =
              ap (λ x. x.meta.deleting) (s.stores_status r w₁)
              ∙ ap (λ x. x.meta.deleting) same
              ∙ i.alive;
          phase_is = ap (λ x. x.status.phase) (s.stores_status r w₁);
          started = ap (λ x. x.status.started_at) (s.stores_status r w₁) ∙ starts;
          ended = ap (λ x. x.status.ended_at) (s.stores_status r w₁) ∙ ends;
        })

  -- A handler that goes on, with the run as it was.
  pub record Passes {A : Type 0} (m : M c.World A) (w : c.World) : Type 0 where
    pub value : A
    pub after : c.World
    pub ran : m w ≡ (go_on value, after)
    pub same : s.run after ≡ s.run w

  pub then :
      {A B : Type 0} (m : M c.World A) (f : A → M c.World B) (w : c.World)
      → Passes m w
      → ((a : A) (w' : c.World) → Passes (f a) w')
      → Passes (m >>= f) w
  then m f w p q =
      let r = q p.value p.after in
      record {
        value = r.value;
        after = r.after;
        ran = go_on->>= m f w p.ran ∙ r.ran;
        same = r.same ∙ p.same;
      }

  ensure_pod-Passes : (br : BenchmarkRun) (pod : Pod) (w : c.World) → Passes (ensure_pod c br pod) w
  unfolding ensure_pod
  ensure_pod-Passes br pod w =
      let (meta, owned) = s.owns br pod.meta in
      let p = record pod { meta = meta } in
      record {
        value = tt;
        after = (c.create_pod p w).1;
        ran =
            go_on->>= (try (c.set_controller_reference br pod.meta)) _ w (try-found _ w owned)
            ∙ and_check-none (c.create_pod p) _ w (s.takes_pod p w) refl;
        same = s.keeps_pod p w;
      }

  ensure_service-Passes :
      (br : BenchmarkRun) (role : Role) (port : ℕ) (w : c.World)
      → Passes (ensure_service c br role port) w
  unfolding ensure_service
  ensure_service-Passes br role port w =
      let (meta, owned) = s.owns br (role_service br role port).meta in
      let service = record (role_service br role port) { meta = meta } in
      record {
        value = tt;
        after = (c.create_service service w).1;
        ran =
            go_on->>= (try (c.set_controller_reference br (role_service br role port).meta)) _ w
              (try-found _ w owned)
            ∙ and_check-none (c.create_service service) _ w (s.takes_service service w) refl;
        same = s.keeps_service service w;
      }

  pub allocate-Passes :
      (br : BenchmarkRun) (sub : Submission) (scn : Scenario) (w : c.World)
      → Passes (allocate c br sub scn) w
  unfolding allocate
  allocate-Passes br sub scn w = then _ _ w (ensure_pod-Passes br (oracle_pod br) w) λ _ w₁.
      then _ _ w₁ (ensure_pod-Passes br (submission_pod br sub) w₁) λ _ w₂.
        then _ _ w₂ (ensure_pod-Passes br (gateway_pod br) w₂) λ _ w₃.
          then _ _ w₃ (ensure_pod-Passes br (coordinator_pod br scn) w₃) λ _ w₄.
            then _ _ w₄ (ensure_service-Passes br role_oracle 7080 w₄) λ _ w₅.
              then _ _ w₅ (ensure_service-Passes br role_submission 7777 w₅)
                λ _ w₆. ensure_service-Passes br role_gateway 8080 w₆
