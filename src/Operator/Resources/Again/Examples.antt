-- ===== src/Operator/Resources/Again/Examples.antt =====
-- A new submission and a new scenario on an API server that keeps the statuses it is sent
-- (apps/benchmark-operator/internal/controller).
use iron_book.Common.{ℕ, ◌≡◌, refl, ap, arith, String, true, false, List, [], ◌∷◌, none}
use iron_book.Common.Int.{pos}
use iron_book.Kube.{ObjectMeta}
use iron_book.Operator.Types.{Submission, Scenario}
use iron_book.Operator.Client.{Client, Got, NamespacedName, found, failed, not_found}
use iron_book.Operator.Flow.{◌>>=◌, fetch, return_if, finish_with}
use iron_book.Common.Bytes.{hex}
use iron_book.Operator.Resources.{submission_reconcile, scenario_reconcile, content_hash}
use iron_book.Operator.Resources.Again.{ends, IsFaithful, reconcile-Again}

abbrev named : String → ObjectMeta
named name = record {
  name = name;
  namespace = "ironbook";
  labels = [];
  finalizers = [];
  deleting = false;
  owner = none;
}

abbrev submission : Submission
submission = record {
  meta = named "s";
  spec = record { sha256 = "abc"; language = "rust" };
  status = record { phase = ""; image_digest = ""; reject_reason = ""; conditions = [] };
}

abbrev scenario : Scenario
scenario = record {
  meta = named "s";
  spec = record {
    yaml_spec = "steps";
    seed = pos 1;
    duration_seconds = pos 60;
    targets = record { p50_us = pos 1; p99_us = pos 2; tps = pos 3 };
  };
  status = record { content_hash = ""; conditions = [] };
}

abbrev storing : Client
storing = record {
  World = Submission × Scenario;
  get_run = λ key w. failed not_found;
  get_submission = λ key w. found w.0;
  get_scenario = λ key w. found w.1;
  get_bot_swarm = λ key w. failed not_found;
  list_pods = λ namespace run w. found [];
  update_run = λ r w. (none, w);
  update_run_status = λ r w. (none, w);
  update_submission_status = λ s w. (none, (record (w.0) { status = s.status }, w.1));
  update_scenario_status = λ s w. (none, (w.0, record (w.1) { status = s.status }));
  create_pod = λ p w. (none, w);
  create_service = λ s w. (none, w);
  delete_pod = λ p w. (none, w);
  set_status_condition = λ c conditions. c ∷ conditions;
  set_controller_reference = λ run meta. found meta;
  contains_finalizer = λ meta finalizer. true;
  add_finalizer = λ meta finalizer. meta;
  remove_finalizer = λ meta finalizer. meta;
  quote = λ s. s;
  error_text = λ e. "error";
}

abbrev key : NamespacedName
key = record { namespace = "ironbook"; name = "s" }

abbrev one_digest : List ℕ → List ℕ
one_digest text = 1 ∷ 2 ∷ []

abbrev submission_of : Got Submission → Submission
submission_of (found s) = s
submission_of (failed e) = submission

abbrev scenario_of : Got Scenario → Scenario
scenario_of (found s) = s
scenario_of (failed e) = scenario

storing-IsFaithful : IsFaithful storing one_digest key
storing-IsFaithful = record {
  submission_stored =
      λ w s s' h same accepted. ap (λ x. found (record (submission_of x) { status = s'.status })) h;
  scenario_stored =
      λ w s s' h same accepted. ap (λ x. found (record (scenario_of x) { status = s'.status })) h;
  digest = λ text. (omega arith, (omega arith, tt));
  some_digest = λ text e. cc;
}

abbrev settled : Submission × Scenario
settled = (
  (submission_reconcile storing key (submission, scenario)).1.0,
  (scenario_reconcile storing one_digest key (submission, scenario)).1.1,
)

settled_texts : (settled.0.status.phase ≡ "PENDING") × (settled.1.status.content_hash ≡ "0102")
unfolding submission_reconcile scenario_reconcile content_hash ◌>>=◌ fetch return_if finish_with hex
settled_texts = (refl, refl)

reconcile-Again_example :
    let w' = (submission_reconcile storing key (submission, scenario)).1 in
    let v' = (scenario_reconcile storing one_digest key (submission, scenario)).1 in
    (submission_reconcile storing key w' ≡ (ends none, w'))
    × (scenario_reconcile storing one_digest key v' ≡ (ends none, v'))
unfolding submission_reconcile scenario_reconcile ◌>>=◌ fetch return_if finish_with content_hash hex
reconcile-Again_example =
    reconcile-Again storing one_digest key storing-IsFaithful (submission, scenario)
      (submission, scenario) refl refl
