-- ===== src/Coordinator/Main/Examples.antt =====
-- The coordinator in its pod at a concrete input: a generator that always answers 0, and
-- surroundings whose world is the time.
use iron_book.Common.{ℕ, String, ◌+◌, true, false, List, [], ◌∷◌, none, str_eq, if◌then◌else◌}
use iron_book.Common.Int.{pos}
use iron_book.Operator.Types.{BenchmarkRun, Scenario}
use iron_book.Coordinator.Schedule.{Rand}
use iron_book.Coordinator.Dispatcher.{Outside}
use iron_book.Kube.{ObjectMeta}

abbrev zeros : Rand
zeros = record { Source = ℕ; new_source = λ seed. 0; intn = λ n s. (0, s + 1) }

abbrev outside : Outside
outside = record {
  World = ℕ;
  now = λ w. w;
  wait = λ dt w. (true, w + dt);
  send = λ o w. (true, w + 3);
  done = λ w. false;
}

abbrev named : String → ObjectMeta
named name = record {
  name = name;
  namespace = "ironbook";
  labels = [];
  finalizers = [];
  deleting = false;
  owner = none;
}

abbrev scenario : Scenario
scenario = record {
  meta = named "c";
  spec = record {
    yaml_spec = "steps";
    seed = pos 7;
    duration_seconds = pos 1;
    targets = record { p50_us = pos 1; p99_us = pos 2; tps = pos 3 };
  };
  status = record { content_hash = ""; conditions = [] };
}

abbrev bombing : BenchmarkRun
bombing = record {
  meta = named "run";
  spec = record { submission_ref = "s"; scenario_ref = "c"; bot_swarm_ref = "b"; seed = pos 42 };
  status = record {
    phase = "FORKING";
    started_at = none;
    ended_at = none;
    submission_endpoint = "run-submission:7777";
    oracle_endpoint = "run-oracle:7777";
    gateway_endpoint = "run-gateway:8080";
    conditions = [];
  };
}

-- The environment of the pod.
abbrev getenv : String → String
getenv name =
    if str_eq name "IRONBOOK_SCENARIO_YAML"
    then "steps"
    else if str_eq name "IRONBOOK_SCENARIO_SEED"
    then "42"
    else if str_eq name "IRONBOOK_DURATION_SECONDS"
    then "1"
    else if str_eq name "IRONBOOK_GATEWAY_URL"
    then "http://run-gateway:8080"
    else ""
