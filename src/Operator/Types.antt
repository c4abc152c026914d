-- ===== src/Operator/Types.antt =====
-- apps/benchmark-operator/api/v1: the custom resources. Phases are texts, as in the source.
use iron_book.Common.{ℕ, String, List, Option}
use iron_book.Common.Int.{ℤ}
use iron_book.Kube.{ObjectMeta, Condition}

pub record BenchmarkRunSpec : Type 0 where
  pub submission_ref : String
  pub scenario_ref : String
  pub bot_swarm_ref : String
  pub seed : ℤ

pub record BenchmarkRunStatus : Type 0 where
  pub phase : String
  pub started_at : Option ℕ
  pub ended_at : Option ℕ
  pub submission_endpoint : String
  pub oracle_endpoint : String
  pub gateway_endpoint : String
  pub conditions : List Condition

pub record BenchmarkRun : Type 0 where
  pub meta : ObjectMeta
  pub spec : BenchmarkRunSpec
  pub status : BenchmarkRunStatus

pub record SubmissionSpec : Type 0 where
  pub sha256 : String
  pub language : String

pub record SubmissionStatus : Type 0 where
  pub phase : String
  pub image_digest : String
  pub reject_reason : String
  pub conditions : List Condition

pub record Submission : Type 0 where
  pub meta : ObjectMeta
  pub spec : SubmissionSpec
  pub status : SubmissionStatus

pub record ScenarioTargets : Type 0 where
  pub p50_us : ℤ
  pub p99_us : ℤ
  pub tps : ℤ

pub record ScenarioSpec : Type 0 where
  pub yaml_spec : String
  pub seed : ℤ
  pub duration_seconds : ℤ
  pub targets : ScenarioTargets

pub record ScenarioStatus : Type 0 where
  pub content_hash : String
  pub conditions : List Condition

pub record Scenario : Type 0 where
  pub meta : ObjectMeta
  pub spec : ScenarioSpec
  pub status : ScenarioStatus

pub record OrderMixProfile : Type 0 where
  pub limit_fraction : String
  pub ioc_fraction : String
  pub cancel_fraction : String

pub record BotSwarmSpec : Type 0 where
  pub max_workers : ℤ
  pub protocols : List String
  pub order_mix : OrderMixProfile

pub record BotSwarmStatus : Type 0 where
  pub conditions : List Condition

pub record BotSwarm : Type 0 where
  pub meta : ObjectMeta
  pub spec : BotSwarmSpec
  pub status : BotSwarmStatus
