-- ===== src/Operator/Client.antt =====
-- The API server as the reconcilers see it: `client.Client` of controller-runtime, and the helpers
-- of apimachinery and controllerutil that they call. All of it is third-party code, so it is a
-- parameter; a call that writes changes the state of the server.
use iron_book.Common.{ℕ, String, Bool, List, Option, none, some}
use iron_book.Kube.{ObjectMeta, Condition, Pod}
use iron_book.Operator.Types.{BenchmarkRun, Submission, Scenario, BotSwarm}

-- The classes of errors that the code tells apart.
pub data ApiError : Type 0 where
  not_found already_exists conflict : ApiError
  other : String → ApiError

-- `client.IgnoreNotFound`.
abbrev pub ignore_not_found : ApiError → Option ApiError
ignore_not_found not_found = none
ignore_not_found e = some e

pub data Got {ℓ} (A : Type ℓ) : Type ℓ where
  found : A → Got A
  failed : ApiError → Got A

-- A ClusterIP service: its selector, and the one port with its target.
pub record Service : Type 0 where
  pub meta : ObjectMeta
  pub selector : List (String × String)
  pub port : ℕ
  pub target_port : ℕ

-- `types.NamespacedName`.
pub record NamespacedName : Type 0 where
  pub namespace : String
  pub name : String

pub record Client : Type 1 where
  pub World : Type 0
  pub get_run : NamespacedName → World → Got BenchmarkRun
  pub get_submission : NamespacedName → World → Got Submission
  pub get_scenario : NamespacedName → World → Got Scenario
  pub get_bot_swarm : NamespacedName → World → Got BotSwarm
  -- The pods of a namespace whose label `ironbook.io/run` has the given value.
  pub list_pods : String → String → World → Got (List Pod)
  pub update_run : BenchmarkRun → World → Option ApiError × World
  pub update_run_status : BenchmarkRun → World → Option ApiError × World
  pub update_submission_status : Submission → World → Option ApiError × World
  pub update_scenario_status : Scenario → World → Option ApiError × World
  pub create_pod : Pod → World → Option ApiError × World
  pub create_service : Service → World → Option ApiError × World
  pub delete_pod : Pod → World → Option ApiError × World
  -- `meta.SetStatusCondition`.
  pub set_status_condition : Condition → List Condition → List Condition
  -- `controllerutil.SetControllerReference`: the metadata with the run as its controller.
  pub set_controller_reference : BenchmarkRun → ObjectMeta → Got ObjectMeta
  pub contains_finalizer : ObjectMeta → String → Bool
  pub add_finalizer : ObjectMeta → String → ObjectMeta
  pub remove_finalizer : ObjectMeta → String → ObjectMeta
  -- `%q` of a text and `%v` of an error.
  pub quote : String → String
  pub error_text : ApiError → String
