-- ===== src/Operator/Main.antt =====
-- apps/benchmark-operator/cmd/main.go from the parsed flags on, and SetupWithManager of the
-- controllers: the options of the two servers, and the calls of the manager up to its start.
-- controller-runtime is a parameter.
pub mod Starts
pub mod Examples
use iron_book.Common.{
  String, Bool, true, false, not, List, [], ◌∷◌, ◌++◌, Option, none, some, str_eq, if◌then◌else◌,
}
use iron_book.Common.Steps.{Step, ◌>>=◌, ◌>>◌, attempt}

pub record Flags : Type 0 where
  pub metrics_addr : String
  pub metrics_cert_path : String
  pub metrics_cert_name : String
  pub metrics_cert_key : String
  pub webhook_cert_path : String
  pub webhook_cert_name : String
  pub webhook_cert_key : String
  pub enable_leader_election : Bool
  pub probe_addr : String
  pub secure_metrics : Bool
  pub enable_http2 : Bool

abbrev pub default_flags : Flags
default_flags = record {
  metrics_addr = "0";
  metrics_cert_path = "";
  metrics_cert_name = "tls.crt";
  metrics_cert_key = "tls.key";
  webhook_cert_path = "";
  webhook_cert_name = "tls.crt";
  webhook_cert_key = "tls.key";
  enable_leader_election = false;
  probe_addr = ":8081";
  secure_metrics = true;
  enable_http2 = false;
}

-- `tls.Config`, with the field that the options set.
pub record TlsConfig : Type 0 where
  pub next_protos : List String

abbrev pub disable_http2 : TlsConfig → TlsConfig
disable_http2 c = record c { next_protos = "http/1.1" ∷ [] }

-- A server applies its options in their order.
abbrev pub applied : List (TlsConfig → TlsConfig) → TlsConfig → TlsConfig
applied [] c = c
applied (f ∷ opts) c = applied opts (f c)

unfoldable pub tls_opts : Flags → List (TlsConfig → TlsConfig)
tls_opts f = if not f.enable_http2 then disable_http2 ∷ [] else []

-- `CertDir`, `CertName` and `KeyName`.
pub record Certs : Type 0 where
  pub dir : String
  pub name : String
  pub key : String

unfoldable pub certs : String → String → String → Certs
certs path name key =
    if str_eq path ""
    then record { dir = ""; name = ""; key = "" }
    else record { dir = path; name = name; key = key }

pub record WebhookOptions : Type 0 where
  pub tls_opts : List (TlsConfig → TlsConfig)
  pub certs : Certs

-- `filtered` is whether `FilterProvider` asks for authentication and authorization.
pub record MetricsOptions : Type 0 where
  pub bind_address : String
  pub secure_serving : Bool
  pub filtered : Bool
  pub tls_opts : List (TlsConfig → TlsConfig)
  pub certs : Certs

pub record ManagerOptions : Type 0 where
  pub metrics : MetricsOptions
  pub webhook : WebhookOptions
  pub probe_addr : String
  pub leader_election : Bool
  pub leader_election_id : String

unfoldable pub manager_options : Flags → ManagerOptions
unfolding tls_opts certs
manager_options f = record {
  metrics = record {
    bind_address = f.metrics_addr;
    secure_serving = f.secure_metrics;
    filtered = f.secure_metrics;
    tls_opts = tls_opts f;
    certs = certs f.metrics_cert_path f.metrics_cert_name f.metrics_cert_key;
  };
  webhook = record {
    tls_opts = tls_opts f;
    certs = certs f.webhook_cert_path f.webhook_cert_name f.webhook_cert_key;
  };
  probe_addr = f.probe_addr;
  leader_election = f.enable_leader_election;
  leader_election_id = "40648e4b.ironbook.io";
}

-- The kinds of objects that a controller is made for or watches as their owner.
pub data Kind : Type 0 where
  submission_kind scenario_kind bot_swarm_kind benchmark_run_kind pod_kind service_kind : Kind

-- `ctrl.NewControllerManagedBy(mgr)` with `For`, `Owns` and `Named`.
pub record Setup : Type 0 where
  pub name : String
  pub for_kind : Kind
  pub owns : List Kind

abbrev pub submission_setup : Setup
submission_setup = record { name = "submission"; for_kind = submission_kind; owns = [] }

abbrev pub scenario_setup : Setup
scenario_setup = record { name = "scenario"; for_kind = scenario_kind; owns = [] }

abbrev pub bot_swarm_setup : Setup
bot_swarm_setup = record { name = "botswarm"; for_kind = bot_swarm_kind; owns = [] }

abbrev pub benchmark_run_setup : Setup
benchmark_run_setup = record {
  name = "benchmarkrun";
  for_kind = benchmark_run_kind;
  owns = pod_kind ∷ service_kind ∷ [];
}

-- The calls that `main` makes.
pub data Call : Type 0 where
  new_manager : ManagerOptions → Call
  complete : Setup → Call
  add_healthz add_readyz : String → Call
  start : Call

pub record Manager : Type 1 where
  pub World : Type 0
  pub call : Call → World → Option String × World

module _ (m : Manager) where
  unfoldable pub main : Flags → Step m.World (Unit {0})
  unfolding manager_options
  main f = do
    attempt (m.call (new_manager (manager_options f)))
    attempt (m.call (complete submission_setup))
    attempt (m.call (complete scenario_setup))
    attempt (m.call (complete bot_swarm_setup))
    attempt (m.call (complete benchmark_run_setup))
    attempt (m.call (add_healthz "healthz"))
    attempt (m.call (add_readyz "readyz"))
    attempt (m.call start)
