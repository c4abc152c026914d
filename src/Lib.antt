-- ===== src/Lib.antt =====
-- IronBook runs untrusted order-matching engines against a reference oracle and compares them. This
-- library models the Go programs that drive such a benchmark run.
--
-- The parts and how they interact:
--
-- The benchmark-operator reconciles a BenchmarkRun: it checks what the run refers to, makes four pods
-- (the oracle, the submission, the fairness-gateway, the bot-coordinator) and three services, waits
-- until they are ready, waits until the coordinator has finished, and completes the run. The
-- coordinator compiles a schedule of orders and posts each to the gateway at its offset. The gateway
-- gives each order a stamp from blocks of sequence numbers that the time-service hands out, and sends
-- it to the submission and the oracle; a sink gets a copy for later comparison. The admission-webhook
-- checks the pods of submissions. The submission-api stores source archives and starts their builds,
-- which the build-runner carries out.
--
-- The files:
--
-- Common and its children: shared lists over the native numbers, signed integers, text, bytes,
-- decimal and hexadecimal text, and Steps, calls on a world that give a value or an error.
-- Envconfig: what the configurations use of the package envconfig, and its documented behaviour; its
-- child Plain is a reading of the environment that does so.
-- Clients: pkg/postgresclient/client.go and pkg/miniclient/client.go.
-- Gateway/Stamper: apps/fairness-gateway/gateway/stamper.go. A call of Next is one step, since it
-- holds the lock; it takes its two clock readings as arguments.
-- Gateway/TimeService: what the gateway sees of the time-service, as a record with the law Issues;
-- its child Clock is crates/time-service/src/lib.rs.
-- Gateway/Identity: apps/fairness-gateway/gateway/identity.go.
-- Gateway/Fork: apps/fairness-gateway/gateway/fork.go. The two goroutines are threads, a schedule says
-- which moves next, and waiting for both runs whatever the schedule left.
-- Gateway/Server: apps/fairness-gateway/gateway/server.go; its child Ws is
-- apps/fairness-gateway/transport/ws.go, Session is a sequence of requests, Recorded is what one request
-- leaves with the services. Server/Parallel is the server under net/http, whose handlers run at once: a
-- schedule says which handler or goroutine moves at each turn.
-- Gateway/FileSink: apps/fairness-gateway/gateway/sink_file.go. Gateway/Config and Gateway/Main:
-- apps/fairness-gateway/config/config.go and main.go; Main/Handover is the gateway in its pod.
-- Gateway/Proto: the fields of pkg/proto/ironbook/v1 that the gateway uses.
-- Kube: the fields of Pod and its parts that the repository reads or writes.
-- Admission/Policy: apps/admission-webhook/policy/policy.go; Admission/Webhook and Admission/Main:
-- handle and main of apps/admission-webhook/main.go.
-- Operator/Types: apps/benchmark-operator/api/v1. Operator/Client: the client of the API server, a
-- record of operations over an unknown state. Operator/Flow: handlers that may return early.
-- Operator/Phases, Operator/Gate, Operator/Pods, Operator/Run:
-- apps/benchmark-operator/internal/controller/benchmarkrun_controller.go. Operator/Recorded wraps a
-- client so that it keeps a log of the requests to write; Operator/Run/Willing and Operator/Run/Deletes
-- say what a server does with what it is sent, and Operator/Run/Polls how a run waits for its pods.
-- Operator/Resources: the reconcilers of submissions, scenarios and bot swarms, with Resources/Again, a
-- second reconciliation. Operator/Sandbox: the submission pod under the policy.
-- Operator/Main: apps/benchmark-operator/cmd/main.go from the parsed flags on.
-- Coordinator/Schedule and Coordinator/Dispatcher: apps/bot-coordinator/coordinator, with
-- Coordinator/Forwarding, the dispatcher with the gateway behind it, for posts that are answered;
-- Coordinator/Main: apps/bot-coordinator/main.go, with Main/Handover, the coordinator in its pod.
-- Submission/Store: what the submission-api sees of the object store, the table and the API server;
-- Submission/Dispatch: apps/submission-api/dispatcher/dispatcher.go; Submission/Upload:
-- apps/submission-api/service/service.go, repo/minio.go and server/server.go; Submission/Config and
-- Submission/Main: config/config.go and main.go there.
-- Builder/Paths: filepath.Clean and filepath.Join on the elements of a path; Builder/Extract:
-- ExtractTarGz of apps/build-runner/builder/compile.go; Builder/Compile: its toolchains; Builder/Image:
-- apps/build-runner/builder/builder.go; Builder/Config: apps/build-runner/config/config.go;
-- Builder/Runner: the build of apps/build-runner/main.go and the choice of a toolchain;
-- Builder/Start: its main from the environment on, with Start/Handover, the build in its job.
-- Table: the table of submissions that the submission-api and the build-runner share: the statements
-- of repo/postgres.go and of apps/build-runner/main.go on its rows.
-- The modules named Examples hold the tests.
--
-- Numbers: uint64 fields are natural numbers, and each sum that the source wraps is written with
-- % 2 ^ 64; int64 values are signed integers, with the conversion to uint64 written out. No
-- definition needs fuel but the printing of decimals, where the number itself is enough. Where a
-- result needs numbers to stay below 2 ^ 64, it says so.
--
-- Parameters: SHA-256, the JSON encoders and decoders, the remote services, the API server, the helpers of
-- controller-runtime, math/rand, the clock, the timer, the HTTP client, the commands of the toolchains,
-- the file system, the image library, envconfig, the clients of PostgreSQL and MinIO, and Kubernetes'
-- treatment of environment variables are not part of the repository. Each is an argument, with what
-- the code relies on as a named law.
--
-- Not modelled: the modes of extracted files, ProbeBase of the builder, the parsing of flags,
-- generated code, and the Rust crates but for the counter of the time-service. Failed writes of
-- replies to a client are ignored, as in the source. What a process logs is left out.
pub mod Common
pub mod Envconfig
pub mod Clients
pub mod Gateway
pub mod Kube
pub mod Admission
pub mod Operator
pub mod Coordinator
pub mod Submission
pub mod Builder
pub mod Table
