-- ===== src/Submission/Main.antt =====
-- apps/submission-api/main.go: the clients are made, the bucket is ensured, the dispatcher is made
-- where there is a cluster, and the server listens. client-go and net/http are parameters.
pub mod Bucket
pub mod Examples
use iron_book.Common.{String, Option, none, some, str_eq, if◌then◌else◌}
use iron_book.Common.Result.{Result, ok, err}
use iron_book.Common.Steps.{Step, ◌>>=◌, ◌>>◌, pure, labelled, attempt, consult}
use iron_book.Envconfig.{Envconfig, Environment}
use iron_book.Clients.Postgresclient
use iron_book.Clients.Postgresclient.{Pgxpool}
use iron_book.Clients.Miniclient
use iron_book.Clients.Miniclient.{MinioGo, MinioClient, ensure_bucket}
use iron_book.Submission.Config.{Config, load}
use iron_book.Submission.Dispatch.{Dispatcher}

pub data Handler : Type 0 where
  handle_upload healthz not_found : Handler

-- The handler of a path, as `ServeMux` has cleaned it.
unfoldable pub route : String → Handler
route path =
    if str_eq path "/v1/upload"
    then handle_upload
    else if str_eq path "/healthz"
    then healthz
    else not_found

-- `svc`, with its parts: the pool, the object store, and the dispatcher with its client, or nil.
pub record Service (Pool Inner Cluster : Type 0) : Type 0 where
  pub pg : Pool
  pub minio : MinioClient Inner
  pub disp : Option (Cluster × Dispatcher)

pub record Outside : Type 1 where
  pub World : Type 0
  pub pgxpool : Pgxpool World
  pub minio : MinioGo World
  pub RestConfig : Type 0
  pub Cluster : Type 0
  pub in_cluster_config : World → Result RestConfig
  pub new_for_config : RestConfig → Result Cluster
  pub listen :
      String
      → (String → Handler)
      → Service pgxpool.Pool minio.Inner Cluster
      → World
      → Option String × World

abbrev pub build_dispatcher : Dispatcher
build_dispatcher = record { image = "ironbook/build-runner:dev"; namespace = "builds" }

module _ (o : Outside) where
  abbrev pub Starting : Type 0 → Type 0
  Starting A = Step o.World A

  abbrev with_cluster : Result o.Cluster → Result (Option (o.Cluster × Dispatcher))
  with_cluster (ok cluster) = ok (some (cluster, build_dispatcher))
  with_cluster (err e) = err e

  -- There is no dispatcher outside of a cluster.
  abbrev pub dispatcher_of : Result o.RestConfig → Result (Option (o.Cluster × Dispatcher))
  dispatcher_of (ok config) = with_cluster (o.new_for_config config)
  dispatcher_of (err e) = ok none

  abbrev pub ServiceOf : Type 0
  ServiceOf = Service o.pgxpool.Pool o.minio.Inner o.Cluster

  -- The service from the pool and the object store on.
  unfoldable pub with_clients : o.pgxpool.Pool → MinioClient o.minio.Inner → Starting ServiceOf
  with_clients pg mc = do
    labelled "ensure bucket: " (ensure_bucket o.minio mc)
    disp ← labelled "k8s client: " (consult (λ w. dispatcher_of (o.in_cluster_config w)))
    pure (record { pg = pg; minio = mc; disp = disp })

  unfoldable pub prepare : Config → Starting ServiceOf
  unfolding with_clients
  prepare cfg = do
    pg ← labelled "pg: " (Postgresclient.new o.pgxpool cfg.postgres_dsn)
    mc ← labelled "minio: " (
        consult (λ w.
          Miniclient.new o.minio cfg.minio_endpoint cfg.minio_access_key cfg.minio_secret_key
            cfg.minio_bucket cfg.minio_use_ssl))
    with_clients pg mc

  unfoldable pub main : Envconfig → Environment → Starting (Unit {0})
  unfolding prepare route
  main e env = do
    cfg ← labelled "config: " (consult (λ w. load e env))
    svc ← prepare cfg
    labelled "serve: " (attempt (o.listen cfg.http_addr route svc))
