-- ===== src/Builder/Config.antt =====
-- apps/build-runner/config/config.go.
use iron_book.Common.{String, Bool}
use iron_book.Common.Result.{Result, ok, ◌>>=◌}
use iron_book.Envconfig.{Envconfig, Environment, required_field, default_field}

pub record Config : Type 0 where
  pub submission_id : String
  pub submission_sha256 : String
  pub language : String
  pub minio_endpoint : String
  pub minio_access_key : String
  pub minio_secret_key : String
  pub minio_bucket : String
  pub minio_use_ssl : Bool
  pub registry : String
  pub postgres_dsn : String
  pub work_dir : String

unfoldable pub load : Envconfig → Environment → Result Config
load e env = do
  submission_id ← e.text (required_field "SUBMISSION_ID") env
  submission_sha256 ← e.text (required_field "SUBMISSION_SHA256") env
  language ← e.text (required_field "SUBMISSION_LANGUAGE") env
  minio_endpoint ← e.text (required_field "MINIO_ENDPOINT") env
  minio_access_key ← e.text (required_field "MINIO_ACCESS_KEY") env
  minio_secret_key ← e.text (required_field "MINIO_SECRET_KEY") env
  minio_bucket ← e.text (default_field "MINIO_BUCKET" "submissions") env
  minio_use_ssl ← e.boolean (default_field "MINIO_USE_SSL" "false") env
  registry ← e.text (default_field "REGISTRY" "registry.ironbook.svc.cluster.local:5000") env
  postgres_dsn ← e.text (required_field "POSTGRES_DSN") env
  work_dir ← e.text (default_field "WORK_DIR" "/work") env
  ok (record {
    submission_id = submission_id;
    submission_sha256 = submission_sha256;
    language = language;
    minio_endpoint = minio_endpoint;
    minio_access_key = minio_access_key;
    minio_secret_key = minio_secret_key;
    minio_bucket = minio_bucket;
    minio_use_ssl = minio_use_ssl;
    registry = registry;
    postgres_dsn = postgres_dsn;
    work_dir = work_dir;
  })
