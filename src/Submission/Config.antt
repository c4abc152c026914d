-- ===== src/Submission/Config.antt =====
-- apps/submission-api/config/config.go.
use iron_book.Common.{String, Bool}
use iron_book.Common.Result.{Result, ok, ◌>>=◌}
use iron_book.Envconfig.{Envconfig, Environment, required_field, default_field}

pub record Config : Type 0 where
  pub http_addr : String
  pub grpc_addr : String
  pub postgres_dsn : String
  pub minio_endpoint : String
  pub minio_access_key : String
  pub minio_secret_key : String
  pub minio_bucket : String
  pub minio_use_ssl : Bool

unfoldable pub load : Envconfig → Environment → Result Config
load e env = do
  http_addr ← e.text (default_field "HTTP_ADDR" ":8080") env
  grpc_addr ← e.text (default_field "GRPC_ADDR" ":9090") env
  postgres_dsn ← e.text (required_field "POSTGRES_DSN") env
  minio_endpoint ← e.text (required_field "MINIO_ENDPOINT") env
  minio_access_key ← e.text (required_field "MINIO_ACCESS_KEY") env
  minio_secret_key ← e.text (required_field "MINIO_SECRET_KEY") env
  minio_bucket ← e.text (default_field "MINIO_BUCKET" "submissions") env
  minio_use_ssl ← e.boolean (default_field "MINIO_USE_SSL" "false") env
  ok (record {
    http_addr = http_addr;
    grpc_addr = grpc_addr;
    postgres_dsn = postgres_dsn;
    minio_endpoint = minio_endpoint;
    minio_access_key = minio_access_key;
    minio_secret_key = minio_secret_key;
    minio_bucket = minio_bucket;
    minio_use_ssl = minio_use_ssl;
  })
