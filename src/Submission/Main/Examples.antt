-- ===== src/Submission/Main/Examples.antt =====
-- The start of the server at a concrete input: the world says whether the bucket is there.
use iron_book.Common.{String, ◌≡◌, refl, ap, sym, Bool, true, false, none, some}
use iron_book.Common.Result.{ok, err}
use iron_book.Clients.Miniclient.{MinioGo}
use iron_book.Clients.Miniclient.Bucket.{IsStore}
use iron_book.Submission.Config.{Config}
use iron_book.Submission.Main.{Outside, ServiceOf, prepare}
use iron_book.Submission.Main.Bucket.{prepare-has}

abbrev store : MinioGo Bool
store = record {
  Inner = String;
  new_inner = λ endpoint access secret ssl. ok endpoint;
  bucket_exists = λ inner bucket w. (ok w, w);
  make_bucket = λ inner bucket w. (none, true);
}

store-IsStore : IsStore store
store-IsStore = record {
  has = λ w bucket. w;
  reads = λ inner bucket w w' b h. (ap (λ p. p.1) h, cc (ap (λ p. p.0) h));
  makes = λ inner bucket w w' h. sym (ap (λ p. p.1) h);
}

abbrev outside : Outside
outside = record {
  World = Bool;
  pgxpool = record {
    Config = String;
    Pool = String;
    parse_config = λ dsn. ok dsn;
    with_max_conns = λ n c. c;
    new_pool = λ c w. (ok c, w);
    ping = λ pool w. (none, w);
    close = λ pool w. w;
  };
  minio = store;
  RestConfig = String;
  Cluster = String;
  in_cluster_config = λ w. err "not in a cluster";
  new_for_config = λ config. ok config;
  listen = λ addr handlers svc w. (some "closed", w);
}

abbrev config : Config
config = record {
  http_addr = ":8080";
  grpc_addr = ":9090";
  postgres_dsn = "postgres://localhost";
  minio_endpoint = "localhost:9000";
  minio_access_key = "user";
  minio_secret_key = "password";
  minio_bucket = "submissions";
  minio_use_ssl = false;
}

abbrev service : ServiceOf outside
service = record {
  pg = "postgres://localhost";
  minio = record { inner = "localhost:9000"; bucket = "submissions" };
  disp = none;
}

-- The bucket is made.
prepare-has_example :
    (service.minio.bucket ≡ config.minio_bucket)
    × (store-IsStore.has true config.minio_bucket ≡ true)
unfolding prepare iron_book.Clients.Postgresclient.new iron_book.Clients.Miniclient.new
    iron_book.Clients.Miniclient.ensure_bucket
prepare-has_example = prepare-has outside store-IsStore config false true service refl
