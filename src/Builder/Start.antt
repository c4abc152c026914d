-- ===== src/Builder/Start.antt =====
-- `main` of apps/build-runner/main.go from the environment on: the configuration is loaded, the
-- clients are made, the digest is decoded, and the build of the row is run with them.
pub mod Handover
pub mod Examples
use iron_book.Common.{ℕ, String, Bool, true, false, List, [], Option, none, some, if◌then◌else◌}
use iron_book.Common.Text.{concat}
use iron_book.Common.Result.{Result, ok, err}
use iron_book.Common.Steps.{relabelled}
use iron_book.Common.Bytes.Hex.{decode_hex}
use iron_book.Envconfig.{Envconfig, Environment}
use iron_book.Clients.Postgresclient
use iron_book.Clients.Postgresclient.{Pgxpool}
use iron_book.Clients.Miniclient
use iron_book.Clients.Miniclient.{MinioGo, MinioClient}
use iron_book.Builder.Config.{Config, load}
use iron_book.Builder.Extract.{FileSystem, Header, Ending, path_of, extract_tar_gz}
use iron_book.Builder.Compile.{Machine, compile_rust, compile_go, compile_cpp}
use iron_book.Builder.Image.{Registry, Built, build}
use iron_book.Builder.Runner.{Tools, Update, Ended, main}

pub record Outside : Type 1 where
  pub files : FileSystem
  pub machine : Machine files.World
  pub registry : Registry files.World
  pub pgxpool : Pgxpool files.World
  pub minio : MinioGo files.World
  pub Object : Type 0
  -- `GetObject`, by the bucket and the key.
  pub get_object : minio.Inner → String → String → files.World → Result Object × files.World
  -- The gzip and tar readers.
  pub archive : Object → Result (List Header × Ending)
  -- An `UPDATE` of the rows with a digest.
  pub exec : pgxpool.Pool → List ℕ → Update → files.World → Option String × files.World
  pub quote : String → String

module _ (o : Outside) where
  abbrev World : Type 0
  World = o.files.World

  -- The directory of the source: `cfg.WorkDir + "/src"`.
  abbrev pub src_dir : Config → String
  src_dir cfg = concat cfg.work_dir "/src"

  -- The reference of an image that was built.
  abbrev pub reference_of : Result Built × World → Result String × World
  reference_of (ok b, w) = (ok b.reference, w)
  reference_of (err e, w) = (err e, w)

  abbrev pub without_log : {A B : Type 0} → Option String × (A × B) → Option String × A
  without_log (e, (w, log)) = (e, w)

  -- What `main` and `runBuild` call, with the configuration, the clients and the decoded digest.
  abbrev pub tools_of : Config → o.pgxpool.Pool → MinioClient o.minio.Inner → List ℕ → Tools
  tools_of cfg pool mc sha = record {
    World = o.files.World;
    Object = o.Object;
    get_object = o.get_object mc.inner mc.bucket (concat cfg.submission_sha256 "/source.tar.zst");
    mkdir_src = o.files.mkdir_all (path_of (src_dir cfg));
    extract = λ object w.
        without_log (extract_tar_gz o.files (path_of (src_dir cfg)) (o.archive object) w);
    compile_rust = compile_rust o.machine (src_dir cfg);
    compile_go = compile_go o.machine (src_dir cfg);
    compile_cpp = compile_cpp o.machine (src_dir cfg);
    build = λ path w. reference_of (build o.registry path cfg.submission_sha256 cfg.registry w);
    update = o.exec pool sha;
    quote = o.quote;
  }

  abbrev pub died : World → Ended World
  died w = record { succeeded = false; accepted = []; world = w }

  -- `defer pg.Close()`, which `log.Fatalf` and `os.Exit` skip.
  abbrev pub closed : o.pgxpool.Pool → Ended World → Ended World
  closed pool e =
      if e.succeeded
      then record e { world = Postgresclient.close o.pgxpool (some pool) e.world }
      else e

  -- `main` from the decoding on: the boolean is whether there is a digest.
  unfoldable pub with_digest :
      Config → o.pgxpool.Pool → MinioClient o.minio.Inner → Option (List ℕ) → World → Ended World
  with_digest cfg pool mc none w = closed pool (main (tools_of cfg pool mc []) false cfg.language w)
  with_digest cfg pool mc (some sha) w =
      closed pool (main (tools_of cfg pool mc sha) true cfg.language w)

  unfoldable pub with_minio :
      Config → o.pgxpool.Pool → Result (MinioClient o.minio.Inner) → World → Ended World
  unfolding with_digest
  with_minio cfg pool (err e) w = died w
  with_minio cfg pool (ok mc) w = with_digest cfg pool mc (decode_hex cfg.submission_sha256) w

  unfoldable pub with_postgres : Config → Result o.pgxpool.Pool × World → Ended World
  unfolding with_minio
  with_postgres cfg (err e, w) = died w
  with_postgres cfg (ok pool, w) =
      with_minio cfg pool
        (Miniclient.new o.minio cfg.minio_endpoint cfg.minio_access_key cfg.minio_secret_key
          cfg.minio_bucket cfg.minio_use_ssl)
        w

  unfoldable pub with_config : Result Config → World → Ended World
  unfolding with_postgres
  with_config (err e) w = died w
  with_config (ok cfg) w = with_postgres cfg (Postgresclient.new o.pgxpool cfg.postgres_dsn w)

  unfoldable pub start : Envconfig → Environment → World → Ended World
  unfolding with_config
  start e env w = with_config (load e env) w
