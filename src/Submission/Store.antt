-- ===== src/Submission/Store.antt =====
-- What the submission-api sees of its backends, which are third-party services: the object store,
-- the table of submissions, and the API server that runs the build jobs
-- (apps/submission-api/repo/postgres.go, repo/minio.go).
use iron_book.Common.{ℕ, String, ◌≡◌, ◌≢◌, List, [], ◌∷◌, ◌++◌, Option, All}
use iron_book.Common.Result.{Result}

-- A row of the table, with the columns that the program writes.
pub record Row : Type 0 where
  pub id : String
  pub sha256 : List ℕ
  pub language : String
  pub status : String

-- What the `INSERT` answers: a violation of a unique column is told apart.
pub data Inserted : Type 0 where
  inserted submission_exists : Inserted
  insert_error : String → Inserted

-- What `Jobs(ns).Get` answers.
pub data JobGot : Type 0 where
  job_found job_missing : JobGot
  job_error : String → JobGot

-- An environment variable of a job: a value, or a key of a secret.
pub data EnvSource : Type 0 where
  env_value : String → EnvSource
  env_secret : String → String → EnvSource

-- `batchv1.Job`, with the fields that `Dispatch` sets.
pub record Job : Type 0 where
  pub name : String
  pub namespace : String
  pub labels : List (String × String)
  pub backoff_limit : ℕ
  pub ttl_seconds_after_finished : ℕ
  pub restart_policy : String
  pub service_account_name : String
  pub container_name : String
  pub image : String
  pub env : List (String × EnvSource)
  pub volume_mounts : List (String × String)
  pub volumes : List String

pub record Backends : Type 1 where
  pub World : Type 0
  -- The key, relative to the bucket, and the bytes.
  pub put_object : String → List ℕ → World → Option String × World
  pub insert : Row → World → Inserted × World
  pub by_sha256 : List ℕ → World → Result Row
  pub get_job : String → String → World → JobGot
  pub create_job : Job → World → Option String × World

-- The digests that the rows of a table hold, pairwise different.
abbrev pub UniqueDigests : List Row → Type 0
UniqueDigests [] = Unit
UniqueDigests (r ∷ rows) = All (λ (q : Row). q.sha256 ≢ r.sha256) rows × UniqueDigests rows

-- The table with its unique column: an `INSERT` that succeeds adds its row, whose digest no row
-- had; one that does not adds nothing, and neither do the other backends.
pub record IsTable (b : Backends) : Type 0 where
  pub rows : b.World → List Row
  pub adds :
      (r : Row) (w : b.World)
      → (b.insert r w).0 ≡ inserted
      → (rows (b.insert r w).1 ≡ rows w ++ r ∷ []) × All (λ (q : Row). r.sha256 ≢ q.sha256) (rows w)
  pub refuses :
      (r : Row) (w : b.World) → (b.insert r w).0 ≢ inserted → rows (b.insert r w).1 ≡ rows w
  pub puts_nothing :
      (key : String) (body : List ℕ) (w : b.World) → rows (b.put_object key body w).1 ≡ rows w
  pub jobs_nothing : (job : Job) (w : b.World) → rows (b.create_job job w).1 ≡ rows w
