-- ===== src/Table.antt =====
-- The table of submissions, which the submission-api and the build-runner share: what the
-- statements of apps/submission-api/repo/postgres.go and apps/build-runner/main.go do to its rows,
-- under the constraints of deploy/manifests/base/postgres/migrations/002_submissions.sql.
pub mod Rows
pub mod Uploads
pub mod History
pub mod Again
pub mod Updates
pub mod Builds
pub mod Examples
use iron_book.Common.{
  ℕ, String, Bool, true, false, not, ◌&&◌, ◌||◌, List, [], ◌∷◌, ◌++◌, Option, none, some, str_eq,
  if◌then◌else◌,
}
use iron_book.Common.Bytes.Equality.{bytes_eq}
use iron_book.Common.Result.{Result, ok, err}
use iron_book.Submission.Store.{
  Backends, Row, Inserted, inserted, submission_exists, insert_error, Job, JobGot,
}
use iron_book.Builder.Runner.{Tools, Update, set_building, set_ready, set_rejected}

-- A row with its optional columns and its times.
pub record Stored : Type 0 where
  pub row : Row
  pub image_digest : Option String
  pub reject_reason : Option String
  pub created_at : ℕ
  pub updated_at : ℕ

-- The constraints on the columns `language` and `status`.
abbrev pub language_check : String → Bool
language_check s = str_eq s "rust" || (str_eq s "go" || str_eq s "cpp")

abbrev pub status_check : String → Bool
status_check s =
    str_eq s "PENDING" || (str_eq s "BUILDING" || (str_eq s "READY" || str_eq s "REJECTED"))

-- The unique columns: the primary key and the digest.
abbrev pub clashes : Row → Stored → Bool
clashes r q = bytes_eq q.row.sha256 r.sha256 || str_eq r.id q.row.id

unfoldable pub any_clash : Row → List Stored → Bool
any_clash r [] = false
any_clash r (q ∷ rows) = clashes r q || any_clash r rows

-- A new row: the times default to `now()`.
abbrev pub fresh_row : ℕ → Row → Stored
fresh_row now r = record {
  row = r;
  image_digest = none;
  reject_reason = none;
  created_at = now;
  updated_at = now;
}

-- `INSERT` at the time `now`, with the text of a violated check.
unfoldable pub exec_insert : String → ℕ → Row → List Stored → Inserted × List Stored
unfolding any_clash
exec_insert violation now r rows =
    if language_check r.language && status_check r.status
    then (if any_clash r rows
        then (submission_exists, rows)
        else (inserted, rows ++ fresh_row now r ∷ []))
    else (insert_error violation, rows)

-- `SELECT … WHERE sha256 = $1`.
unfoldable pub select_by_sha256 : List ℕ → List Stored → Option Row
select_by_sha256 sha [] = none
select_by_sha256 sha (q ∷ rows) =
    if bytes_eq q.row.sha256 sha then some q.row else select_by_sha256 sha rows

abbrev pub with_status : String → Stored → Stored
with_status status q = record q { row = record q.row { status = status } }

-- The columns that an `UPDATE` sets: that of `setStatus`, `setStatusReady`, `setStatusReject`.
abbrev pub changed : ℕ → Update → Stored → Stored
changed now set_building q = record (with_status "BUILDING" q) { updated_at = now }
changed now (set_ready reference) q = record (with_status "READY" q) {
  image_digest = some reference;
  updated_at = now;
}
changed now (set_rejected reason) q = record (with_status "REJECTED" q) {
  reject_reason = some reason;
  updated_at = now;
}

-- `UPDATE … WHERE sha256=$1` at the time `now`; it is no error where there is no such row.
unfoldable pub exec_update : ℕ → List ℕ → Update → List Stored → List Stored
exec_update now sha u [] = []
exec_update now sha u (q ∷ rows) =
    (if bytes_eq q.row.sha256 sha then changed now u q else q) ∷ exec_update now sha u rows

-- What else the two programs call; a statement may fail before it is executed.
pub record Around : Type 1 where
  pub World : Type 0
  pub put_object : String → List ℕ → World → Option String × World
  pub get_job : String → String → World → JobGot
  pub create_job : Job → World → Option String × World
  pub connect : World → Option String × World
  -- `now()` of the database.
  pub clock : World → ℕ
  pub violation : String
  pub no_rows : String

pub record State (W : Type 0) : Type 0 where
  pub rows : List Stored
  pub rest : W

-- The answer of a call that leaves the rows alone.
abbrev pub beside : {A W : Type 0} → List Stored → A × W → A × State W
beside rows (x, w) = (x, record { rows = rows; rest = w })

module _ (a : Around) where
  unfoldable pub inserted_by :
      Row → List Stored → Option String × a.World → Inserted × State a.World
  unfolding exec_insert
  inserted_by r rows (some e, w) = (insert_error e, record { rows = rows; rest = w })
  inserted_by r rows (none, w) =
      let (x, rows') = exec_insert a.violation (a.clock w) r rows in
      (x, record { rows = rows'; rest = w })

  abbrev pub scanned : Option Row → Result Row
  scanned none = err a.no_rows
  scanned (some r) = ok r

  unfoldable pub found_by : List ℕ → List Stored → Option String → Result Row
  unfolding select_by_sha256
  found_by sha rows (some e) = err e
  found_by sha rows none = scanned (select_by_sha256 sha rows)

  -- What the submission-api sees.
  abbrev pub database : Backends
  database = record {
    World = State a.World;
    put_object = λ key body s. beside s.rows (a.put_object key body s.rest);
    insert = λ r s. inserted_by r s.rows (a.connect s.rest);
    by_sha256 = λ sha s. found_by sha s.rows (a.connect s.rest).0;
    get_job = λ namespace name s. a.get_job namespace name s.rest;
    create_job = λ job s. beside s.rows (a.create_job job s.rest);
  }

module _ (sha : List ℕ) (t : Tools) (clock : t.World → ℕ) where
  abbrev pub updated_by :
      Update → List Stored → Option String × t.World → Option String × State t.World
  updated_by u rows (some e, w) = (some e, record { rows = rows; rest = w })
  updated_by u rows (none, w) = (none, record { rows = exec_update (clock w) sha u rows; rest = w })

  -- What the build-runner sees, with the digest that it decoded; `t.update` tells whether a
  -- statement is executed, `clock` the time at which it is.
  abbrev pub on_table : Tools
  on_table = record {
    World = State t.World;
    Object = t.Object;
    get_object = λ s. beside s.rows (t.get_object s.rest);
    mkdir_src = λ s. beside s.rows (t.mkdir_src s.rest);
    extract = λ object s. beside s.rows (t.extract object s.rest);
    compile_rust = λ s. beside s.rows (t.compile_rust s.rest);
    compile_go = λ s. beside s.rows (t.compile_go s.rest);
    compile_cpp = λ s. beside s.rows (t.compile_cpp s.rest);
    build = λ path s. beside s.rows (t.build path s.rest);
    update = λ u s. updated_by u s.rows (t.update u s.rest);
    quote = t.quote;
  }
