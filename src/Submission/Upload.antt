-- ===== src/Submission/Upload.antt =====
-- apps/submission-api/service/service.go, repo/minio.go and server/server.go: a source archive is
-- stored under its digest, a row is inserted or found, and a build job is dispatched. SHA-256 and
-- the id that `uuid.New` gives are parameters.
pub mod Results
use iron_book.Common.{
  ℕ, String, Bool, true, false, ◌||◌, List, [], ◌∷◌, Option, none, some, length, take, str_eq,
  if◌then◌else◌,
}
use iron_book.Common.Text.{concat}
use iron_book.Common.Bytes.{hex}
use iron_book.Common.Result.{Result, ok, err}
use iron_book.Submission.Store.{Backends, Row, Inserted, inserted, submission_exists, insert_error}
use iron_book.Submission.Dispatch.{Dispatcher, Inputs, dispatch}

pub record UploadResult : Type 0 where
  pub id : String
  pub sha256 : List ℕ
  pub size : ℕ

-- The row that an upload inserts.
abbrev pub new_row : String → List ℕ → String → Row
new_row id sha language = record { id = id; sha256 = sha; language = language; status = "PENDING" }

abbrev pub inputs_of : String → List ℕ → String → Inputs
inputs_of id sha language = record { submission_id = id; sha256_hex = hex sha; language = language }

abbrev pub object_key : List ℕ → String
object_key sha = concat (hex sha) "/source.tar.zst"

-- What is reported for an archive that was uploaded.
abbrev pub reported : String → List ℕ → ℕ → UploadResult
reported id sha size = record { id = id; sha256 = sha; size = size }

module _ (digest : List ℕ → List ℕ) (b : Backends) where
  abbrev pub sha_of : List ℕ → List ℕ
  sha_of body = take 32 (digest body)

  -- The dispatch, for a row that was inserted; `disp` may be nil.
  unfoldable pub dispatched :
      Option Dispatcher → String → String → List ℕ → b.World → Result UploadResult × b.World
  dispatched none id language body w = (ok (reported id (sha_of body) (length body)), w)
  dispatched (some d) id language body w =
      let (e, w') = dispatch b d (inputs_of id (sha_of body) language) w in
      (
        elim e [
          | none ↦ ok (reported id (sha_of body) (length body))
          | some text ↦ err (concat "dispatch build: " text)
        ],
        w',
      )

  -- The row that is there already.
  unfoldable pub deduped : List ℕ → Result Row → Result UploadResult
  deduped body (ok row) = ok (reported row.id (sha_of body) (length body))
  deduped body (err e) = err (concat "dedupe lookup: " e)

  -- `Upload` from the answer of `Insert` on.
  unfoldable pub after_insert :
      Option Dispatcher
      → String
      → String
      → List ℕ
      → Inserted
      → b.World
      → Result UploadResult × b.World
  unfolding dispatched deduped
  after_insert disp id language body inserted w = dispatched disp id language body w
  after_insert disp id language body submission_exists w =
      (deduped body (b.by_sha256 (sha_of body) w), w)
  after_insert disp id language body (insert_error e) w = (err (concat "postgres insert: " e), w)

  -- `Upload` from the answer of `PutContentAddressed` on.
  unfoldable pub after_put :
      Option Dispatcher
      → String
      → String
      → List ℕ
      → Option String
      → b.World
      → Result UploadResult × b.World
  unfolding after_insert
  after_put disp id language body (some e) w = (err (concat "minio put: " e), w)
  after_put disp id language body none w =
      let (x, w') = b.insert (new_row id (sha_of body) language) w in
      after_insert disp id language body x w'

  -- `Upload` of a body that was read, or not.
  unfoldable pub upload :
      Option Dispatcher
      → String
      → String
      → Result (List ℕ)
      → b.World
      → Result UploadResult × b.World
  unfolding after_put
  upload disp id language (err e) w = (err (concat "minio put: " e), w)
  upload disp id language (ok body) w =
      let (e, w') = b.put_object (object_key (sha_of body)) body w in
      after_put disp id language body e w'

  -- `HandleUpload`: a status with the result of an upload.
  pub data Answer : Type 0 where
    refused : ℕ → String → Answer
    uploaded : UploadResult → Answer

  abbrev pub is_language : String → Bool
  is_language lang = str_eq lang "rust" || (str_eq lang "go" || str_eq lang "cpp")

  abbrev answer_of : Result UploadResult × b.World → Answer × b.World
  answer_of (ok r, w) = (uploaded r, w)
  answer_of (err e, w) = (refused 500 e, w)

  unfoldable pub handle_upload :
      Option Dispatcher → String → String → String → Result (List ℕ) → b.World → Answer × b.World
  unfolding upload
  handle_upload disp id method lang body w =
      if str_eq method "POST"
      then (if is_language lang
          then answer_of (upload disp id lang body w)
          else (refused 400 "missing or invalid ?language= (must be rust|go|cpp)", w))
      else (refused 405 "method not allowed", w)
