-- ===== src/Table/History.antt =====
-- The table of submissions over any history of uploads and updates
-- (apps/submission-api/service/service.go, apps/build-runner/main.go).
use iron_book.Common.{
  ℕ, String, ◌≡◌, ◌≢◌, refl, ◌⊎◌, inl, inr, List, [], ◌∷◌, ◌++◌, Option, some, All, Bool-cases,
}
use iron_book.Common.Bytes.Equality.{bytes_eq}
use iron_book.Common.Result.{Result, ok, err}
use iron_book.Submission.Store.{Row, UniqueDigests}
use iron_book.Submission.Dispatch.{Dispatcher}
use iron_book.Submission.Upload.{UploadResult, upload}
use iron_book.Submission.Upload.Results.{upload-Unique}
use iron_book.Builder.Runner.{Update, set_building, set_ready, set_rejected}
use iron_book.Table.{Stored, changed, exec_update, Around, State, database}
use iron_book.Table.Rows.{rows_of, database-IsTable, changed-sha256}
use iron_book.Table.Uploads.{Outcome, failed, found, fresh, upload-Outcome}

-- What may happen to the table: an upload, or an update by a build, at a time.
pub data Op : Type 0 where
  upload_op : Option Dispatcher → String → String → Result (List ℕ) → Op
  update_op : ℕ → List ℕ → Update → Op

-- The status of a row fits its other columns.
abbrev pub IsConsistent : Stored → Type 0
IsConsistent q =
    (q.row.status ≡ "PENDING")
    ⊎ (q.row.status ≡ "BUILDING")
    ⊎ ((q.row.status ≡ "READY") × (reference : String) × (q.image_digest ≡ some reference))
    ⊎ ((q.row.status ≡ "REJECTED") × (reason : String) × (q.reject_reason ≡ some reason))

changed-IsConsistent : (now : ℕ) (u : Update) (q : Stored) → IsConsistent (changed now u q)
changed-IsConsistent now set_building q = inr (inl refl)
changed-IsConsistent now (set_ready reference) q = inr (inr (inl (refl, reference, refl)))
changed-IsConsistent now (set_rejected reason) q = inr (inr (inr (refl, reason, refl)))

update-IsConsistent :
    (now : ℕ) (key : List ℕ) (u : Update) (rows : List Stored)
    → All IsConsistent rows
    → All IsConsistent (exec_update now key u rows)
unfolding exec_update
update-IsConsistent now key u [] h = tt
update-IsConsistent now key u (q ∷ rows) h = elim (Bool-cases (bytes_eq q.row.sha256 key)) [
  | inl hit ↦ rw hit (changed-IsConsistent now u q, update-IsConsistent now key u rows h.1)
  | inr miss ↦ rw miss (h.0, update-IsConsistent now key u rows h.1)
]

append-IsConsistent :
    (rows : List Stored) (q : Stored)
    → All IsConsistent rows
    → IsConsistent q
    → All IsConsistent (rows ++ q ∷ [])
append-IsConsistent [] q h c = (c, tt)
append-IsConsistent (x ∷ rows) q h c = (h.0, append-IsConsistent rows q h.1 c)

All-update :
    (now : ℕ) (sha key : List ℕ) (u : Update) (rows : List Stored)
    → All (λ (r : Row). r.sha256 ≢ sha) (rows_of rows)
    → All (λ (r : Row). r.sha256 ≢ sha) (rows_of (exec_update now key u rows))
unfolding exec_update
All-update now sha key u [] h = tt
All-update now sha key u (q ∷ rows) h = elim (Bool-cases (bytes_eq q.row.sha256 key)) [
  | inl hit ↦ rw (hit, changed-sha256 now u q) (h.0, All-update now sha key u rows h.1)
  | inr miss ↦ rw miss (h.0, All-update now sha key u rows h.1)
]

update-Unique :
    (now : ℕ) (key : List ℕ) (u : Update) (rows : List Stored)
    → UniqueDigests (rows_of rows)
    → UniqueDigests (rows_of (exec_update now key u rows))
unfolding exec_update
update-Unique now key u [] h = tt
update-Unique now key u (q ∷ rows) h = elim (Bool-cases (bytes_eq q.row.sha256 key)) [
  | inl hit ↦
      rw (hit, changed-sha256 now u q)
        (All-update now q.row.sha256 key u rows h.0, update-Unique now key u rows h.1)
  | inr miss ↦
      rw miss (All-update now q.row.sha256 key u rows h.0, update-Unique now key u rows h.1)
]

pub record IsSound (rows : List Stored) : Type 0 where
  pub unique : UniqueDigests (rows_of rows)
  pub consistent : All IsConsistent rows

module _ (digest : List ℕ → List ℕ) (a : Around) where
  unfoldable pub run_op : Op → State a.World → State a.World
  run_op (upload_op disp id language body) s =
      (upload digest (database a) disp id language body s).1
  run_op (update_op now key u) s = record s { rows = exec_update now key u s.rows }

  unfoldable pub run_ops : List Op → State a.World → State a.World
  unfolding run_op
  run_ops [] s = s
  run_ops (op ∷ ops) s = run_ops ops (run_op op s)

  Outcome-IsConsistent :
      (id language : String) (sha : List ℕ) (size : ℕ) (rows : List Stored)
      (r : Result UploadResult) (rows' : List Stored)
      → Outcome id language sha size rows r rows'
      → All IsConsistent rows
      → All IsConsistent rows'
  Outcome-IsConsistent id language sha size rows r rows' (failed m e same) h = rw same h
  Outcome-IsConsistent id language sha size rows r rows' (found row s e same) h = rw same h
  Outcome-IsConsistent id language sha size rows r rows' (fresh now free e more) h =
      rw more (append-IsConsistent rows _ h (inl refl))

  run_op-IsSound : (op : Op) (s : State a.World) → IsSound s.rows → IsSound (run_op op s).rows
  unfolding run_op upload
  run_op-IsSound (upload_op disp id language (err e)) s v = v
  run_op-IsSound (upload_op disp id language (ok body)) s v = record {
    unique =
        upload-Unique digest (database a) (database-IsTable a) disp id language (ok body) s
          v.unique;
    consistent =
        Outcome-IsConsistent id language _ _ s.rows _ _
          (upload-Outcome digest a disp id language body s) v.consistent;
  }
  run_op-IsSound (update_op now key u) s v = record {
    unique = update-Unique now key u s.rows v.unique;
    consistent = update-IsConsistent now key u s.rows v.consistent;
  }

  -- Over any history of uploads and updates, from an empty table on, the rows have pairwise
  -- different digests, each has one of the four statuses, a row that is READY has an image, and one
  -- that is REJECTED has a reason.
  pub run_ops-IsSound :
      (ops : List Op) (s : State a.World) → IsSound s.rows → IsSound (run_ops ops s).rows
  unfolding run_ops
  run_ops-IsSound [] s v = v
  run_ops-IsSound (op ∷ ops) s v = run_ops-IsSound ops (run_op op s) (run_op-IsSound op s v)
