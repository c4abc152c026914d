-- ===== src/Table/Uploads.antt =====
-- What one upload does to the rows (apps/submission-api/service/service.go), and that a second
-- upload of an archive finds the first.
use iron_book.Common.{
  ℕ, String, ◌≡◌, refl, ◌∙◌, false, List, [], ◌∷◌, ◌++◌, Option, none, some, length,
}
use iron_book.Common.Result.{Result, ok, err}
use iron_book.Submission.Store.{Row, Inserted, JobGot, job_found, job_missing, job_error}
use iron_book.Submission.Dispatch.{Dispatcher, Inputs, dispatch, dispatch_got}
use iron_book.Submission.Upload.{
  UploadResult, new_row, reported, sha_of, dispatched, deduped, after_insert, after_put, upload,
}
use iron_book.Submission.Upload.Results.{dispatched-ok}
use iron_book.Table.{
  Stored, any_clash, fresh_row, select_by_sha256, Around, State, inserted_by, scanned, found_by,
  database,
}
use iron_book.Table.Rows.{Ends, added, clashed, violated, exec_insert-Ends}

-- How an upload may end, with its answer and the rows that it leaves.
pub data Outcome (id language : String) (sha : List ℕ) (size : ℕ) (rows : List Stored)
    (r : Result UploadResult) (rows' : List Stored) : Type 0 where
  failed : (e : String) → r ≡ err e → rows' ≡ rows → Outcome id language sha size rows r rows'
  found :
      (row : Row)
      → select_by_sha256 sha rows ≡ some row
      → r ≡ ok (reported row.id sha size)
      → rows' ≡ rows
      → Outcome id language sha size rows r rows'
  fresh :
      (now : ℕ)
      → any_clash (new_row id sha language) rows ≡ false
      → ((x : UploadResult) → r ≡ ok x → x ≡ reported id sha size)
      → rows' ≡ rows ++ fresh_row now (new_row id sha language) ∷ []
      → Outcome id language sha size rows r rows'

module _ (digest : List ℕ → List ℕ) (a : Around) where
  abbrev sha : List ℕ → List ℕ
  sha = sha_of digest (database a)

  dispatch_got-rows :
      (d : Dispatcher) (i : Inputs) (x : JobGot) (s : State a.World)
      → (dispatch_got (database a) d i x s).1.rows ≡ s.rows
  dispatch_got-rows d i job_found s = refl
  dispatch_got-rows d i job_missing s = refl
  dispatch_got-rows d i (job_error e) s = refl

  dispatched-rows :
      (disp : Option Dispatcher) (id language : String) (body : List ℕ) (s : State a.World)
      → (dispatched digest (database a) disp id language body s).1.rows ≡ s.rows
  unfolding dispatched dispatch
  dispatched-rows none id language body s = refl
  dispatched-rows (some d) id language body s = dispatch_got-rows d _ _ s

  dispatched-fresh :
      (disp : Option Dispatcher) (id language : String) (body : List ℕ) (rows : List Stored)
      (now : ℕ) (s : State a.World)
      → any_clash (new_row id (sha body) language) rows ≡ false
      → s.rows ≡ rows ++ fresh_row now (new_row id (sha body) language) ∷ []
      → let (r, s') = dispatched digest (database a) disp id language body s in
        Outcome id language (sha body) (length body) rows r s'.rows
  dispatched-fresh disp id language body rows now s free e =
      fresh now free (λ x h. (dispatched-ok digest (database a) disp id language body s x h).1)
        (dispatched-rows disp id language body s ∙ e)

  deduped-Outcome :
      (id language : String) (body : List ℕ) (rows : List Stored) (x : Option Row)
      → select_by_sha256 (sha body) rows ≡ x
      → Outcome id language
          (sha body)
          (length body)
          rows
          (deduped digest (database a) body (scanned a x))
          rows
  unfolding deduped
  deduped-Outcome id language body rows none e = failed _ refl refl
  deduped-Outcome id language body rows (some row) e = found row e refl refl

  clashed-Outcome :
      (id language : String) (body : List ℕ) (rows : List Stored) (c : Option String)
      → Outcome id language
          (sha body)
          (length body)
          rows
          (deduped digest (database a) body (found_by a (sha body) rows c))
          rows
  unfolding deduped found_by
  clashed-Outcome id language body rows (some e) = failed _ refl refl
  clashed-Outcome id language body rows none = deduped-Outcome id language body rows _ refl

  -- After the answer of an `INSERT` that was executed.
  executed-Outcome :
      (disp : Option Dispatcher) (id language : String) (body : List ℕ) (rows : List Stored)
      (now : ℕ) (w : a.World) (x : Inserted × List Stored)
      → Ends a.violation now (new_row id (sha body) language) rows x
      → let (r, s') =
          after_insert digest
            (database a)
            disp
            id
            language
            body
            x.0
            (record { rows = x.1; rest = w }) in
        Outcome id language (sha body) (length body) rows r s'.rows
  unfolding after_insert
  executed-Outcome disp id language body rows now w x (added free e) =
      rw e (dispatched-fresh disp id language body rows now _ free refl)
  executed-Outcome disp id language body rows now w x (clashed clash e) =
      rw e (clashed-Outcome id language body rows (a.connect w).0)
  executed-Outcome disp id language body rows now w x (violated v e) = rw e (failed _ refl refl)

  inserted_by-Outcome :
      (disp : Option Dispatcher) (id language : String) (body : List ℕ) (rows : List Stored)
      (c : Option String × a.World)
      → let (x, s) = inserted_by a (new_row id (sha body) language) rows c in
        let (r, s') = after_insert digest (database a) disp id language body x s in
        Outcome id language (sha body) (length body) rows r s'.rows
  unfolding inserted_by after_insert
  inserted_by-Outcome disp id language body rows (some e, w) = failed _ refl refl
  inserted_by-Outcome disp id language body rows (none, w) =
      executed-Outcome disp id language body rows _ w _ (exec_insert-Ends a.violation _ _ rows)

  after_put-Outcome :
      (disp : Option Dispatcher) (id language : String) (body : List ℕ) (e : Option String)
      (s : State a.World)
      → let (r, s') = after_put digest (database a) disp id language body e s in
        Outcome id language (sha body) (length body) s.rows r s'.rows
  unfolding after_put
  after_put-Outcome disp id language body (some e) s = failed _ refl refl
  after_put-Outcome disp id language body none s =
      inserted_by-Outcome disp id language body s.rows (a.connect s.rest)

  pub upload-Outcome :
      (disp : Option Dispatcher) (id language : String) (body : List ℕ) (s : State a.World)
      → let (r, s') = upload digest (database a) disp id language (ok body) s in
        Outcome id language (sha body) (length body) s.rows r s'.rows
  unfolding upload
  upload-Outcome disp id language body s = after_put-Outcome disp id language body _ _
