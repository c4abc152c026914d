-- ===== src/Table/Again.antt =====
-- A second upload of an archive finds the row of the first, whatever happened in between
-- (apps/submission-api/service/service.go, repo/postgres.go).
use iron_book.Common.{
  ℕ, String, ◌≡◌, refl, sym, ◌∙◌, ap, inl, inr, Bool, true, false, ◌||◌, List, [], ◌∷◌, ◌++◌,
  Option, none, some, length, Bool-cases,
}
use iron_book.Common.Bytes.Equality.{bytes_eq}
use iron_book.Common.Result.{Result, ok, err}
use iron_book.Submission.Store.{Row}
use iron_book.Submission.Dispatch.{Dispatcher}
use iron_book.Submission.Upload.{
  UploadResult, new_row, object_key, reported, sha_of, deduped, after_insert, after_put, upload,
}
use iron_book.Table.{
  Stored, language_check, any_clash, exec_insert, select_by_sha256, Around, State, inserted_by,
  found_by, database,
}
use iron_book.Table.Rows.{select-append, select-update, id_of}
use iron_book.Table.History.{Op, upload_op, update_op, run_op, run_ops}
use iron_book.Table.Uploads.{Outcome, failed, found, fresh, upload-Outcome}

select-clash :
    (id language : String) (sha : List ℕ) (rows : List Stored) (row : Row)
    → select_by_sha256 sha rows ≡ some row
    → any_clash (new_row id sha language) rows ≡ true
unfolding select_by_sha256 any_clash
select-clash id language sha [] row h = cc
select-clash id language sha (q ∷ rows) row h = elim (Bool-cases (bytes_eq q.row.sha256 sha)) [
  | inl hit ↦ rw hit
  | inr miss ↦ rw miss (or-true _ (select-clash id language sha rows row (rw miss at h)))
]
  where
    or-true : (x : Bool) {y : Bool} → y ≡ true → (x || y) ≡ true
    or-true true h = refl
    or-true false h = h

select-more :
    (sha : List ℕ) (rows more : List Stored) (id : String)
    → id_of (select_by_sha256 sha rows) ≡ some id
    → id_of (select_by_sha256 sha (rows ++ more)) ≡ some id
unfolding select_by_sha256
select-more sha [] more id h = cc
select-more sha (q ∷ rows) more id h = elim (Bool-cases (bytes_eq q.row.sha256 sha)) [
  | inl hit ↦ rw hit (rw hit at h)
  | inr miss ↦ rw miss (select-more sha rows more id (rw miss at h))
]

id_of-some :
    (x : Option Row) (id : String)
    → id_of x ≡ some id
    → (row : Row) × (x ≡ some row) × (row.id ≡ id)
id_of-some none id h = cc
id_of-some (some row) id h = (row, refl, cc)

module _ (digest : List ℕ → List ℕ) (a : Around) where
  abbrev sha : List ℕ → List ℕ
  sha = sha_of digest (database a)

  -- The id that a digest finds.
  abbrev Holds : List ℕ → String → State a.World → Type 0
  Holds key id s = id_of (select_by_sha256 key s.rows) ≡ some id

  Outcome-Holds :
      (key : List ℕ) (held id language : String) (body : List ℕ) (rows : List Stored)
      (r : Result UploadResult) (rows' : List Stored)
      → Outcome id language (sha body) (length body) rows r rows'
      → id_of (select_by_sha256 key rows) ≡ some held
      → id_of (select_by_sha256 key rows') ≡ some held
  Outcome-Holds key held id language body rows r rows' (failed m e same) h = rw same h
  Outcome-Holds key held id language body rows r rows' (found row s e same) h = rw same h
  Outcome-Holds key held id language body rows r rows' (fresh now free e more) h =
      rw more (select-more key rows _ held h)

  run_op-Holds :
      (op : Op) (key : List ℕ) (held : String) (s : State a.World)
      → Holds key held s
      → Holds key held (run_op digest a op s)
  unfolding upload run_op
  run_op-Holds (upload_op disp id language (err e)) key held s h = h
  run_op-Holds (upload_op disp id language (ok body)) key held s h =
      Outcome-Holds key held id language body s.rows _ _
        (upload-Outcome digest a disp id language body s) h
  run_op-Holds (update_op now sha' u) key held s h = select-update now key sha' u s.rows ∙ h

  run_ops-Holds :
      (ops : List Op) (key : List ℕ) (held : String) (s : State a.World)
      → Holds key held s
      → Holds key held (run_ops digest a ops s)
  unfolding run_ops
  run_ops-Holds [] key held s h = h
  run_ops-Holds (op ∷ ops) key held s h =
      run_ops-Holds ops key held (run_op digest a op s) (run_op-Holds op key held s h)

  -- After an upload that gave a result, the digest finds the id of the result.
  Outcome-finds :
      (id language : String) (body : List ℕ) (rows : List Stored) (x : UploadResult)
      (r : Result UploadResult) (rows' : List Stored)
      → Outcome id language (sha body) (length body) rows r rows'
      → r ≡ ok x
      → (held : String) × (x ≡ reported held (sha body) (length body))
        × (id_of (select_by_sha256 (sha body) rows') ≡ some held)
  Outcome-finds id language body rows x r rows' (failed m e same) h = cc
  Outcome-finds id language body rows x r rows' (found row s e same) h =
      (row.id, (let k = sym h ∙ e in cc), rw same (ap id_of s))
  Outcome-finds id language body rows x r rows' (fresh now free e more) h =
      (id, e x h, rw more (ap id_of (select-append now (new_row id (sha body) language) rows free)))

  -- An upload whose calls succeed, where the digest finds a row, gives the id of that row.
  upload-found :
      (disp : Option Dispatcher) (id language : String) (body : List ℕ) (s : State a.World)
      (row : Row)
      → select_by_sha256 (sha body) s.rows ≡ some row
      → language_check language ≡ true
      → let put = a.put_object (object_key (sha body)) body s.rest in
        let sent = a.connect put.1 in
        put.0 ≡ none
        → sent.0 ≡ none
        → (a.connect sent.1).0 ≡ none
        → (upload digest (database a) disp id language (ok body) s).0
          ≡ ok (reported row.id (sha body) (length body))
  unfolding upload after_put inserted_by exec_insert after_insert deduped found_by
  upload-found disp id language body s row here fits stored reached again =
      rw (stored, reached, fits, select-clash id language (sha body) s.rows row here, again, here)

  -- An archive that was uploaded with a result is answered with the same result when it is uploaded
  -- again, with any valid language, whatever uploads and updates of rows happened in between, as
  -- long as the calls of the second upload succeed.
  pub upload_again :
      (disp : Option Dispatcher) (id language : String) (body : List ℕ) (s : State a.World)
      (r : UploadResult) (ops : List Op) (disp' : Option Dispatcher) (id' language' : String)
      → let first = upload digest (database a) disp id language (ok body) s in
        let s' = run_ops digest a ops first.1 in
        let put = a.put_object (object_key (sha body)) body s'.rest in
        let sent = a.connect put.1 in
        first.0 ≡ ok r
        → language_check language' ≡ true
        → put.0 ≡ none
        → sent.0 ≡ none
        → (a.connect sent.1).0 ≡ none
        → (upload digest (database a) disp' id' language' (ok body) s').0 ≡ ok r
  upload_again disp id language body s r ops disp' id' language' h fits stored reached again =
      let first = upload digest (database a) disp id language (ok body) s in
      let s' = run_ops digest a ops first.1 in
      let (held, given, here) =
        Outcome-finds id language body s.rows r first.0 first.1.rows
          (upload-Outcome digest a disp id language body s) h in
      let (row, at, same) =
        id_of-some (select_by_sha256 (sha body) s'.rows) held
          (run_ops-Holds ops (sha body) held first.1 here) in
      upload-found disp' id' language' body s' row at fits stored reached again
      ∙ ap (λ i. ok (reported i (sha body) (length body))) same
      ∙ ap ok (sym given)
