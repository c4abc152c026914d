-- ===== src/Submission/Examples.antt =====
-- Uploads at concrete inputs: the world is the table, ids are given once, and jobs fail.
use iron_book.Common.{ℕ, String, ◌≡◌, ◌≢◌, refl, List, [], ◌∷◌, ◌++◌, Option, none, some, All}
use iron_book.Common.Result.{Result, ok, err}
use iron_book.Submission.Store.{
  Backends, Row, Inserted, inserted, submission_exists, job_missing, IsTable,
}
use iron_book.Submission.Dispatch.{Dispatcher}
use iron_book.Submission.Upload.{after_put, after_insert, deduped, upload, reported, new_row}
use iron_book.Submission.Upload.Results.{Explained, upload-Explained}

-- The table of at most one row.
abbrev add_row : Row → List Row → Inserted × List Row
add_row r [] = (inserted, r ∷ [])
add_row r (q ∷ rows) = (submission_exists, q ∷ rows)

abbrev first_row : List Row → Result Row
first_row [] = err "no rows"
first_row (r ∷ rows) = ok r

abbrev small : Backends
small = record {
  World = List Row;
  put_object = λ key body w. (none, w);
  insert = add_row;
  by_sha256 = λ sha w. first_row w;
  get_job = λ namespace name w. job_missing;
  create_job = λ job w. (some "forbidden", w);
}

small-adds :
    (r : Row) (w : List Row)
    → (add_row r w).0 ≡ inserted
    → ((add_row r w).1 ≡ w ++ r ∷ []) × All (λ (q : Row). r.sha256 ≢ q.sha256) w
small-adds r [] h = (refl, tt)
small-adds r (q ∷ rows) h = cc

small-refuses : (r : Row) (w : List Row) → (add_row r w).0 ≢ inserted → (add_row r w).1 ≡ w
small-refuses r [] h = absurd (h refl)
small-refuses r (q ∷ rows) h = refl

abbrev small-IsTable : IsTable small
small-IsTable = record {
  rows = λ w. w;
  adds = small-adds;
  refuses = small-refuses;
  puts_nothing = λ key body w. refl;
  jobs_nothing = λ job w. refl;
}

abbrev constant_digest : List ℕ → List ℕ
constant_digest body = 1 ∷ 2 ∷ []

abbrev dispatcher : Dispatcher
dispatcher = record { image = "ironbook/build-runner:dev"; namespace = "" }

-- The row that an upload left whose build could not be dispatched.
abbrev left_row : Row
left_row = new_row "a" (1 ∷ 2 ∷ []) "go"

upload-Explained_example :
    (Path (Option String) none none)
    × Explained constant_digest small
        (some dispatcher)
        "b"
        "go"
        (7 ∷ [])
        (left_row ∷ [])
        (reported "a" (1 ∷ 2 ∷ []) 1)
        (upload constant_digest small (some dispatcher) "b" "go" (ok (7 ∷ [])) (left_row ∷ [])).1
unfolding upload after_put after_insert deduped
upload-Explained_example =
    upload-Explained constant_digest small (some dispatcher) "b" "go" (7 ∷ []) (left_row ∷ [])
      (reported "a" (1 ∷ 2 ∷ []) 1) refl
