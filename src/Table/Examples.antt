-- ===== src/Table/Examples.antt =====
-- A table at concrete inputs: all calls succeed, and the digest of an archive is the archive.
use iron_book.Common.{ℕ, ◌+◌, ◌≡◌, refl, true, List, [], ◌∷◌, map, none, some}
use iron_book.Common.Bytes.Equality.{bytes_eq}
use iron_book.Common.Result.{Result, ok, err}
use iron_book.Submission.Store.{job_missing}
use iron_book.Submission.Dispatch.{Dispatcher, dispatch}
use iron_book.Submission.Upload.{UploadResult, upload, reported}
use iron_book.Builder.Runner.{Tools, set_building, set_ready, set_rejected, main}
use iron_book.Table.{
  Stored, Around, State, database, on_table, exec_insert, exec_update, inserted_by,
}
use iron_book.Table.History.{Op, upload_op, update_op, run_ops, IsSound, run_ops-IsSound}
use iron_book.Table.Again.{upload_again}
use iron_book.Table.Builds.{Left, main-Left}

abbrev itself : List ℕ → List ℕ
itself body = body

abbrev around : Around
around = record {
  World = ℕ;
  put_object = λ key body w. (none, w + 1);
  get_job = λ namespace name w. job_missing;
  create_job = λ job w. (none, w + 1);
  connect = λ w. (none, w + 1);
  clock = λ w. w;
  violation = "violates check constraint";
  no_rows = "no rows in result set";
}

abbrev empty : State ℕ
empty = record { rows = []; rest = 0 }

abbrev dispatcher : Dispatcher
dispatcher = record { image = "ironbook/build-runner:dev"; namespace = "" }

abbrev between : List Op
between =
    update_op 20 (7 ∷ []) set_building
    ∷ upload_op (some dispatcher) "b" "cpp" (ok (8 ∷ []))
    ∷ update_op 30 (8 ∷ []) (set_rejected "cmake: exit status 1")
    ∷ update_op 40 (7 ∷ []) (set_ready "registry/sub/07@sha256:1")
    ∷ []

abbrev history : List Op
history = upload_op (some dispatcher) "a" "go" (ok (7 ∷ [])) ∷ between

abbrev first : Result UploadResult × State ℕ
first = upload itself (database around) (some dispatcher) "a" "go" (ok (7 ∷ [])) empty

history_statuses :
    map (λ (q : Stored). q.row.status) (run_ops itself around history empty).rows
    ≡ "READY" ∷ "REJECTED" ∷ []
unfolding run_ops upload exec_insert exec_update inserted_by dispatch bytes_eq
history_statuses = refl

run_ops-IsSound_example : IsSound (run_ops itself around history empty).rows
run_ops-IsSound_example =
    run_ops-IsSound itself around history empty (record { unique = tt; consistent = tt })

upload_again_example :
    (upload itself
      (database around)
      none
      "c"
      "rust"
      (ok (7 ∷ []))
      (run_ops itself around between first.1)).0
    ≡ ok (reported "a" (7 ∷ []) 1)
unfolding upload exec_insert inserted_by dispatch
upload_again_example =
    upload_again itself around (some dispatcher) "a" "go" (7 ∷ []) empty (reported "a" (7 ∷ []) 1)
      between none "c" "rust" refl refl refl refl refl

-- A build of the first row, whose compiler fails.
abbrev tools : Tools
tools = record {
  World = ℕ;
  Object = ℕ;
  get_object = λ w. (ok w, w + 1);
  mkdir_src = λ w. (none, w + 1);
  extract = λ object w. (none, w + 1);
  compile_rust = λ w. (ok "/work/engine", w + 1);
  compile_go = λ w. (err "go build: exit status 1", w + 1);
  compile_cpp = λ w. (ok "/work/engine", w + 1);
  build = λ path w. (ok "registry/sub/07@sha256:1", w + 1);
  update = λ u w. (none, w + 1);
  quote = λ s. s;
}

abbrev clock : ℕ → ℕ
clock w = w

abbrev built : State ℕ → State ℕ
built s = (main (on_table (7 ∷ []) tools clock) true "go" s).world

built_rejected :
    map (λ (q : Stored). q.reject_reason) (built first.1).rows
    ≡ some "compile: go build: exit status 1" ∷ []
unfolding main upload exec_insert exec_update inserted_by dispatch bytes_eq
built_rejected = refl

main-Left_example :
    let e = main (on_table (7 ∷ []) tools clock) true "go" first.1 in
    Left (7 ∷ []) tools clock true "go" first.1 e.succeeded e.world.rows
main-Left_example = main-Left (7 ∷ []) tools clock true "go" first.1
