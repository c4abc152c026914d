-- ===== src/Builder/Runner.antt =====
-- apps/build-runner/main.go: one build, from the decoded digest to the status that the row of the
-- submission is left with. The object store, the toolchains, the registry and the database are
-- parameters; the compilers are told apart as `Compile` of builder/compile.go does.
pub mod Statuses
use iron_book.Common.{
  String, Bool, true, false, List, [], ◌∷◌, ◌++◌, Option, none, some, str_eq, if◌then◌else◌,
}
use iron_book.Common.Text.{concat}
use iron_book.Common.Result.{Result, ok, err}

-- The updates of a row: BUILDING, READY with the image, REJECTED with the reason.
pub data Update : Type 0 where
  set_building : Update
  set_ready set_rejected : String → Update

pub record Tools : Type 1 where
  pub World : Type 0
  -- The archive of the source, as a stream.
  pub Object : Type 0
  pub get_object : World → Result Object × World
  pub mkdir_src : World → Option String × World
  pub extract : Object → World → Option String × World
  -- The path of the binary.
  pub compile_rust : World → Result String × World
  pub compile_go : World → Result String × World
  pub compile_cpp : World → Result String × World
  -- `Build`, from the path to the reference of the pushed image.
  pub build : String → World → Result String × World
  pub update : Update → World → Option String × World
  pub quote : String → String

-- How the process ends: with status 0, or by `log.Fatalf` or `os.Exit(1)`; with the updates that
-- the database accepted, oldest first.
pub record Ended (W : Type 0) : Type 0 where
  pub succeeded : Bool
  pub accepted : List Update
  pub world : W

module _ (t : Tools) where
  unfoldable pub compile : String → t.World → Result String × t.World
  compile language w =
      if str_eq language "rust"
      then t.compile_rust w
      else if str_eq language "go"
      then t.compile_go w
      else if str_eq language "cpp"
      then t.compile_cpp w
      else (err (concat "unsupported language " (t.quote language)), w)

  -- One step of `runBuild` that may fail, and what follows it.
  unfoldable pub step :
      String
      → Option String × t.World
      → (t.World → Result String × t.World)
      → Result String × t.World
  step label (some e, w) next = (err (concat label e), w)
  step label (none, w) next = next w

  unfoldable pub step_value :
      {A : Type 0}
      → String
      → Result A × t.World
      → (A → t.World → Result String × t.World)
      → Result String × t.World
  step_value label (err e, w) next = (err (concat label e), w)
  step_value label (ok a, w) next = next a w

  unfoldable pub run_build : String → t.World → Result String × t.World
  unfolding step step_value compile
  run_build language w = step_value "get source: " (t.get_object w) λ object w₁.
      step "mkdir src: " (t.mkdir_src w₁) λ w₂. step "extract: " (t.extract object w₂) λ w₃.
        step_value "compile: " (compile language w₃) λ binary w₄.
          step_value "package+push: " (t.build binary w₄) λ reference w₅. (ok reference, w₅)

  -- One update, after those that were accepted.
  unfoldable pub counted :
      List Update → Update → Option String × t.World → Option String × (List Update × t.World)
  counted log u (none, w) = (none, (log ++ u ∷ [], w))
  counted log u (some e, w) = (some e, (log, w))

  abbrev pub ended_by : Bool → List Update × t.World → Ended t.World
  ended_by b s = record { succeeded = b; accepted = s.0; world = s.1 }

  -- `main` from the answer of the update to READY on.
  unfoldable pub after_ready : Option String × (List Update × t.World) → Ended t.World
  after_ready (none, s) = ended_by true s
  after_ready (some e, s) = ended_by false s

  -- The end of `main`, for a build that gave a reference or failed.
  unfoldable pub after_build : List Update → Result String × t.World → Ended t.World
  unfolding counted after_ready
  after_build log (ok reference, w) =
      after_ready (counted log (set_ready reference) (t.update (set_ready reference) w))
  after_build log (err reason, w) =
      ended_by false (counted log (set_rejected reason) (t.update (set_rejected reason) w)).1

  -- `main` from the answer of the update to BUILDING on.
  unfoldable pub after_building : String → Option String × (List Update × t.World) → Ended t.World
  unfolding run_build after_build
  after_building language (some e, s) = ended_by false s
  after_building language (none, (log, w)) = after_build log (run_build language w)

  -- `main` from the digest on, which is decoded or not.
  unfoldable pub main : Bool → String → t.World → Ended t.World
  unfolding after_building counted
  main decoded language w =
      if decoded
      then after_building language (counted [] set_building (t.update set_building w))
      else ended_by false ([], w)
