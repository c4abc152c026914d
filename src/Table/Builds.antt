-- ===== src/Table/Builds.antt =====
-- What one build leaves in the table of submissions (apps/build-runner/main.go).
use iron_book.Common.{
  ℕ, String, ◌≡◌, refl, sym, subst, ◌∙◌, inl, inr, Bool, true, false, List, [], Option, none, some,
  Bool-cases, str_eq,
}
use iron_book.Common.Result.{Result, ok, err}
use iron_book.Builder.Runner.{
  Tools, Update, set_building, set_ready, set_rejected, step, step_value, compile, run_build,
  counted, after_ready, after_build, after_building, main,
}
use iron_book.Builder.Runner.Statuses.{
  answer, built, Unmarked, Unsettled, Statuses, untouched, stuck, ready, rejected, main-Statuses,
}
use iron_book.Table.{Stored, exec_update, State, updated_by, on_table}
use iron_book.Table.Updates.{
  Each, Updated, exec_update-Each, set_ready-Hides, set_rejected-Hides, Applied, Applied-append,
  update-building,
}

module _ (sha : List ℕ) (t : Tools) (clock : t.World → ℕ) where
  abbrev T : Tools
  T = on_table sha t clock

  -- A time that the database's clock has in some state.
  abbrev pub OnClock : ℕ → Type 0
  OnClock now = (w : t.World) × (now ≡ clock w)

  step-rows :
      (rows : List Stored) (label : String) (x : Option String × T.World)
      (next : T.World → Result String × T.World)
      → x.1.rows ≡ rows
      → ((s : T.World) → s.rows ≡ rows → (next s).1.rows ≡ rows)
      → (step T label x next).1.rows ≡ rows
  unfolding step
  step-rows rows label (some e, s) next h k = h
  step-rows rows label (none, s) next h k = k s h

  step_value-rows :
      {A : Type 0} (rows : List Stored) (label : String) (x : Result A × T.World)
      (next : A → T.World → Result String × T.World)
      → x.1.rows ≡ rows
      → ((v : A) (s : T.World) → s.rows ≡ rows → (next v s).1.rows ≡ rows)
      → (step_value T label x next).1.rows ≡ rows
  unfolding step_value
  step_value-rows rows label (err e, s) next h k = h
  step_value-rows rows label (ok v, s) next h k = k v s h

  compile-rows : (language : String) (s : T.World) → (compile T language s).1.rows ≡ s.rows
  unfolding compile
  compile-rows language s = elim (Bool-cases (str_eq language "rust")) [
    | inl yes_rust ↦ rw yes_rust refl
    | inr no_rust ↦ elim (Bool-cases (str_eq language "go")) [
      | inl yes_go ↦ rw (no_rust, yes_go) refl
      | inr no_go ↦ elim (Bool-cases (str_eq language "cpp")) [
        | inl yes_cpp ↦ rw (no_rust, no_go, yes_cpp) refl
        | inr no_cpp ↦ rw (no_rust, no_go, no_cpp) refl
      ]
    ]
  ]

  -- The parts of `runBuild`, from its end on.
  abbrev Part : Type 0
  Part = T.World → Result String × T.World

  abbrev packaging : String → Part
  packaging binary s =
      step_value T "package+push: " (T.build binary s) (λ reference s'. (ok reference, s'))

  abbrev compiling : String → Part
  compiling language s = step_value T "compile: " (compile T language s) packaging

  abbrev extracting : String → t.Object → Part
  extracting language object s = step T "extract: " (T.extract object s) (compiling language)

  abbrev making : String → t.Object → Part
  making language object s = step T "mkdir src: " (T.mkdir_src s) (extracting language object)

  -- Nothing of the build itself touches the table.
  run_build-rows : (language : String) (s : T.World) → (run_build T language s).1.rows ≡ s.rows
  unfolding run_build
  run_build-rows language s =
      step_value-rows s.rows "get source: " (T.get_object s) (making language) refl λ object s₁ h₁.
        step-rows s.rows "mkdir src: " (T.mkdir_src s₁) (extracting language object) h₁ λ s₂ h₂.
          step-rows s.rows "extract: " (T.extract object s₂) (compiling language) h₂ λ s₃ h₃.
            step_value-rows s.rows "compile: " (compile T language s₃) packaging
              (compile-rows language s₃ ∙ h₃)
              λ binary s₄ h₄.
                step_value-rows s.rows "package+push: " (T.build binary s₄)
                  (λ reference s₅. (ok reference, s₅)) h₄ λ reference s₅ h₅. h₅

  -- One counted update changes the rows as the log says.
  counted-rows :
      (log : List Update) (u : Update) (rows₀ rows : List Stored) (c : Option String × t.World)
      → Applied OnClock sha log rows₀ rows
      → let x = counted T log u (updated_by sha t clock u rows c) in
        Applied OnClock sha x.1.0 rows₀ x.1.1.rows
  unfolding counted
  counted-rows log u rows₀ rows (none, w) h =
      Applied-append OnClock sha log u (clock w) rows₀ rows (w, refl) h
  counted-rows log u rows₀ rows (some e, w) h = h

  after_ready-rows :
      (rows₀ : List Stored) (x : Option String × (List Update × T.World))
      → Applied OnClock sha x.1.0 rows₀ x.1.1.rows
      → Applied OnClock sha (after_ready T x).accepted rows₀ (after_ready T x).world.rows
  unfolding after_ready
  after_ready-rows rows₀ (none, y) k = k
  after_ready-rows rows₀ (some e, y) k = k

  after_build-rows :
      (log : List Update) (rows₀ : List Stored) (x : Result String × T.World)
      → Applied OnClock sha log rows₀ x.1.rows
      → let e = after_build T log x in Applied OnClock sha e.accepted rows₀ e.world.rows
  unfolding after_build
  after_build-rows log rows₀ (ok reference, s) h = after_ready-rows rows₀ _ (
      counted-rows log (set_ready reference) rows₀ s.rows (t.update (set_ready reference) s.rest) h)
  after_build-rows log rows₀ (err reason, s) h =
      counted-rows log (set_rejected reason) rows₀ s.rows (t.update (set_rejected reason) s.rest) h

  after_building-rows :
      (language : String) (rows₀ : List Stored) (x : Option String × (List Update × T.World))
      → Applied OnClock sha x.1.0 rows₀ x.1.1.rows
      → let e = after_building T language x in Applied OnClock sha e.accepted rows₀ e.world.rows
  unfolding after_building
  after_building-rows language rows₀ (some e, y) h = h
  after_building-rows language rows₀ (none, (log, s)) h =
      after_build-rows log rows₀ (run_build T language s)
        (subst (Applied OnClock sha log rows₀) (sym (run_build-rows language s)) h)

  main-rows :
      (decoded : Bool) (language : String) (s : T.World)
      → let e = main T decoded language s in Applied OnClock sha e.accepted s.rows e.world.rows
  unfolding main
  main-rows false language s = refl
  main-rows true language s =
      after_building-rows language s.rows _
        (counted-rows [] set_building s.rows s.rows (t.update set_building s.rest) refl)

  -- The rows differ by one update, row by row.
  abbrev pub Differ : Update → List Stored → List Stored → Type 0
  Differ u = Each (Updated OnClock sha u)

  -- What a build may leave, by what the build gave and the database answered.
  pub data Left (decoded : Bool) (language : String) (s : State t.World) (succeeded : Bool)
      (rows : List Stored) : Type 0 where
    as_it_was :
        Unmarked T decoded s
        → succeeded ≡ false
        → rows ≡ s.rows
        → Left decoded language s succeeded rows
    building :
        Unsettled T language s
        → succeeded ≡ false
        → Differ set_building s.rows rows
        → Left decoded language s succeeded rows
    published :
        (reference : String)
        → (built T language s).0 ≡ ok reference
        → answer T (set_ready reference) (built T language s).1 ≡ none
        → succeeded ≡ true
        → Differ (set_ready reference) s.rows rows
        → Left decoded language s succeeded rows
    refused :
        (reason : String)
        → (built T language s).0 ≡ err reason
        → answer T (set_rejected reason) (built T language s).1 ≡ none
        → succeeded ≡ false
        → Differ (set_rejected reason) s.rows rows
        → Left decoded language s succeeded rows

  Differ-update :
      (u : Update) (now : ℕ) (rows rows' : List Stored)
      → OnClock now
      → rows' ≡ exec_update now sha u rows
      → Differ u rows rows'
  Differ-update u now rows rows' c e = rw e (exec_update-Each OnClock now sha u rows c)

  Statuses-Left :
      {decoded : Bool} {language : String} {s : T.World} {b : Bool} {us : List Update}
      (rows : List Stored)
      → Statuses T decoded language s b us
      → Applied OnClock sha us s.rows rows
      → Left decoded language s b rows
  Statuses-Left rows (untouched why) h = as_it_was why refl h
  Statuses-Left {s = s} rows (stuck why) (now, c, h) =
      building why refl (Differ-update set_building now s.rows rows c h)
  Statuses-Left {s = s} rows (ready reference gave accepted) (before, _, (now, c, h)) =
      let u = set_ready reference in
      published reference gave accepted refl (
        Differ-update u now s.rows rows c
          (h ∙ update-building now before sha u s.rows (set_ready-Hides reference)))
  Statuses-Left {s = s} rows (rejected reason gave accepted) (before, _, (now, c, h)) =
      let u = set_rejected reason in
      refused reason gave accepted refl (
        Differ-update u now s.rows rows c
          (h ∙ update-building now before sha u s.rows (set_rejected-Hides reason)))

  -- A build sets the row of its digest to READY with the reference that the build gave, where the
  -- database accepts that, and to REJECTED with the error of the build, where it accepts that; it
  -- leaves the row at BUILDING only where the database refuses that update, and the table as it was
  -- only where the digest is not decoded or the database refuses BUILDING. The process ends with
  -- status 0 at READY only. No other row changes, and no other column of the row but the time of
  -- its update, which is one of the database's clock. Nothing but the build updates the table while it runs.
  pub main-Left :
      (decoded : Bool) (language : String) (s : State t.World)
      → let e = main T decoded language s in Left decoded language s e.succeeded e.world.rows
  main-Left decoded language s =
      Statuses-Left _ (main-Statuses T decoded language s) (main-rows decoded language s)
