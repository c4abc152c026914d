-- ===== src/Builder/Compile/Pick.antt =====
-- The binary that a rust build is taken from.
use iron_book.Common.{
  ℕ, String, ◌/◌, ◌%◌, ◌≡◌, ◌≢◌, ◌⊎◌, refl, Bool, true, false, not, ◌&&◌, ◌||◌, List, [], ◌∷◌,
  Option, none, some, inl, inr, ap, subst, ◌∙◌, Bool-cases, arith, str_eq, eq_iff,
}
use iron_book.Common.Text.{str_eq_of_ne}
use iron_book.Common.Result.{Result, ok, err}
use iron_book.Common.Steps.{followed-ok, relabelled-ok, outcome-ok, relabelled, outcome}
use iron_book.Builder.Compile.{
  Entry, Machine, join_path, ext, is_executable, is_candidate, release_dir, pick, compile_rust,
  cargo_build, picked, after_cargo, from_entries,
}

-- A mode with one of the three bits for execution.
abbrev pub Executable : Result ℕ → Type 0
Executable (err e) = ⊥
Executable (ok mode) = (mode % 2 ≡ 1) ⊎ ((mode / 8 % 2 ≡ 1) ⊎ (mode / 64 % 2 ≡ 1))

-- What the source looks for: no directory, not `deps`, without an extension, and executable.
pub record Binary (e : Entry) (mode : Result ℕ) : Type 0 where
  pub is_file : e.is_dir ≡ false
  pub not_deps : e.name ≢ "deps"
  pub no_ext : ext e.name ≡ ""
  pub executable : Executable mode

is_executable-Executable : (mode : Result ℕ) → is_executable mode ≡ true → Executable mode
is_executable-Executable (err e) h = absurd (cc h)
is_executable-Executable (ok mode) h = ground (arith, h)

Executable-is_executable : (mode : Result ℕ) → Executable mode → is_executable mode ≡ true
Executable-is_executable (err e) x = absurd x
Executable-is_executable (ok mode) x = ground (arith, x)

all_tests :
    (dir deps plain runs : Bool)
    → ((not dir && not (deps || not plain)) && runs) ≡ true
    → (dir ≡ false) × (deps ≡ false) × (plain ≡ true) × (runs ≡ true)
all_tests false false true true h = (refl, refl, refl, refl)
all_tests false false true false h = absurd (cc h)
all_tests false false false runs h = absurd (cc h)
all_tests false true plain runs h = absurd (cc h)
all_tests true deps plain runs h = absurd (cc h)

eq_str : (s t : String) → s ≡ t → str_eq s t ≡ true
eq_str s t e = (eq_iff s t).1 e

module _ {W : Type 0} (m : Machine W) where
  abbrev mode_of : Entry → W → Result ℕ
  mode_of e w = m.stat (join_path "/work/target/release" e.name) w

  abbrev chosen : Entry → W → Bool
  chosen e w = is_candidate e && is_executable (mode_of e w)

  chosen-Binary : (e : Entry) (w : W) → chosen e w ≡ true → Binary e (mode_of e w)
  chosen-Binary e w h =
      let (dir, deps, plain, runs) =
        all_tests e.is_dir (str_eq e.name "deps") (str_eq (ext e.name) "")
          (is_executable (mode_of e w)) h in
      record {
        is_file = dir;
        not_deps = λ same. cc (eq_str e.name "deps" same, deps);
        no_ext = (eq_iff (ext e.name) "").0 plain;
        executable = is_executable-Executable (mode_of e w) runs;
      }

  Binary-chosen : (e : Entry) (w : W) → Binary e (mode_of e w) → chosen e w ≡ true
  Binary-chosen e w b =
      rw
        (
          b.is_file,
          str_eq_of_ne e.name "deps" b.not_deps,
          eq_str (ext e.name) "" b.no_ext,
          Executable-is_executable (mode_of e w) b.executable,
        )
        refl

  -- The path of the first entry of the release directory that is such a binary.
  pub data First (w : W) : List Entry → String → Type 0 where
    here :
        {e : Entry} {entries : List Entry}
        → Binary e (mode_of e w)
        → First w (e ∷ entries) (join_path "/work/target/release" e.name)
    later :
        {e : Entry} {entries : List Entry} {path : String}
        → ¬ Binary e (mode_of e w)
        → First w entries path
        → First w (e ∷ entries) path

  pick-First :
      (entries : List Entry) (w : W) (path : String)
      → pick m entries w ≡ some path
      → First w entries path
  unfolding pick
  pick-First [] w path h = absurd (cc h)
  pick-First (e ∷ entries) w path h = elim (Bool-cases (chosen e w)) [
    | inl good ↦
        let same : join_path release_dir e.name ≡ path = cc (rw good at h) in
        subst (First w (e ∷ entries)) same (here (chosen-Binary e w good))
    | inr bad ↦ later (λ b. cc (Binary-chosen e w b, bad)) (pick-First entries w path (rw bad at h))
  ]

  picked-ok :
      (x : Option String) (w : W) {path : String} {w' : W}
      → picked m x w ≡ (ok path, w')
      → (x ≡ some path) × (w ≡ w')
  picked-ok none w h = absurd (cc (ap (λ p. p.0) h))
  picked-ok (some path) w h = (cc (ap (λ p. p.0) h), ap (λ p. p.1) h)

  -- A rust build that gives a path has run cargo without an error, and the path is that of the
  -- first entry of the release directory that is no directory, is not called `deps`, has no
  -- extension and may be executed by somebody.
  pub compile_rust-First :
      (src_dir path : String) (w w' : W)
      → compile_rust m src_dir w ≡ (ok path, w')
      → (entries : List Entry) × (m.run_command
            (record {
              words = "cargo" ∷ "build" ∷ "--release" ∷ [];
              dir = some src_dir;
              env = "CARGO_HOME=/work/.cargo" ∷ "CARGO_TARGET_DIR=/work/target" ∷ [];
            })
            w
          ≡ (none, w'))
        × (m.read_dir "/work/target/release" w' ≡ ok entries)
        × First w' entries path
  unfolding compile_rust after_cargo from_entries
  compile_rust-First src_dir path w w' h =
      let (_, w₁, ran, h₁) =
        followed-ok (relabelled "cargo build: " (outcome (m.run_command (cargo_build src_dir) w)))
          (λ u. after_cargo m) h in
      let (entries, w₂, listed, h₂) =
        followed-ok (m.read_dir release_dir w₁, w₁) (from_entries m) h₁ in
      let (found, same) = picked-ok (pick m entries w₂) w₂ h₂ in
      let there : w₁ ≡ w' = ap (λ p. p.1) listed ∙ same in
      (
        entries,
        outcome-ok _ (relabelled-ok _ _ ran) ∙ ap (λ v. (none, v)) there,
        subst (λ v. m.read_dir release_dir v ≡ ok entries) there (ap (λ p. p.0) listed),
        subst (λ v. First v entries path) same (pick-First entries w₂ path found),
      )
