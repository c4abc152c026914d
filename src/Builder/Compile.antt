-- ===== src/Builder/Compile.antt =====
-- `compileRust`, `compileGo` and `compileCpp` of apps/build-runner/builder/compile.go: the toolchain
-- of a language is run, and the path of the binary is found. The commands and the file system are parameters.
pub mod Pick
use Prim.Native.Char.{code}
use Prim.Native.String
use iron_book.Common.{
  ℕ, String, Bool, true, false, not, ◌&&◌, ◌||◌, ◌+◌, ◌/◌, ◌%◌, ◌==◌, List, [], ◌∷◌, Option, none,
  some, str_eq, if◌then◌else◌,
}
use iron_book.Common.Text.{concat, contains}
use iron_book.Common.Result.{Result, ok, err}
use iron_book.Common.Steps.{Step, ◌>>=◌, ◌>>◌, pure, fail, labelled, attempt, consult}
use iron_book.Builder.Paths.{join, render}
use iron_book.Builder.Extract.{path_of}

-- `exec.CommandContext`: its words, the directory and the variables that are added to the
-- environment of the process.
pub record Command : Type 0 where
  pub words : List String
  pub dir : Option String
  pub env : List String

pub record Entry : Type 0 where
  pub name : String
  pub is_dir : Bool

pub record Machine (World : Type 0) : Type 0 where
  pub run_command : Command → World → Option String × World
  pub read_dir : String → World → Result (List Entry)
  -- The mode of a file.
  pub stat : String → World → Result ℕ

-- `filepath.Join` of two texts.
abbrev pub join_path : String → String → String
join_path dir name = render (join (path_of dir) (path_of name))

-- `filepath.Ext`: the text from the last dot of the last element on.
unfoldable pub ext : String → String
ext String.[] = ""
ext (String.◌∷◌ c s) =
    let later = ext s in
    if not (str_eq later "")
    then later
    else if code c == 46 && not (contains s "/")
    then String.◌∷◌ c s
    else ""

-- `mode & 0o111 != 0`.
abbrev pub is_executable : Result ℕ → Bool
is_executable (err e) = false
is_executable (ok mode) = not (mode % 2 + mode / 8 % 2 + mode / 64 % 2 == 0)

-- The entries that the loop of `compileRust` does not skip.
abbrev pub is_candidate : Entry → Bool
is_candidate e = not e.is_dir && not (str_eq e.name "deps" || not (str_eq (ext e.name) ""))

abbrev pub release_dir : String
release_dir = "/work/target/release"

abbrev pub cargo_build : String → Command
cargo_build src_dir = record {
  words = "cargo" ∷ "build" ∷ "--release" ∷ [];
  dir = some src_dir;
  env = "CARGO_HOME=/work/.cargo" ∷ "CARGO_TARGET_DIR=/work/target" ∷ [];
}

module _ {W : Type 0} (m : Machine W) where
  abbrev pub Compiling : Type 0
  Compiling = Step W String

  -- The loop: the first entry that is a candidate and executable.
  unfoldable pub pick : List Entry → W → Option String
  pick [] w = none
  pick (e ∷ entries) w =
      let path = join_path release_dir e.name in
      let rest = pick entries w in
      if is_candidate e && is_executable (m.stat path w) then some path else rest

  abbrev pub picked : Option String → Compiling
  picked none = fail "no release binary found under /work/target/release"
  picked (some path) = pure path

  unfoldable pub from_entries : List Entry → Compiling
  unfolding pick
  from_entries entries w = picked (pick entries w) w

  unfoldable pub after_cargo : Compiling
  unfolding from_entries
  after_cargo = do entries ← consult (m.read_dir release_dir); from_entries entries

  unfoldable pub compile_rust : String → Compiling
  unfolding after_cargo
  compile_rust src_dir = do
    labelled "cargo build: " (attempt (m.run_command (cargo_build src_dir)))
    after_cargo

  abbrev pub go_out : String
  go_out = "/work/engine"

  unfoldable pub compile_go : String → Compiling
  compile_go src_dir = do
    labelled "go build: " (
        attempt (
          m.run_command (record {
            words = "go" ∷ "build" ∷ "-trimpath" ∷ "-ldflags=-s -w" ∷ "-o" ∷ go_out ∷ "./..." ∷ [];
            dir = some src_dir;
            env = "CGO_ENABLED=0" ∷ "GOOS=linux" ∷ "GOARCH=arm64" ∷ [];
          })))
    pure go_out

  abbrev pub command : List String → Command
  command words = record { words = words; dir = none; env = [] }

  unfoldable pub compile_cpp : String → Compiling
  compile_cpp src_dir =
      let build = join_path src_dir "build" in
      let out = join_path build "engine" in
      do
        labelled "cpp build expects CMakeLists.txt at srcDir: "
            (consult (m.stat (join_path src_dir "CMakeLists.txt")))
        labelled "cmake: " (
            attempt (
              m.run_command (
                command
                  ("cmake" ∷ "-B" ∷ build ∷ "-S" ∷ src_dir ∷ "-DCMAKE_BUILD_TYPE=Release" ∷ []))))
        labelled "cmake build: "
            (attempt (m.run_command (command ("cmake" ∷ "--build" ∷ build ∷ "--parallel" ∷ []))))
        labelled (concat "expected binary at " (concat out ": ")) (consult (m.stat out))
        pure out
