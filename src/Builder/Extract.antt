-- ===== src/Builder/Extract.antt =====
-- `ExtractTarGz` of apps/build-runner/builder/compile.go. The gzip and tar readers give a list of
-- headers and how it ends; the file system is a parameter. The state carries the paths that were
-- touched, newest first.
pub mod Inside
pub mod Examples
use Prim.Native.Char.{Char, code}
use Prim.Native.String.{String}
use iron_book.Common.{
  ℕ, Bool, true, false, not, ◌&&◌, ◌==◌, List, [], ◌∷◌, Option, none, some, str_eq, if◌then◌else◌,
}
use iron_book.Common.Text.{concat}
use iron_book.Common.Result.{Result, ok, err}
use iron_book.Builder.Paths.{FilePath, clean, join}

abbrev pub onto_first : Char → List String → List String
onto_first c [] = (String.◌∷◌ c "") ∷ []
onto_first c (x ∷ xs) = (String.◌∷◌ c x) ∷ xs

-- The texts between the slashes of a name.
unfoldable pub split : String → List String
split String.[] = "" ∷ []
split (String.◌∷◌ c s) = let rest = split s in if code c == 47 then "" ∷ rest else onto_first c rest

abbrev pub is_rooted : String → Bool
is_rooted String.[] = false
is_rooted (String.◌∷◌ c s) = code c == 47

abbrev pub path_of : String → FilePath
path_of name = record { rooted = is_rooted name; elements = split name }

abbrev pub begins_up : List String → Bool
begins_up [] = false
begins_up (x ∷ xs) = str_eq x ".."

-- `clean == ".." || clean[:3] == "../"`.
abbrev pub escapes : FilePath → Bool
escapes p = not p.rooted && begins_up p.elements

pub data Kind : Type 0 where
  type_dir type_reg type_other : Kind

pub record Header : Type 0 where
  pub name : String
  pub kind : Kind
  pub body : List ℕ

-- How the archive ends: at its end, or where the reader fails.
pub data Ending : Type 0 where
  eof : Ending
  broken : String → Ending

-- `os.MkdirAll`, `filepath.Dir` followed by it, and `os.OpenFile` with `io.Copy`.
pub record FileSystem : Type 1 where
  pub World : Type 0
  pub mkdir_all : FilePath → World → Option String × World
  pub mkdir_parent : FilePath → World → Option String × World
  pub write_file : FilePath → List ℕ → World → Option String × World

pub data Touch : Type 0 where
  made_dir made_parent wrote : FilePath → Touch

module _ (fs : FileSystem) where
  abbrev pub State : Type 0
  State = fs.World × List Touch

  -- One call, whose path is noted.
  abbrev pub touch :
      (FilePath → Touch)
      → (FilePath → fs.World → Option String × fs.World)
      → FilePath
      → State
      → Option String × State
  touch sort call p (w, log) = let (e, w') = call p w in (e, (w', sort p ∷ log))

  -- The file of a regular entry, after the call for its directory.
  unfoldable pub write_entry : FilePath → List ℕ → Option String × State → Option String × State
  write_entry target body (some e, s) = (some e, s)
  write_entry target body (none, s) = touch wrote (λ p. fs.write_file p body) target s

  -- The `switch` over the type of an entry.
  unfoldable pub place : Kind → FilePath → List ℕ → State → Option String × State
  unfolding write_entry
  place type_dir target body s = touch made_dir fs.mkdir_all target s
  place type_reg target body s =
      write_entry target body (touch made_parent fs.mkdir_parent target s)
  place type_other target body s = (none, s)

  -- The rest of the loop, unless the entry failed.
  unfoldable pub go_on : Option String × State → Option String × State → Option String × State
  go_on (some e, s) rest = (some e, s)
  go_on (none, s) rest = rest

  unfoldable pub extract_entries : FilePath → Ending → List Header → State → Option String × State
  unfolding place go_on
  extract_entries dest eof [] s = (none, s)
  extract_entries dest (broken e) [] s = (some (concat "tar next: " e), s)
  extract_entries dest ending (h ∷ hs) s =
      let name = clean (path_of h.name) in
      let placed = place h.kind (join dest name) h.body s in
      let rest = extract_entries dest ending hs placed.1 in
      if escapes name
      then (some (concat "tar entry escapes root: " h.name), s)
      else go_on placed rest

  unfoldable pub after_mkdir :
      FilePath → Result (List Header × Ending) → Option String × fs.World → Option String × State
  unfolding extract_entries
  after_mkdir dest archive (some e, w) = (some e, (w, []))
  after_mkdir dest (err e) (none, w) = (some (concat "gzip reader: " e), (w, []))
  after_mkdir dest (ok (headers, ending)) (none, w) = extract_entries dest ending headers (w, [])

  -- `ExtractTarGz`: the directory is made, the gzip reader opened, or not, and the entries placed.
  unfoldable pub extract_tar_gz :
      FilePath → Result (List Header × Ending) → fs.World → Option String × State
  unfolding after_mkdir
  extract_tar_gz dest archive w = after_mkdir dest archive (fs.mkdir_all dest w)
