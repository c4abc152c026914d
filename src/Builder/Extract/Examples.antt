-- ===== src/Builder/Extract/Examples.antt =====
-- The extraction at a concrete archive, into a file system in which every call succeeds.
use iron_book.Common.{ℕ, ◌≡◌, refl, true, List, [], ◌∷◌, All, none, some}
use iron_book.Common.Result.{Result, ok}
use iron_book.Builder.Paths.{FilePath}
use iron_book.Builder.Extract.{
  path_of, Header, type_reg, type_dir, Ending, eof, FileSystem, extract_tar_gz,
}
use iron_book.Builder.Extract.Inside.{Inside, extract_tar_gz-Inside}

abbrev willing : FileSystem
willing = record {
  World = ℕ;
  mkdir_all = λ p w. (none, w);
  mkdir_parent = λ p w. (none, w);
  write_file = λ p body w. (none, w);
}

abbrev archive : Result (List Header × Ending)
archive = ok (
  record { name = "src/./main.rs"; kind = type_reg; body = 1 ∷ [] }
      ∷ record { name = "/etc"; kind = type_dir; body = [] }
      ∷ record { name = "a/../../b"; kind = type_reg; body = [] }
      ∷ [],
  eof,
)

abbrev work : FilePath
work = record { rooted = true; elements = "work" ∷ "src" ∷ [] }

extract_tar_gz-Inside_example : All (Inside work) (extract_tar_gz willing work archive 0).1.1
extract_tar_gz-Inside_example = extract_tar_gz-Inside willing work archive 0

-- The third entry escapes.
third_refused : (extract_tar_gz willing work archive 0).0 ≡ some "tar entry escapes root: a/../../b"
unfolding extract_tar_gz iron_book.Builder.Paths.clean iron_book.Builder.Extract.split
    iron_book.Builder.Paths.join
third_refused = refl
