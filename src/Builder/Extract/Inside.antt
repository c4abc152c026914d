-- ===== src/Builder/Extract/Inside.antt =====
-- Where the entries of an archive end up.
use iron_book.Common.{
  ℕ, String, ◌≡◌, refl, inl, inr, Bool, true, false, not, ◌&&◌, Bool-cases, List, [], ◌∷◌, ◌++◌,
  All, Option, none, some,
}
use iron_book.Common.Result.{Result, ok, err}
use iron_book.Builder.Paths.{FilePath, clean, join}
use iron_book.Builder.Paths.Inside.{IsName, FirstIsNot, clean-rooted_names, clean-names, join-names}
use iron_book.Builder.Extract.{
  path_of, begins_up, escapes, Kind, type_dir, type_reg, type_other, Header, Ending, eof, broken,
  FileSystem, Touch, made_dir, made_parent, wrote, State, touch, write_entry, place, go_on,
  extract_entries, after_mkdir, extract_tar_gz,
}

-- A path that is the clean directory followed by names only.
pub record IsBelow (dest p : FilePath) : Type 0 where
  pub names : List String
  pub all_names : All IsName names
  pub same_root : p.rooted ≡ dest.rooted
  pub placed : p.elements ≡ (clean dest).elements ++ names

-- For the directory of a file it is the file that is below.
abbrev pub Inside : FilePath → Touch → Type 0
Inside dest (made_dir p) = IsBelow dest p
Inside dest (made_parent p) = IsBelow dest p
Inside dest (wrote p) = IsBelow dest p

first-up : (xs : List String) → begins_up xs ≡ false → FirstIsNot xs
first-up [] h = tt
first-up (x ∷ xs) h = h

kept-names : (p : FilePath) → escapes (clean p) ≡ false → All IsName (clean p).elements
unfolding clean
kept-names p h = elim (Bool-cases p.rooted) [
  | inl e ↦ clean-rooted_names p e
  | inr e ↦ clean-names p (first-up _ (loose p.rooted e h))
]
  where
    loose :
        (rooted : Bool)
        → rooted ≡ false
        → (not rooted && begins_up (clean p).elements) ≡ false
        → begins_up (clean p).elements ≡ false
    loose true e k = cc
    loose false e k = k

target-IsBelow :
    (dest : FilePath) (name : String)
    → escapes (clean (path_of name)) ≡ false
    → IsBelow dest (join dest (clean (path_of name)))
unfolding join
target-IsBelow dest name h =
    let names = kept-names (path_of name) h in
    record {
      names = (clean (path_of name)).elements;
      all_names = names;
      same_root = refl;
      placed = join-names dest (clean (path_of name)) names;
    }

module _ (fs : FileSystem) (dest : FilePath) where
  write_entry-Inside :
      (target : FilePath) (body : List ℕ) (x : Option String × State fs)
      → IsBelow dest target
      → All (Inside dest) x.1.1
      → All (Inside dest) (write_entry fs target body x).1.1
  unfolding write_entry
  write_entry-Inside target body (some e, s) b a = a
  write_entry-Inside target body (none, s) b a = (b, a)

  place-Inside :
      (kind : Kind) (target : FilePath) (body : List ℕ) (s : State fs)
      → IsBelow dest target
      → All (Inside dest) s.1
      → All (Inside dest) (place fs kind target body s).1.1
  unfolding place
  place-Inside type_dir target body s b a = (b, a)
  place-Inside type_reg target body s b a =
      write_entry-Inside target body (touch fs made_parent fs.mkdir_parent target s) b (b, a)
  place-Inside type_other target body s b a = a

  go_on-Inside :
      (x rest : Option String × State fs)
      → All (Inside dest) x.1.1
      → All (Inside dest) rest.1.1
      → All (Inside dest) (go_on fs x rest).1.1
  unfolding go_on
  go_on-Inside (some e, s) rest a k = a
  go_on-Inside (none, s) rest a k = k

  extract_entries-Inside :
      (ending : Ending) (hs : List Header) (s : State fs)
      → All (Inside dest) s.1
      → All (Inside dest) (extract_entries fs dest ending hs s).1.1
  unfolding extract_entries
  extract_entries-Inside eof [] s a = a
  extract_entries-Inside (broken e) [] s a = a
  extract_entries-Inside ending (h ∷ hs) s a =
      elim (Bool-cases (escapes (clean (path_of h.name)))) [
        | inl out ↦ simp out a
        | inr kept ↦
            (let placed = place fs h.kind (join dest (clean (path_of h.name))) h.body s in
              let placed_inside : All (Inside dest) placed.1.1 =
                place-Inside h.kind _ h.body s (target-IsBelow dest h.name kept) a in
              simp kept (
                go_on-Inside placed _ placed_inside
                  (extract_entries-Inside ending hs placed.1 placed_inside)))
      ]

  after_mkdir-Inside :
      (archive : Result (List Header × Ending)) (x : Option String × fs.World)
      → All (Inside dest) (after_mkdir fs dest archive x).1.1
  unfolding after_mkdir
  after_mkdir-Inside archive (some e, w) = tt
  after_mkdir-Inside (err e) (none, w) = tt
  after_mkdir-Inside (ok (headers, ending)) (none, w) =
      extract_entries-Inside ending headers (w, []) tt

  -- Whatever the names in an archive, and wherever the extraction stops, each directory that is
  -- made for an entry, each file that is written, and each file whose directory is made, lies at
  -- the destination, made clean, followed by names only, none of which is empty, `.` or `..`.
  pub extract_tar_gz-Inside :
      (archive : Result (List Header × Ending)) (w : fs.World)
      → All (Inside dest) (extract_tar_gz fs dest archive w).1.1
  unfolding extract_tar_gz
  extract_tar_gz-Inside archive w = after_mkdir-Inside archive (fs.mkdir_all dest w)
