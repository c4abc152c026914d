-- ===== src/Builder/Paths.antt =====
-- `filepath.Clean` and `filepath.Join` of Go's standard library on Unix, over the elements of a
-- path: the texts between its slashes, and whether a slash comes first.
pub mod Inside
use iron_book.Common.{String, Bool, true, false, ◌||◌, List, [], ◌∷◌, ◌++◌, str_eq, if◌then◌else◌}
use iron_book.Common.Text.{concat}

pub record FilePath : Type 0 where
  pub rooted : Bool
  pub elements : List String

-- `x ∷ y ∷ []` pushed onto a stack gives the stack `y ∷ x ∷ …`.
abbrev pub unstack : List String → List String → List String
unstack [] out = out
unstack (x ∷ stack) out = unstack stack (x ∷ out)

-- `..` takes the element on top away; with nothing to take away it stays, or is dropped at the
-- root.
unfoldable pub pop : Bool → List String → List String
pop rooted [] = if rooted then [] else ".." ∷ []
pop rooted (x ∷ stack) = if str_eq x ".." then ".." ∷ x ∷ stack else stack

-- One element of the path, with what is kept so far.
unfoldable pub push : Bool → String → List String → List String
unfolding pop
push rooted x stack =
    if str_eq x "" || str_eq x "."
    then stack
    else if str_eq x ".."
    then pop rooted stack
    else x ∷ stack

unfoldable pub clean_onto : Bool → List String → List String → List String
unfolding push
clean_onto rooted stack [] = stack
clean_onto rooted stack (x ∷ xs) = clean_onto rooted (push rooted x stack) xs

unfoldable pub clean : FilePath → FilePath
unfolding clean_onto
clean p = record p { elements = unstack (clean_onto p.rooted [] p.elements) [] }

-- `filepath.Join(dir, p)`, for a `dir` that is not the empty text.
unfoldable pub join : FilePath → FilePath → FilePath
unfolding clean
join dir p = clean (record dir { elements = dir.elements ++ p.elements })

-- The text of a path that is clean.
unfoldable pub slashed : String → List String → String
slashed x [] = x
slashed x (y ∷ ys) = concat x (concat "/" (slashed y ys))

unfoldable pub elements_text : List String → String
unfolding slashed
elements_text [] = ""
elements_text (x ∷ xs) = slashed x xs

abbrev pub render : FilePath → String
render p =
    let body = elements_text p.elements in
    if p.rooted then concat "/" body else if str_eq body "" then "." else body
