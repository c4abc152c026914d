-- ===== src/Builder/Paths/Inside.antt =====
-- A clean path that does not begin with `..` has none, and joining it stays below the directory.
use iron_book.Common.{
  String, ◌≡◌, ◌⊎◌, inl, inr, refl, sym, ap, ◌∙◌, subst, All, Bool, true, false, Bool-cases, List,
  [], ◌∷◌, ◌++◌, str_eq, eq_iff,
}
use iron_book.Builder.Paths.{FilePath, unstack, pop, push, clean_onto, clean, join}

-- An element that names an entry of a directory.
pub record IsName (x : String) : Type 0 where
  pub not_empty : str_eq x "" ≡ false
  pub not_dot : str_eq x "." ≡ false
  pub not_up : str_eq x ".." ≡ false

-- A stack: names on top of any number of `..`, which only a path that is not rooted has.
abbrev pub Stacked : Bool → List String → Type 0
Stacked rooted [] = Unit
Stacked rooted (x ∷ stack) =
    (IsName x × Stacked rooted stack) ⊎ ((rooted ≡ false) × (x ≡ "..") × All (λ y. y ≡ "..") stack)

ups-Stacked :
    (rooted : Bool) (stack : List String)
    → rooted ≡ false
    → All (λ y. y ≡ "..") stack
    → Stacked rooted stack
ups-Stacked rooted [] h a = tt
ups-Stacked rooted (x ∷ stack) h a = inr (h, a.0, a.1)

pop-Stacked :
    (rooted : Bool) (stack : List String) → Stacked rooted stack → Stacked rooted (pop rooted stack)
unfolding pop
pop-Stacked true [] s = tt
pop-Stacked false [] s = inr (refl, refl, tt)
pop-Stacked rooted (x ∷ stack) (inl (name, s)) = rw name.not_up s
pop-Stacked rooted (x ∷ stack) (inr (loose, up, a)) =
    rw ((eq_iff x "..").1 up) (inr (loose, refl, (up, a)))

push-Stacked :
    (rooted : Bool) (x : String) (stack : List String)
    → Stacked rooted stack
    → Stacked rooted (push rooted x stack)
unfolding push
push-Stacked rooted x stack s = elim (Bool-cases (str_eq x "")) [
  | inl e ↦ rw e s
  | inr e ↦ elim (Bool-cases (str_eq x ".")) [
    | inl d ↦ rw (e, d) s
    | inr d ↦ elim (Bool-cases (str_eq x "..")) [
      | inl u ↦ rw (e, d, u) (pop-Stacked rooted stack s)
      | inr u ↦ rw (e, d, u) (inl (record { not_empty = e; not_dot = d; not_up = u }, s))
    ]
  ]
]

clean_onto-Stacked :
    (rooted : Bool) (xs stack : List String)
    → Stacked rooted stack
    → Stacked rooted (clean_onto rooted stack xs)
unfolding clean_onto
clean_onto-Stacked rooted [] stack s = s
clean_onto-Stacked rooted (x ∷ xs) stack s =
    clean_onto-Stacked rooted xs (push rooted x stack) (push-Stacked rooted x stack s)

-- The path does not begin with `..`.
abbrev pub FirstIsNot : List String → Type 0
FirstIsNot [] = Unit
FirstIsNot (x ∷ xs) = str_eq x ".." ≡ false

ups_first :
    (stack out : List String)
    → All (λ y. y ≡ "..") stack
    → FirstIsNot (unstack stack (".." ∷ out))
    → ⊥
ups_first [] out a h = cc
ups_first (x ∷ stack) out a h =
    ups_first stack (".." ∷ out) a.1
      (subst (λ y. FirstIsNot (unstack stack (y ∷ ".." ∷ out))) a.0 h)

unstack-names :
    (rooted : Bool) (stack out : List String)
    → Stacked rooted stack
    → All IsName out
    → FirstIsNot (unstack stack out)
    → All IsName (unstack stack out)
unstack-names rooted [] out s a h = a
unstack-names rooted (x ∷ stack) out (inl (name, s)) a h =
    unstack-names rooted stack (x ∷ out) s (name, a) h
unstack-names rooted (x ∷ stack) out (inr (loose, up, ups)) a h =
    absurd (ups_first stack out ups (subst (λ y. FirstIsNot (unstack stack (y ∷ out))) up h))

-- A clean path that does not begin with `..` consists of names.
pub clean-names : (p : FilePath) → FirstIsNot (clean p).elements → All IsName (clean p).elements
unfolding clean
clean-names p h = unstack-names p.rooted _ [] (clean_onto-Stacked p.rooted p.elements [] tt) tt h

unstack-rooted_names :
    (rooted : Bool) (stack out : List String)
    → rooted ≡ true
    → Stacked rooted stack
    → All IsName out
    → All IsName (unstack stack out)
unstack-rooted_names rooted [] out h s a = a
unstack-rooted_names rooted (x ∷ stack) out h (inl (name, s)) a =
    unstack-rooted_names rooted stack (x ∷ out) h s (name, a)
unstack-rooted_names rooted (x ∷ stack) out h (inr (loose, up, ups)) a =
    absurd (let e = sym h ∙ loose in cc)

-- A clean path that is rooted consists of names.
pub clean-rooted_names : (p : FilePath) → p.rooted ≡ true → All IsName (clean p).elements
unfolding clean
clean-rooted_names p h =
    unstack-rooted_names p.rooted _ [] h (clean_onto-Stacked p.rooted p.elements [] tt) tt

-- Names are kept as they are.
push-name :
    (rooted : Bool) (x : String) (stack : List String) → IsName x → push rooted x stack ≡ x ∷ stack
unfolding push
push-name rooted x stack n = rw (n.not_empty, n.not_dot, n.not_up)

unstack_append : (stack xs : List String) → unstack stack [] ++ xs ≡ unstack stack xs
unstack_append stack xs = go stack []
  where
    go : (stack out : List String) → unstack stack out ++ xs ≡ unstack stack (out ++ xs)
    go [] out = refl
    go (x ∷ stack) out = go stack (x ∷ out)

clean_onto-names :
    (rooted : Bool) (names stack : List String)
    → All IsName names
    → unstack (clean_onto rooted stack names) [] ≡ unstack stack names
unfolding clean_onto
clean_onto-names rooted [] stack a = refl
clean_onto-names rooted (x ∷ names) stack a =
    ap (λ s. unstack (clean_onto rooted s names) []) (push-name rooted x stack a.0)
    ∙ clean_onto-names rooted names (x ∷ stack) a.1

clean_onto_append :
    (rooted : Bool) (xs ys stack : List String)
    → clean_onto rooted stack (xs ++ ys) ≡ clean_onto rooted (clean_onto rooted stack xs) ys
unfolding clean_onto
clean_onto_append rooted [] ys stack = refl
clean_onto_append rooted (x ∷ xs) ys stack = clean_onto_append rooted xs ys (push rooted x stack)

-- Joining names to a directory gives the clean directory with the names after it.
pub join-names :
    (dir p : FilePath)
    → All IsName p.elements
    → (join dir p).elements ≡ (clean dir).elements ++ p.elements
unfolding join clean
join-names dir p a =
    ap (λ s. unstack s []) (clean_onto_append dir.rooted dir.elements p.elements [])
    ∙ clean_onto-names dir.rooted p.elements _ a
    ∙ sym (unstack_append (clean_onto dir.rooted [] dir.elements) p.elements)
