-- ===== src/Operator/Run/Deletes/Marked.antt =====
-- The pods of a run once some were told to go
-- (apps/benchmark-operator/internal/controller/benchmarkrun_controller.go).
use iron_book.Common.{
  String, ◌≡◌, ◌⊎◌, inl, inr, refl, sym, Bool, true, false, List, [], ◌∷◌, All, str_eq,
  if◌then◌else◌, Bool-cases,
}
use iron_book.Common.Text.{ne_of_str_eq}
use iron_book.Kube.{Pod}

-- The pods, where those of the name have a time of deletion.
abbrev pub marked : String → List Pod → List Pod
marked name [] = []
marked name (p ∷ pods) =
    (if str_eq p.meta.name name then record p { meta = record (p.meta) { deleting = true } } else p)
    ∷ marked name pods

abbrev pub Dying : List Pod → Type 0
Dying ps = All (λ (p : Pod). p.meta.deleting ≡ true) ps

-- A pod of the list has the name and is not going yet.
abbrev Named : String → List Pod → Type 0
Named name [] = ⊥
Named name (p ∷ ps) = ((p.meta.deleting ≡ false) × (p.meta.name ≡ name)) ⊎ Named name ps

-- A pod is going, or is one that the list still has to tell to.
abbrev pub Due : List Pod → Pod → Type 0
Due ps q = (q.meta.deleting ≡ true) ⊎ Named q.meta.name ps

All-cons : (p : Pod) (ps qs : List Pod) → All (Due ps) qs → All (Due (p ∷ ps)) qs
All-cons p ps [] h = tt
All-cons p ps (q ∷ qs) (inl e, h) = (inl e, All-cons p ps qs h)
All-cons p ps (q ∷ qs) (inr n, h) = (inr (inr n), All-cons p ps qs h)

pub self-Due : (ps : List Pod) → All (Due ps) ps
self-Due [] = tt
self-Due (p ∷ ps) = elim (Bool-cases p.meta.deleting) [
  | inl e ↦ (inl e, All-cons p ps ps (self-Due ps))
  | inr e ↦ (inr (inl (e, refl)), All-cons p ps ps (self-Due ps))
]

skip : (p : Pod) (ps : List Pod) (q : Pod) → p.meta.deleting ≡ true → Due (p ∷ ps) q → Due ps q
skip p ps q e (inl d) = inl d
skip p ps q e (inr (inl (alive, _))) = cc
skip p ps q e (inr (inr n)) = inr n

-- A pod that goes already is not told again.
pub Due-skip :
    (p : Pod) (ps qs : List Pod) → p.meta.deleting ≡ true → All (Due (p ∷ ps)) qs → All (Due ps) qs
Due-skip p ps [] e h = tt
Due-skip p ps (q ∷ qs) e h = (skip p ps q e h.0, Due-skip p ps qs e h.1)

mark :
    (p : Pod) (ps : List Pod) (q : Pod) (b : Bool)
    → str_eq q.meta.name p.meta.name ≡ b
    → Due (p ∷ ps) q
    → Due ps (if b then record q { meta = record (q.meta) { deleting = true } } else q)
mark p ps q true e h = inl refl
mark p ps q false e (inl d) = inl d
mark p ps q false e (inr (inl (_, same))) =
    absurd (ne_of_str_eq q.meta.name p.meta.name e (sym same))
mark p ps q false e (inr (inr n)) = inr n

pub Due-marked :
    (p : Pod) (ps qs : List Pod) → All (Due (p ∷ ps)) qs → All (Due ps) (marked p.meta.name qs)
Due-marked p ps [] h = tt
Due-marked p ps (q ∷ qs) h = (mark p ps q _ refl h.0, Due-marked p ps qs h.1)

pub Due-Dying : (qs : List Pod) → All (Due []) qs → Dying qs
Due-Dying [] h = tt
Due-Dying (q ∷ qs) (inl e, h) = (e, Due-Dying qs h)
Due-Dying (q ∷ qs) (inr n, h) = absurd n
