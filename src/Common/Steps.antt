-- ===== src/Common/Steps.antt =====
-- Steps of a program on a world, each of which gives a value or an error: the ladder
-- `x, err := f(); if err != nil { return err }`.
use Prim.Native.String.{String}
use mathlib.Core.Path.{◌≡◌, refl, ap}
use mathlib.Core.Option.{Option, none, some}
use iron_book.Common.Text.{concat}
use iron_book.Common.Result.{Result, ok, err}

abbrev pub Step : Type 0 → Type 0 → Type 0
Step W A = W → Result A × W

-- What follows an answer: nothing, where it is an error.
abbrev pub followed : {A B W : Type 0} → Result A × W → (A → W → Result B × W) → Result B × W
followed (ok a, w) f = f a w
followed (err e, w) f = (err e, w)

infixl 5 ◌>>=◌ ◌>>◌
abbrev pub ◌>>=◌ : {A B W : Type 0} → Step W A → (A → Step W B) → Step W B
◌>>=◌ m f w = followed (m w) f

abbrev pub ◌>>◌ : {A B W : Type 0} → Step W A → Step W B → Step W B
◌>>◌ m k w = followed (m w) (λ a. k)

abbrev pub pure : {A W : Type 0} → A → Step W A
pure a w = (ok a, w)

abbrev pub fail : {A W : Type 0} → String → Step W A
fail e w = (err e, w)

-- `fmt.Errorf(label + "%w", err)`, where there is an error.
abbrev pub relabelled : {A W : Type 0} → String → Result A × W → Result A × W
relabelled label (ok a, w) = (ok a, w)
relabelled label (err e, w) = (err (concat label e), w)

abbrev pub labelled : {A W : Type 0} → String → Step W A → Step W A
labelled label m w = relabelled label (m w)

-- A call that answers an error or nothing.
abbrev pub outcome : {W : Type 0} → Option String × W → Result (Unit {0}) × W
outcome (none, w) = (ok tt, w)
outcome (some e, w) = (err e, w)

abbrev pub attempt : {W : Type 0} → (W → Option String × W) → Step W (Unit {0})
attempt call w = outcome (call w)

-- A call that reads the world.
abbrev pub consult : {A W : Type 0} → (W → Result A) → Step W A
consult call w = (call w, w)

pub followed-ok :
    {A B W : Type 0} (x : Result A × W) (f : A → W → Result B × W) {b : B} {w' : W}
    → followed x f ≡ (ok b, w')
    → (a : A) × (w : W) × (x ≡ (ok a, w)) × (f a w ≡ (ok b, w'))
followed-ok (ok a, w) f h = (a, w, refl, h)
followed-ok (err e, w) f h = absurd (cc (ap (λ p. p.0) h))

pub relabelled-ok :
    {A W : Type 0} (label : String) (x : Result A × W) {a : A} {w : W}
    → relabelled label x ≡ (ok a, w)
    → x ≡ (ok a, w)
relabelled-ok label (ok a, w) h = h
relabelled-ok label (err e, w) h = absurd (cc (ap (λ p. p.0) h))

pub outcome-ok :
    {W : Type 0} (x : Option String × W) {u : Unit {0}} {w : W}
    → outcome x ≡ (ok u, w)
    → x ≡ (none, w)
outcome-ok (none, w) h = ap (λ p. (none, p.1)) h
outcome-ok (some e, w) h = absurd (cc (ap (λ p. p.0) h))

-- A labelled step that leaves the world as it is.
pub still-ok :
    {A B W : Type 0} (label : String) (x : Result A) (w : W) (f : A → W → Result B × W) {b : B}
    {w' : W}
    → followed (relabelled label (x, w)) f ≡ (ok b, w')
    → (a : A) × (x ≡ ok a) × (f a w ≡ (ok b, w'))
still-ok label (ok a) w f h = (a, refl, h)
still-ok label (err e) w f h = absurd (cc (ap (λ p. p.0) h))
