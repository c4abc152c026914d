-- ===== src/Common/Decimal/RoundTrip.antt =====
-- An int64 that was printed is read back.
use Prim.Native.Nat.{ℕ, zero, suc, ◌+◌, ◌-◌, ◌*◌, ◌/◌, ◌%◌, ◌<◌, ◌≤◌}
use Prim.Native.Char.{code}
use Prim.Native.String.{String}
use mathlib.Core.Path.{◌≡◌, refl, ap, ◌∙◌}
use mathlib.Core.Bool.{false, ◌||◌}
use mathlib.Core.Option.{some}
use mathlib.Core.Logic.{inl, inr}
use native.Mathlib.Omega.{arith}
use iron_book.Common.Tests.{ltb, ◌==◌, lt→ltb, Bool-cases}
use iron_book.Common.Int.{ℤ, pos, negsuc, two63, two64, IsInt64}
use iron_book.Common.Decimal.{digit, digits, fmt_int, scan, parse_uint, signed, parse_int}

code-digit : (d : ℕ) → d < 10 → code (digit d) ≡ 48 + d
unfolding digit
code-digit zero h = refl
code-digit (suc zero) h = refl
code-digit (suc (suc zero)) h = refl
code-digit (suc (suc (suc zero))) h = refl
code-digit (suc (suc (suc (suc zero)))) h = refl
code-digit (suc (suc (suc (suc (suc zero))))) h = refl
code-digit (suc (suc (suc (suc (suc (suc zero)))))) h = refl
code-digit (suc (suc (suc (suc (suc (suc (suc zero))))))) h = refl
code-digit (suc (suc (suc (suc (suc (suc (suc (suc zero)))))))) h = refl
code-digit (suc (suc (suc (suc (suc (suc (suc (suc (suc zero))))))))) h = refl
code-digit (suc (suc (suc (suc (suc (suc (suc (suc (suc (suc d)))))))))) h = absurd (omega arith)

-- Reading one digit.
scan-digit :
    (d m : ℕ) (s : String)
    → d < 10
    → m * 10 + d < two64
    → scan (String.◌∷◌ (digit d) s) m ≡ scan s (m * 10 + d)
unfolding scan
scan-digit d m s h k =
    let same : m * 10 + (48 + d - 48) ≡ m * 10 + d = omega arith in
    let below : (ltb (48 + d) 48 || ltb 57 (48 + d)) ≡ false = ground arith in
    rw (code-digit d h, below, same, lt→ltb (m * 10 + d) two64 k)

-- Reading the digits of `n` in front of `rest` gives `n` and goes on.
scan-digits :
    (fuel n : ℕ) (rest : String) → n ≤ fuel → n < two64 → scan (digits fuel n rest) 0 ≡ scan rest n
unfolding digits
scan-digits zero n rest h k =
    let none_left : n ≡ 0 = omega arith in
    rw none_left (scan-digit 0 0 rest (omega arith) (omega arith))
scan-digits (suc fuel) n rest h k = elim (Bool-cases (ltb n 10)) [
  | inl small ↦
      rw small (scan-digit n 0 rest (ground arith) (omega arith) ∙ ap (scan rest) (omega arith))
  | inr large ↦ rw large (
      scan-digits fuel (n / 10) _ (omega arith) (omega arith)
      ∙ scan-digit (n % 10) (n / 10) rest (omega arith) (omega arith)
      ∙ ap (scan rest) (omega arith))
]

-- A text that begins with a digit.
record BeginsDigit (s : String) : Type 0 where
  first : ℕ
  tail : String
  below : first < 10
  begins : s ≡ String.◌∷◌ (digit first) tail

digits-BeginsDigit : (fuel n : ℕ) (rest : String) → n ≤ fuel → BeginsDigit (digits fuel n rest)
unfolding digits
digits-BeginsDigit zero n rest h = record {
  first = n % 10;
  tail = rest;
  below = omega arith;
  begins = refl;
}
digits-BeginsDigit (suc fuel) n rest h = elim (Bool-cases (ltb n 10)) [
  | inl small ↦ rw small (record { first = n; tail = rest; below = ground arith; begins = refl })
  | inr large ↦ rw large (digits-BeginsDigit fuel (n / 10) _ (omega arith))
]

parse_uint-scan : (s : String) → BeginsDigit s → parse_uint s ≡ scan s 0
unfolding parse_uint
parse_uint-scan s b = rw b.begins

-- A text that begins with a digit carries no sign.
parse_int-unsigned : (s : String) → BeginsDigit s → parse_int s ≡ signed false (parse_uint s)
unfolding parse_int
parse_int-unsigned s b =
    let not_minus : (48 + b.first == 45) ≡ false = ground arith in
    let not_plus : (48 + b.first == 43) ≡ false = ground arith in
    rw (b.begins, code-digit b.first b.below, not_minus, not_plus)

parse_uint-digits : (n : ℕ) → n < two64 → parse_uint (digits n n "") ≡ some n
unfolding scan
parse_uint-digits n h =
    parse_uint-scan _ (digits-BeginsDigit n n "" (omega arith)) ∙ scan-digits n n "" (omega arith) h

parse_int-minus :
    (s : String) (n : ℕ)
    → n < two63
    → parse_uint s ≡ some (suc n)
    → parse_int (String.◌∷◌ "-" s) ≡ some (negsuc n)
unfolding parse_int
parse_int-minus s n h e = rw (e, lt→ltb n two63 h)

-- Every int64 is read back from its decimal print.
pub parse_int-fmt_int : (z : ℤ) → IsInt64 z → parse_int (fmt_int z) ≡ some z
unfolding fmt_int
parse_int-fmt_int (pos n) h =
    parse_int-unsigned _ (digits-BeginsDigit n n "" (omega arith))
    ∙ ap (signed false) (parse_uint-digits n (omega arith))
    ∙ rw (lt→ltb n two63 h)
parse_int-fmt_int (negsuc n) h =
    parse_int-minus (digits (suc n) (suc n) "") n h (parse_uint-digits (suc n) (omega arith))
