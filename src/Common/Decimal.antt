-- ===== src/Common/Decimal.antt =====
-- `%d` and `strconv.ParseInt(s, 10, 64)`: numbers in decimal.
pub mod RoundTrip
use Prim.Native.Char.{Char, code}
use Prim.Native.Nat.{ℕ, zero, suc, ◌+◌, ◌-◌, ◌*◌, ◌/◌, ◌%◌}
use Prim.Native.String
use Prim.Native.String.{String}
use mathlib.Core.Bool.{Bool, true, false, ◌||◌}
use mathlib.Core.Option.{Option, none, some}
use iron_book.Common.Tests.{ltb, ◌==◌, if◌then◌else◌}
use iron_book.Common.Int.{ℤ, pos, negsuc, two63, two64}

-- The digit of a number below 10.
unfoldable pub digit : ℕ → Char
digit zero = "0"
digit (suc zero) = "1"
digit (suc (suc zero)) = "2"
digit (suc (suc (suc zero))) = "3"
digit (suc (suc (suc (suc zero)))) = "4"
digit (suc (suc (suc (suc (suc zero))))) = "5"
digit (suc (suc (suc (suc (suc (suc zero)))))) = "6"
digit (suc (suc (suc (suc (suc (suc (suc zero))))))) = "7"
digit (suc (suc (suc (suc (suc (suc (suc (suc zero)))))))) = "8"
digit _ = "9"

-- The digits of `n`, in front of `rest`. A number is larger than the count of its digits, so
-- `n` itself is enough fuel.
unfoldable pub digits : ℕ → ℕ → String → String
unfolding digit
digits zero n rest = String.◌∷◌ (digit (n % 10)) rest
digits (suc fuel) n rest =
    let more = digits fuel (n / 10) (String.◌∷◌ (digit (n % 10)) rest) in
    if ltb n 10 then String.◌∷◌ (digit n) rest else more

unfoldable pub fmt_int : ℤ → String
unfolding digits
fmt_int (pos n) = digits n n ""
fmt_int (negsuc n) = String.◌∷◌ "-" (digits (suc n) (suc n) "")

-- The digits of `s` behind the number `n`, as a uint64; none where another character comes or the
-- number gets too large.
unfoldable pub scan : String → ℕ → Option ℕ
scan String.[] n = some n
scan (String.◌∷◌ c s) n =
    let m = n * 10 + (code c - 48) in
    let rest = scan s m in
    if ltb (code c) 48 || ltb 57 (code c) then none else if ltb m two64 then rest else none

-- One digit or more.
unfoldable pub parse_uint : String → Option ℕ
unfolding scan
parse_uint String.[] = none
parse_uint (String.◌∷◌ c s) = scan (String.◌∷◌ c s) 0

-- The sign on a number, where the result is an int64.
abbrev pub negated : ℕ → Option ℤ
negated zero = some (pos zero)
negated (suc n) = if ltb n two63 then some (negsuc n) else none

abbrev pub signed : Bool → Option ℕ → Option ℤ
signed negative none = none
signed true (some n) = negated n
signed false (some n) = if ltb n two63 then some (pos n) else none

unfoldable pub parse_int : String → Option ℤ
unfolding parse_uint
parse_int String.[] = none
parse_int (String.◌∷◌ c s) =
    if code c == 45
    then signed true (parse_uint s)
    else if code c == 43
    then signed false (parse_uint s)
    else signed false (parse_uint (String.◌∷◌ c s))
