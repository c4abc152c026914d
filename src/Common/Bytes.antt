-- ===== src/Common/Bytes.antt =====
-- Byte strings: little-endian numbers and `hex.EncodeToString`.
pub mod Hex
pub mod Equality
use Prim.Native.Nat.{ℕ, zero, suc, ◌+◌, ◌-◌, ◌*◌, ◌/◌, ◌%◌, ◌<◌}
use Prim.Native.Char.{Char, code}
use Prim.Native.String.{String}
use mathlib.Core.Path.{◌≡◌, refl, sym, ap, ◌∙◌}
use mathlib.Core.List.{List, [], ◌∷◌}
use native.Mathlib.Omega.{arith}
use iron_book.Common.Int.{two64}
use iron_book.Common.Lists.{All}
use iron_book.Common.Tests.{ltb, if◌then◌else◌}

-- `binary.LittleEndian.PutUint64`.
unfoldable pub put_uint64_le : ℕ → List ℕ
put_uint64_le v =
    v % 256
    ∷ v / 256 % 256
    ∷ v / 65536 % 256
    ∷ v / 16777216 % 256
    ∷ v / 4294967296 % 256
    ∷ v / 1099511627776 % 256
    ∷ v / 281474976710656 % 256
    ∷ v / 72057594037927936 % 256
    ∷ []

-- The number that a little-endian byte string stands for.
abbrev pub from_le : List ℕ → ℕ
from_le [] = 0
from_le (b ∷ bs) = b + 256 * from_le bs

from_le-put_uint64_le : (v : ℕ) → v < two64 → from_le (put_uint64_le v) ≡ v
unfolding put_uint64_le
from_le-put_uint64_le v h = omega arith

pub put_uint64_le-inj :
    (a b : ℕ) → a < two64 → b < two64 → put_uint64_le a ≡ put_uint64_le b → a ≡ b
put_uint64_le-inj a b h k e =
    sym (from_le-put_uint64_le a h) ∙ ap from_le e ∙ from_le-put_uint64_le b k

-- The hexadecimal digit of a number below 16.
unfoldable pub hex_digit : ℕ → Char
hex_digit zero = "0"
hex_digit (suc zero) = "1"
hex_digit (suc (suc zero)) = "2"
hex_digit (suc (suc (suc zero))) = "3"
hex_digit (suc (suc (suc (suc zero)))) = "4"
hex_digit (suc (suc (suc (suc (suc zero))))) = "5"
hex_digit (suc (suc (suc (suc (suc (suc zero)))))) = "6"
hex_digit (suc (suc (suc (suc (suc (suc (suc zero))))))) = "7"
hex_digit (suc (suc (suc (suc (suc (suc (suc (suc zero)))))))) = "8"
hex_digit (suc (suc (suc (suc (suc (suc (suc (suc (suc zero))))))))) = "9"
hex_digit (suc (suc (suc (suc (suc (suc (suc (suc (suc (suc zero)))))))))) = "a"
hex_digit (suc (suc (suc (suc (suc (suc (suc (suc (suc (suc (suc zero))))))))))) = "b"
hex_digit (suc (suc (suc (suc (suc (suc (suc (suc (suc (suc (suc (suc zero)))))))))))) = "c"
hex_digit (suc (suc (suc (suc (suc (suc (suc (suc (suc (suc (suc (suc (suc zero))))))))))))) = "d"
hex_digit (suc (suc (suc (suc (suc (suc (suc (suc (suc (suc (suc (suc (suc (suc zero)))))))))))))) =
    "e"
hex_digit _ = "f"

-- `hex.EncodeToString`.
unfoldable pub hex : List ℕ → String
unfolding hex_digit
hex [] = ""
hex (b ∷ bs) = String.◌∷◌ (hex_digit (b / 16)) (String.◌∷◌ (hex_digit (b % 16)) (hex bs))

-- The number of a hexadecimal digit.
abbrev pub from_hex_digit : Char → ℕ
from_hex_digit c = if ltb (code c) 58 then code c - 48 else code c - 87

-- The bytes of a hexadecimal text; a single digit at the end is dropped.
abbrev pub from_hex : String → List ℕ
from_hex String.[] = []
from_hex (String.◌∷◌ c String.[]) = []
from_hex (String.◌∷◌ c (String.◌∷◌ d s)) = (from_hex_digit c * 16 + from_hex_digit d) ∷ from_hex s

from_hex_digit-hex_digit : (n : ℕ) → n < 16 → from_hex_digit (hex_digit n) ≡ n
unfolding hex_digit
from_hex_digit-hex_digit zero h = refl
from_hex_digit-hex_digit (suc zero) h = refl
from_hex_digit-hex_digit (suc (suc zero)) h = refl
from_hex_digit-hex_digit (suc (suc (suc zero))) h = refl
from_hex_digit-hex_digit (suc (suc (suc (suc zero)))) h = refl
from_hex_digit-hex_digit (suc (suc (suc (suc (suc zero))))) h = refl
from_hex_digit-hex_digit (suc (suc (suc (suc (suc (suc zero)))))) h = refl
from_hex_digit-hex_digit (suc (suc (suc (suc (suc (suc (suc zero))))))) h = refl
from_hex_digit-hex_digit (suc (suc (suc (suc (suc (suc (suc (suc zero)))))))) h = refl
from_hex_digit-hex_digit (suc (suc (suc (suc (suc (suc (suc (suc (suc zero))))))))) h = refl
from_hex_digit-hex_digit (suc (suc (suc (suc (suc (suc (suc (suc (suc (suc zero)))))))))) h = refl
from_hex_digit-hex_digit (suc (suc (suc (suc (suc (suc (suc (suc (suc (suc (suc zero))))))))))) h =
    refl
from_hex_digit-hex_digit
      (suc (suc (suc (suc (suc (suc (suc (suc (suc (suc (suc (suc zero)))))))))))) h =
    refl
from_hex_digit-hex_digit
      (suc (suc (suc (suc (suc (suc (suc (suc (suc (suc (suc (suc (suc zero))))))))))))) h =
    refl
from_hex_digit-hex_digit
      (suc (suc (suc (suc (suc (suc (suc (suc (suc (suc (suc (suc (suc (suc zero)))))))))))))) h =
    refl
from_hex_digit-hex_digit
      (suc (suc (suc (suc (suc (suc (suc (suc (suc (suc (suc (suc (suc (suc (suc zero)))))))))))))))
      h =
    refl
from_hex_digit-hex_digit
      (suc
        (suc (suc (suc (suc (suc (suc (suc (suc (suc (suc (suc (suc (suc (suc (suc n))))))))))))))))
      h =
    absurd (omega arith)

-- `hex.EncodeToString` loses nothing: the bytes can be read back.
pub from_hex-hex : (bs : List ℕ) → All (λ b. b < 256) bs → from_hex (hex bs) ≡ bs
unfolding hex
from_hex-hex [] h = refl
from_hex-hex (b ∷ bs) h =
    let hi : b / 16 < 16 = omega (arith, h.0) in
    let lo : b % 16 < 16 = omega arith in
    let whole : b / 16 * 16 + b % 16 ≡ b = omega arith in
    rw (
      from_hex_digit-hex_digit (b / 16) hi,
      from_hex_digit-hex_digit (b % 16) lo,
      from_hex-hex bs h.1,
      whole,
    )
