-- ===== src/Crypto/Hex.antt =====
-- encoding/hex of the Go library: EncodeToString and DecodeString.
use indelible.Common.{
  ℕ, ◌+◌, ◌-◌, ◌*◌, ◌/◌, ◌%◌, ◌≡◌, ◌<◌, refl, ◌&&◌, not, ◌==◌, [], ◌∷◌, Option, none, some, arith,
  true, ltb, leb, if◌then◌else◌, All, all, Bytes,
}

-- The digit of a number below 16.
unfoldable hex_digit : ℕ → ℕ
hex_digit n = if ltb n 10 then 48 + n else 87 + n

unfoldable from_hex : ℕ → Option ℕ
from_hex c =
    if leb 48 c && leb c 57
    then some (c - 48)
    else if leb 97 c && leb c 102
    then some (c - 87)
    else if leb 65 c && leb c 70
    then some (c - 55)
    else none

unfoldable pub hex_encode : Bytes → Bytes
unfolding hex_digit
hex_encode [] = []
hex_encode (x ∷ xs) = hex_digit (x / 16) ∷ hex_digit (x % 16) ∷ hex_encode xs

-- A byte from its digits, before the bytes after it.
abbrev byte : Option ℕ → Option ℕ → Option Bytes → Option Bytes
byte (some a) (some b) (some xs) = some ((16 * a + b) ∷ xs)
byte a b r = none

unfoldable pub hex_decode : Bytes → Option Bytes
unfolding from_hex
hex_decode [] = some []
hex_decode (c ∷ []) = none
hex_decode (c ∷ d ∷ cs) = byte (from_hex c) (from_hex d) (hex_decode cs)

from_hex-hex_digit : (n : ℕ) → n < 16 → from_hex (hex_digit n) ≡ some n
unfolding from_hex hex_digit
from_hex-hex_digit n h = ground arith

abbrev pub AllBytes : Bytes → Type 0
AllBytes xs = All (λ x. x < 256) xs

pub hex_decode-hex_encode : (xs : Bytes) → AllBytes xs → hex_decode (hex_encode xs) ≡ some xs
unfolding hex_decode hex_encode
hex_decode-hex_encode [] a = refl
hex_decode-hex_encode (x ∷ xs) a =
    let b = a.0 in
    let e : 16 * (x / 16) + x % 16 ≡ x = omega (arith, b) in
    rw
      (
        from_hex-hex_digit (x / 16) (omega (arith, b)),
        from_hex-hex_digit (x % 16) (omega (arith, b)),
        hex_decode-hex_encode xs a.1,
        e,
      )
      refl

pub no_colon-hex_encode : (xs : Bytes) → all (λ c. not (c == 58)) (hex_encode xs) ≡ true
unfolding hex_encode hex_digit
no_colon-hex_encode [] = refl
no_colon-hex_encode (x ∷ xs) = let i = no_colon-hex_encode xs in ground arith
