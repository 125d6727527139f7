-- ===== src/Quota/Decimal.antt =====
-- int64ToString of internal/services/quota.go, which fills a buffer of 20 bytes from its end, and
-- strconv.ParseInt in base 10, which reads the ids of quotas.
pub mod RoundTrip
use indelible.Common.{
  ℕ, zero, suc, ◌+◌, ◌-◌, ◌*◌, ◌/◌, ◌%◌, Bool, ◌&&◌, List, [], ◌∷◌, Option, none, some, ltb, leb,
  ◌==◌, if◌then◌else◌, Bytes,
}
use indelible.Common.Int.{ℤ, pos, negsuc}

-- The loop `for n > 0`, with `i` bytes of the buffer free; none is the panic of an index below 0.
unfoldable pub digits : ℕ → ℕ → Bytes → Option Bytes
digits zero n b = if n == 0 then some b else none
digits (suc i) n b =
    let rest = digits i (n / 10) ((48 + n % 10) ∷ b) in if n == 0 then some b else rest

-- The last `i--; b[i] = '-'`.
unfoldable pub minus : Option Bytes → Option Bytes
minus none = none
minus (some b) = some (45 ∷ b)

-- `-n` overflows for the least int64, which is -(9223372036854775807 + 1), and stays negative: the
-- loop does not run.
unfoldable pub int64_to_string : ℤ → Option Bytes
int64_to_string (pos zero) = some (48 ∷ [])
int64_to_string (pos (suc n)) = digits 20 (suc n) []
int64_to_string (negsuc n) =
    if n == 9223372036854775807 then some (45 ∷ []) else minus (digits 19 (suc n) [])

unfoldable pub parse_digits : ℕ → Bytes → Option ℕ
parse_digits a [] = some a
parse_digits a (c ∷ cs) = if leb 48 c && leb c 57 then parse_digits (a * 10 + (c - 48)) cs else none

unfoldable pub unsigned : Bytes → Option ℕ
unsigned [] = none
unsigned (c ∷ cs) = parse_digits 0 (c ∷ cs)

-- The range checks of ParseInt for 64 bits.
unfoldable pub in_range : Option ℕ → Option ℤ
in_range none = none
in_range (some n) = if ltb n 9223372036854775808 then some (pos n) else none

unfoldable pub in_negative_range : Option ℕ → Option ℤ
in_negative_range none = none
in_negative_range (some zero) = some (pos 0)
in_negative_range (some (suc n)) = if ltb n 9223372036854775808 then some (negsuc n) else none

unfoldable pub parse_int : Bytes → Option ℤ
parse_int [] = none
parse_int (c ∷ cs) =
    if c == 43
    then in_range (unsigned cs)
    else if c == 45
    then in_negative_range (unsigned cs)
    else in_range (unsigned (c ∷ cs))
