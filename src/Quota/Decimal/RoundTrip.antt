-- ===== src/Quota/Decimal/RoundTrip.antt =====
-- An int64 that is printed reads back as itself.
use indelible.Common.{
  ℕ, zero, suc, ◌+◌, ◌/◌, ◌%◌, ◌^◌, ◌≤◌, ◌<◌, ◌≡◌, refl, ap, ◌∙◌, [], ◌∷◌, Option, some, ◌==◌,
  Bytes, arith, Bool-cases, inl, inr,
}
use indelible.Common.Int.{ℤ, pos, negsuc, pos_part, neg_part}
use indelible.Quota.Decimal.{
  digits, minus, int64_to_string, parse_digits, unsigned, in_range, in_negative_range, parse_int,
}

-- A string that starts with a digit or beyond, so with no sign.
StartsDigit : Bytes → Type 0
StartsDigit [] = 1 ≤ 0
StartsDigit (c ∷ cs) = 48 ≤ c

-- What a run of the loop leaves in the buffer: it reads as the number, with what was there after it.
record Printed (n : ℕ) (b : Bytes) (o : Option Bytes) : Type 0 where
  out : Bytes
  returned : o ≡ some out
  value : parse_digits 0 out ≡ parse_digits n b
  start : (n ≡ 0 → StartsDigit b) → StartsDigit out

parse_digits-digit :
    (n : ℕ) (b : Bytes) → parse_digits (n / 10) ((48 + n % 10) ∷ b) ≡ parse_digits n b
unfolding parse_digits
parse_digits-digit n b = ground arith

digits-Printed : (i n : ℕ) (b : Bytes) → n < 10 ^ i → Printed n b (digits i n b)
unfolding digits StartsDigit
digits-Printed zero n b h =
    let z : n ≡ 0 = omega arith in
    elim (Bool-cases (n == 0)) [
      | inl e ↦ record { out = b; returned = rw e refl; value = rw z refl; start = λ s. s z }
      | inr e ↦ absurd (ground arith)
    ]
digits-Printed (suc i) n b h = elim (Bool-cases (n == 0)) [
  | inl e ↦
      let z : n ≡ 0 = ground arith in
      record { out = b; returned = rw e refl; value = rw z refl; start = λ s. s z }
  | inr e ↦
      let p = digits-Printed i (n / 10) ((48 + n % 10) ∷ b) (omega arith) in
      record {
        out = p.out;
        returned = rw e p.returned;
        value = p.value ∙ parse_digits-digit n b;
        start = λ _. p.start (λ _. omega arith);
      }
]

unsigned-StartsDigit : (b : Bytes) → StartsDigit b → unsigned b ≡ parse_digits 0 b
unfolding unsigned StartsDigit
unsigned-StartsDigit [] h = absurd (omega arith)
unsigned-StartsDigit (c ∷ cs) h = refl

parse_int-StartsDigit : (b : Bytes) → StartsDigit b → parse_int b ≡ in_range (parse_digits 0 b)
unfolding parse_int unsigned StartsDigit
parse_int-StartsDigit [] h = absurd (omega arith)
parse_int-StartsDigit (c ∷ cs) h = ground arith

parse_int-minus :
    (b : Bytes) → StartsDigit b → parse_int (45 ∷ b) ≡ in_negative_range (parse_digits 0 b)
unfolding parse_int
parse_int-minus b h = ap in_negative_range (unsigned-StartsDigit b h)

-- Every int64 but the least is printed, within the buffer, to a string that ParseInt reads back as
-- that number.
pub parse_int-int64_to_string :
    (z : ℤ)
    → pos_part z < 9223372036854775808
    → neg_part z < 9223372036854775808
    → (s : Bytes) × (int64_to_string z ≡ some s) × (parse_int s ≡ some z)
unfolding int64_to_string minus in_range in_negative_range parse_digits
parse_int-int64_to_string (pos zero) hp hn = (48 ∷ [], refl, unfold parse_int unsigned in refl)
parse_int-int64_to_string (pos (suc n)) hp hn =
    let p = digits-Printed 20 (suc n) [] (omega arith) in
    let s = p.start (λ e. absurd (omega arith)) in
    (p.out, p.returned, parse_int-StartsDigit p.out s ∙ (rw p.value (ground arith)))
parse_int-int64_to_string (negsuc n) hp hn =
    let p = digits-Printed 19 (suc n) [] (omega arith) in
    let s = p.start (λ e. absurd (omega arith)) in
    elim (Bool-cases (n == 9223372036854775807)) [
      | inl e ↦ absurd (ground arith)
      | inr e ↦ (
        45 ∷ p.out,
        rw (e, p.returned) refl,
        parse_int-minus p.out s ∙ (rw p.value (ground arith)),
      )
    ]
