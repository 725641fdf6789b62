-- ===== src/Prelude/Decimal/RoundTrip.antt =====
-- A number that was printed is parsed to itself.
use gitarena.Prelude.{
  ℕ, zero, suc, ◌+◌, ◌-◌, ◌*◌, ◌/◌, ◌%◌, ◌<◌, ◌≤◌, ◌≡◌, refl, ap, ◌∙◌, true, false, some, [], ◌∷◌,
  ◌++◌, Text, arith, ltb, leb, between, All, All-append, Bool-cases, inl, inr, ◌==◌, is_empty,
}
use gitarena.Prelude.Number.{parse_from, parse_i32}
use gitarena.Prelude.Decimal.{decimal, decimal_from, digit}

-- A character of a decimal number.
abbrev pub IsDigit : ℕ → Type 0
IsDigit c = (48 ≤ c) × (c ≤ 57)

parse_from-snoc :
    (m k c : ℕ) (t : Text)
    → parse_from m t ≡ some k
    → IsDigit c
    → parse_from m (t ++ c ∷ []) ≡ some (k * 10 + (c - 48))
unfolding parse_from
parse_from-snoc m k c [] e h = ground (arith, e)
parse_from-snoc m k c (x ∷ t) e h = elim (Bool-cases (between b'0' b'9' x)) [
  | inl d ↦ rw d (parse_from-snoc (m * 10 + (x - b'0')) k c t (rw d at e) h)
  | inr d ↦ absurd (let f = rw d at e in cc)
]

digits : (rounds n : ℕ) → All IsDigit (decimal_from rounds n)
unfolding decimal_from
digits zero n = (omega arith, tt)
digits (suc rounds) n = elim (Bool-cases (ltb n 10)) [
  | inl e ↦ rw e (ground arith, tt)
  | inr e ↦ rw e (
      All-append IsDigit (decimal_from rounds (n / 10)) (digit (n % 10) ∷ [])
        (digits rounds (n / 10)) (omega arith, tt))
]

parse_digit : (d : ℕ) → d < 10 → parse_from 0 (digit d ∷ []) ≡ some d
unfolding parse_from
parse_digit d h = ground arith

parse_last : (k n : ℕ) → n / 10 ≡ k → k * 10 + (digit (n % 10) - 48) ≡ n
parse_last k n e = omega arith

-- What so many further digits can hold.
abbrev bound : ℕ → ℕ
bound zero = 10
bound (suc rounds) = bound rounds * 10

parse_from-decimal_from :
    (rounds n : ℕ) → n < bound rounds → parse_from 0 (decimal_from rounds n) ≡ some n
unfolding decimal_from
parse_from-decimal_from zero n h = let e : n % 10 ≡ n = omega arith in rw e (parse_digit n h)
parse_from-decimal_from (suc rounds) n h = elim (Bool-cases (ltb n 10)) [
  | inl e ↦ rw e (parse_digit n (ground arith))
  | inr e ↦ rw e (
      parse_from-snoc 0 (n / 10) (digit (n % 10)) (decimal_from rounds (n / 10))
        (parse_from-decimal_from rounds (n / 10) (omega (arith, h))) (omega arith, omega arith)
      ∙ ap some (parse_last (n / 10) n refl))
]

pub decimal-IsDigit : (n : ℕ) → All IsDigit (decimal n)
unfolding decimal
decimal-IsDigit n = digits 19 n

is_empty-snoc : (t : Text) (c : ℕ) → is_empty (t ++ c ∷ []) ≡ false
is_empty-snoc [] c = refl
is_empty-snoc (x ∷ t) c = refl

is_empty-decimal_from : (rounds n : ℕ) → is_empty (decimal_from rounds n) ≡ false
unfolding decimal_from
is_empty-decimal_from zero n = refl
is_empty-decimal_from (suc rounds) n = elim (Bool-cases (ltb n 10)) [
  | inl e ↦ rw e refl
  | inr e ↦ rw e (is_empty-snoc (decimal_from rounds (n / 10)) (digit (n % 10)))
]

signless :
    (t : Text) (n : ℕ)
    → All IsDigit t
    → is_empty t ≡ false
    → parse_from 0 t ≡ some n
    → n ≤ 2147483647
    → parse_i32 t ≡ some (false, n)
unfolding parse_i32
signless [] n d ne h l = absurd (cc)
signless (c ∷ t) n (p, d) ne h l =
    let minus : (c == b'-') ≡ false = ground arith in
    let plus : (c == b'+') ≡ false = ground arith in
    let fits : leb n 2147483647 ≡ true = ground arith in rw (minus, plus, h, fits) refl

-- A number that an `i32` can hold is parsed to itself from its decimal digits.
pub parse_i32-decimal : (n : ℕ) → n ≤ 2147483647 → parse_i32 (decimal n) ≡ some (false, n)
unfolding decimal
parse_i32-decimal n h =
    signless (decimal_from 19 n) n (digits 19 n) (is_empty-decimal_from 19 n)
      (parse_from-decimal_from 19 n (omega arith)) h
