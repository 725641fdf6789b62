-- ===== src/Prelude/Number.antt =====
-- `parse::<i32>()` and `parse::<u32>()` of the standard library: a sign and digits, within the range
-- of the type.
use gitarena.Prelude.{
  ℕ, ◌+◌, ◌*◌, ◌-◌, Bool, true, false, Option, none, some, [], ◌∷◌, Text, leb, between,
  if◌then◌else◌, ◌==◌,
}

-- The digits behind a number that is already read.
unfoldable pub parse_from : ℕ → Text → Option ℕ
parse_from n [] = some n
parse_from n (c ∷ cs) =
    let rest = parse_from (n * 10 + (c - b'0')) cs in if between b'0' b'9' c then rest else none

abbrev parse_digits : Text → Option ℕ
parse_digits [] = none
parse_digits (c ∷ cs) = parse_from 0 (c ∷ cs)

abbrev within : Bool → ℕ → Option ℕ → Option (Bool × ℕ)
within negative limit none = none
within negative limit (some n) = if leb n limit then some (negative, n) else none

-- The sign, true for a negative number, and the absolute value.
unfoldable pub parse_i32 : Text → Option (Bool × ℕ)
parse_i32 [] = none
parse_i32 (c ∷ cs) =
    if c == b'-'
    then within true 2147483648 (parse_digits cs)
    else if c == b'+'
    then within false 2147483647 (parse_digits cs)
    else within false 2147483647 (parse_digits (c ∷ cs))

abbrev at_most : ℕ → Option ℕ → Option ℕ
at_most limit none = none
at_most limit (some n) = if leb n limit then some n else none

unfoldable pub parse_u32 : Text → Option ℕ
parse_u32 [] = none
parse_u32 (c ∷ cs) =
    if c == b'+'
    then at_most 4294967295 (parse_digits cs)
    else at_most 4294967295 (parse_digits (c ∷ cs))
