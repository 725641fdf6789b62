-- ===== src/Prelude/Decimal.antt =====
-- `format!("{}", n)` and `format!("{:>3}", n)` of an unsigned integer.
pub mod RoundTrip
use Prim.Native.Nat.{ℕ, zero, suc, ◌+◌, ◌/◌, ◌%◌}
use mathlib.Core.List.{[], ◌∷◌, ◌++◌}
use gitarena.Prelude.Tests.{ltb, if◌then◌else◌}
use gitarena.Prelude.Strings.{Text}

abbrev digit : ℕ → ℕ
digit d = b'0' + d

-- At most `rounds` more digits.
decimal_from : ℕ → ℕ → Text
decimal_from zero n = digit (n % 10) ∷ []
decimal_from (suc rounds) n =
    let higher = decimal_from rounds (n / 10) in
    if ltb n 10 then digit n ∷ [] else higher ++ digit (n % 10) ∷ []

-- A 64-bit integer has at most twenty digits.
unfoldable pub decimal : ℕ → Text
unfolding decimal_from
decimal n = decimal_from 19 n

abbrev pub pad_three : Text → Text
pad_three [] = b' ' ∷ b' ' ∷ b' ' ∷ []
pad_three (a ∷ []) = b' ' ∷ b' ' ∷ a ∷ []
pad_three (a ∷ b ∷ []) = b' ' ∷ a ∷ b ∷ []
pad_three t = t
