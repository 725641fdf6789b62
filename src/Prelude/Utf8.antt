-- ===== src/Prelude/Utf8.antt =====
-- `String::from_utf8` of Rust's standard library: decoding by the table of well-formed sequences.
use Prim.Native.Nat.{ℕ, zero, suc, ◌+◌, ◌-◌, ◌*◌, ◌<◌}
use mathlib.Core.Path.{◌≡◌, refl}
use mathlib.Core.List.{[], ◌∷◌}
use mathlib.Core.Option
use mathlib.Core.Option.{Option, none, some}
use native.Mathlib.Omega.{arith}
use gitarena.Prelude.Tests.{◌==◌, ltb, between, if◌then◌else◌}
use gitarena.Prelude.Lists.{All}
use gitarena.Prelude.Strings.{Text, Bytes, to_bytes}

-- Between two characters, or inside one: the bytes still to come, the value so far and the range
-- of the next byte.
pub data Decoder : Type 0 where
  ready : Decoder
  inside : (left value lo hi : ℕ) → Decoder

abbrev lead : ℕ → Option (Decoder × Option ℕ)
lead b =
    if ltb b 0x80
    then some (ready, some b)
    else if between 0xC2 0xDF b
    then some (inside 0 (b - 0xC0) 0x80 0xBF, none)
    else if b == 0xE0
    then some (inside 1 0 0xA0 0xBF, none)
    else if b == 0xED
    then some (inside 1 0xD 0x80 0x9F, none)
    else if between 0xE1 0xEF b
    then some (inside 1 (b - 0xE0) 0x80 0xBF, none)
    else if b == 0xF0
    then some (inside 2 0 0x90 0xBF, none)
    else if between 0xF1 0xF3 b
    then some (inside 2 (b - 0xF0) 0x80 0xBF, none)
    else if b == 0xF4
    then some (inside 2 4 0x80 0x8F, none)
    else none

abbrev advance : ℕ → ℕ → Decoder × Option ℕ
advance zero value = (ready, some value)
advance (suc left) value = (inside left value 0x80 0xBF, none)

step : Decoder → ℕ → Option (Decoder × Option ℕ)
step ready b = lead b
step (inside left value lo hi) b =
    if between lo hi b then some (advance left (value * 64 + (b - 0x80))) else none

abbrev emit : Option ℕ → Option Text → Option Text
emit none rest = rest
emit (some c) rest = Option.map (λ t. c ∷ t) rest

decode : Decoder → Bytes → Option Text
decode ready [] = some []
decode (inside left value lo hi) [] = none
decode s (b ∷ bs) = elim (step s b) [ none ↦ none | some (s', out) ↦ emit out (decode s' bs) ]

unfoldable pub from_utf8 : Bytes → Option Text
unfolding decode step
from_utf8 bytes = decode ready bytes

-- ASCII text is its own encoding.
pub from_utf8-ascii : (t : Text) → All (λ c. c < 0x80) t → from_utf8 t ≡ some t
unfolding from_utf8
from_utf8-ascii [] h = refl
from_utf8-ascii (c ∷ t) (p, h) = ground (arith, from_utf8-ascii t h)

pub to_bytes-ascii : (t : Text) → All (λ c. c < 0x80) t → to_bytes t ≡ t
to_bytes-ascii [] h = refl
to_bytes-ascii (c ∷ t) (p, h) = ground (arith, to_bytes-ascii t h)
