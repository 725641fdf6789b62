-- ===== src/Prelude/Strings.antt =====
-- Text as a list of code points, bytes as a list of numbers below 256, and the functions of Rust's
-- `str` that the program calls.
use Prim.Native.Nat.{ℕ, ◌+◌, ◌/◌, ◌%◌}
use Prim.Native.Char.{code}
use Prim.Native.String.{String}
use mathlib.Core.Path.{◌≡◌, refl}
use mathlib.Core.Logic.{◌≢◌, ◌↔◌}
use mathlib.Core.Bool.{Bool, true, false, not, ◌&&◌, ◌||◌}
use mathlib.Core.List.{List, [], ◌∷◌, ◌++◌}
use mathlib.Core.Option
use mathlib.Core.Option.{Option, none, some}
use native.Mathlib.Omega.{arith}
use gitarena.Prelude.Tests.{◌==◌, ltb, between, if◌then◌else◌}
use gitarena.Prelude.Lists.{is_empty, retain}

abbrev pub Text : Type 0
Text = List ℕ

abbrev pub Bytes : Type 0
Bytes = List ℕ

-- A literal of the source.
abbrev pub codes : String → Text
codes String.[] = []
codes (String.◌∷◌ c s) = code c ∷ codes s

-- `==` of two `str`, or of two byte slices
unfoldable pub text_eq : Text → Text → Bool
text_eq [] [] = true
text_eq [] (y ∷ ys) = false
text_eq (x ∷ xs) [] = false
text_eq (x ∷ xs) (y ∷ ys) = x == y && text_eq xs ys

pub text_eq_of : (a b : Text) → text_eq a b ≡ true → a ≡ b
unfolding text_eq
text_eq_of [] [] h = refl
text_eq_of [] (y ∷ ys) h = cc
text_eq_of (x ∷ xs) [] h = cc
text_eq_of (x ∷ xs) (y ∷ ys) h = ground (arith, text_eq_of xs ys)

pub text_refl : (a : Text) → text_eq a a ≡ true
unfolding text_eq
text_refl [] = refl
text_refl (x ∷ xs) = ground (arith, text_refl xs)

pub text_iff : (a b : Text) → (text_eq a b ≡ true) ↔ (a ≡ b)
text_iff a b = (text_eq_of a b, λ e. rw e (text_refl b))

pub text_ne_of : (a b : Text) → a ≢ b → text_eq a b ≡ false
text_ne_of a b h = ground (arith, text_iff a b)

-- `str::as_bytes`: the UTF-8 encoding
abbrev pub encode : ℕ → Bytes
encode c =
    if ltb c 0x80
    then c ∷ []
    else if ltb c 0x800
    then (0xC0 + c / 64) ∷ (0x80 + c % 64) ∷ []
    else if ltb c 0x10000
    then (0xE0 + c / 4096) ∷ (0x80 + c / 64 % 64) ∷ (0x80 + c % 64) ∷ []
    else (0xF0 + c / 262144) ∷ (0x80 + c / 4096 % 64) ∷ (0x80 + c / 64 % 64) ∷ (0x80 + c % 64) ∷ []

abbrev pub to_bytes : Text → Bytes
to_bytes [] = []
to_bytes (c ∷ t) = encode c ++ to_bytes t

-- `text.starts_with(prefix)`
unfoldable pub starts_with : Text → Text → Bool
starts_with text [] = true
starts_with [] (p ∷ ps) = false
starts_with (c ∷ cs) (p ∷ ps) = c == p && starts_with cs ps

-- `text.strip_prefix(prefix)`
unfoldable pub strip_prefix : Text → Text → Option Text
strip_prefix text [] = some text
strip_prefix [] (p ∷ ps) = none
strip_prefix (c ∷ cs) (p ∷ ps) = let rest = strip_prefix cs ps in if c == p then rest else none

unfoldable pub cons_first : ℕ → Text × Text → Text × Text
cons_first c (a, b) = (c ∷ a, b)

-- `text.split_once(c)`
unfoldable pub split_once : ℕ → Text → Option (Text × Text)
unfolding cons_first
split_once c [] = none
split_once c (x ∷ xs) =
    let rest = split_once c xs in if x == c then some ([], xs) else Option.map (cons_first x) rest

unfoldable pub cons_head : ℕ → List Text → List Text
cons_head c [] = (c ∷ []) ∷ []
cons_head c (w ∷ ws) = (c ∷ w) ∷ ws

-- `text.split(is_separator)`
unfoldable pub split : (ℕ → Bool) → Text → List Text
unfolding cons_head
split is_separator [] = [] ∷ []
split is_separator (c ∷ cs) =
    let rest = split is_separator cs in if is_separator c then [] ∷ rest else cons_head c rest

unfoldable pub non_empty : Text → Bool
non_empty t = not (is_empty t)

-- `text.split(is_separator).filter(|s| !s.is_empty())`
unfoldable pub words : (ℕ → Bool) → Text → List Text
unfolding split non_empty
words is_separator t = retain non_empty (split is_separator t)

-- `char::is_whitespace`: the Unicode property White_Space
abbrev pub is_whitespace : ℕ → Bool
is_whitespace c =
    between 9 13 c
    || c == 32
    || c == 0x85
    || c == 0xA0
    || c == 0x1680
    || between 0x2000 0x200A c
    || c == 0x2028
    || c == 0x2029
    || c == 0x202F
    || c == 0x205F
    || c == 0x3000
