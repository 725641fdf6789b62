-- ===== src/Prelude/Words.antt =====
-- Splitting a text that was joined with separators gives its words back.
use gitarena.Prelude.Lists.{All, is_empty}
use gitarena.Prelude.Strings.{split_once, Text, split, words}
use Prim.Native.Nat.{ℕ}
use mathlib.Core.Path.{◌≡◌, refl}
use mathlib.Core.Logic.{◌≢◌}
use mathlib.Core.Option.{some}
use mathlib.Core.Bool.{Bool, true, false}
use mathlib.Core.List.{List, [], ◌∷◌, ◌++◌, map}
use native.Mathlib.Omega.{arith}

module _ (is_separator : ℕ → Bool) where
  abbrev pub HasNoSeparator : Text → Type 0
  HasNoSeparator w = All (λ c. is_separator c ≡ false) w

  abbrev pub IsWord : Text → Type 0
  IsWord w = (is_empty w ≡ false) × HasNoSeparator w

  split_word : (w : Text) → HasNoSeparator w → split is_separator w ≡ w ∷ []
  unfolding split
  split_word [] h = refl
  split_word (c ∷ w) (p, h) = ground (arith, split_word w h)

  split-append :
      (w : Text) (s : ℕ) (rest : Text)
      → HasNoSeparator w
      → is_separator s ≡ true
      → split is_separator (w ++ s ∷ rest) ≡ w ∷ split is_separator rest
  unfolding split
  split-append [] s rest h e = ground arith
  split-append (c ∷ w) s rest (p, h) e = ground (arith, split-append w s rest h e)

  -- A first word, then further words, each behind its separator.
  abbrev pub join : Text → List (ℕ × Text) → Text
  join w [] = w
  join w ((s, v) ∷ more) = w ++ s ∷ join v more

  abbrev pub AreWords : List (ℕ × Text) → Type 0
  AreWords more = All (λ p. (is_separator p.0 ≡ true) × IsWord p.1) more

  abbrev pub texts : List (ℕ × Text) → List Text
  texts more = map (λ p. p.1) more

  pub words-join :
      (w : Text) (more : List (ℕ × Text))
      → IsWord w
      → AreWords more
      → words is_separator (join w more) ≡ w ∷ texts more
  unfolding words
  words-join w [] (n, h) k = ground (arith, split_word w h)
  words-join w ((s, v) ∷ more) (n, h) ((e, k), ks) =
      ground (arith, split-append w s (join v more) h e, words-join v more k ks)

-- A separator is found at its first place.
pub split_once-append :
    (c : ℕ) (a b : Text) → All (λ x. x ≢ c) a → split_once c (a ++ c ∷ b) ≡ some (a, b)
unfolding split_once
split_once-append c [] b h = ground arith
split_once-append c (x ∷ a) b (p, h) = ground (arith, split_once-append c a b h)
