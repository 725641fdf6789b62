-- ===== src/Prelude/Lists.antt =====
-- Lists measured by native numbers, predicates on all elements, and the searches of the queries.
use Prim.Native.Nat.{ℕ, zero, suc, ◌+◌}
use mathlib.Core.Path.{◌≡◌, refl, sym, subst}
use mathlib.Core.Bool.{Bool, true, false, ◌&&◌, ◌||◌}
use mathlib.Core.List.{List, [], ◌∷◌, ◌++◌, Memᴰ}
use mathlib.Core.Logic.{◌⊎◌, inl, inr}
use mathlib.Core.Option.{Option, none, some}
use native.Mathlib.Omega.{arith}
use gitarena.Prelude.Tests.{if◌then◌else◌, Bool-cases}

module _ {ℓ} {A : Type ℓ} where
  abbrev pub length : List A → ℕ
  length [] = 0
  length (x ∷ xs) = suc (length xs)

  abbrev pub take : ℕ → List A → List A
  take zero xs = []
  take (suc n) [] = []
  take (suc n) (x ∷ xs) = x ∷ take n xs

  abbrev pub drop : ℕ → List A → List A
  drop zero xs = xs
  drop (suc n) [] = []
  drop (suc n) (x ∷ xs) = drop n xs

  abbrev pub is_empty : List A → Bool
  is_empty [] = true
  is_empty (x ∷ xs) = false

  -- `iter().all(..)`
  abbrev pub all : (A → Bool) → List A → Bool
  all p [] = true
  all p (x ∷ xs) = p x && all p xs

  -- `iter().any(..)`, `select exists(...)`
  abbrev pub any : (A → Bool) → List A → Bool
  any p [] = false
  any p (x ∷ xs) = p x || any p xs

  -- `select * ... limit 1`
  abbrev pub find? : (A → Bool) → List A → Option A
  find? p [] = none
  find? p (x ∷ xs) = let rest = find? p xs in if p x then some x else rest

  -- `retain`, and what a `delete` leaves
  abbrev pub retain : (A → Bool) → List A → List A
  retain p [] = []
  retain p (x ∷ xs) = let rest = retain p xs in if p x then x ∷ rest else rest

  -- `select count(*) ... where`
  abbrev pub count : (A → Bool) → List A → ℕ
  count p [] = 0
  count p (x ∷ xs) = let rest = count p xs in if p x then suc rest else rest

  -- `update ... set ... where`
  abbrev pub update : (A → Bool) → (A → A) → List A → List A
  update p f [] = []
  update p f (x ∷ xs) = (if p x then f x else x) ∷ update p f xs

module _ {ℓ} {A : Type ℓ} where
  pub length-append : (xs ys : List A) → length (xs ++ ys) ≡ length xs + length ys
  length-append [] ys = omega arith
  length-append (x ∷ xs) ys = omega (arith, length-append xs ys)

  pub count-append : (p : A → Bool) (xs ys : List A) → count p (xs ++ ys) ≡ count p xs + count p ys
  count-append p [] ys = omega arith
  count-append p (x ∷ xs) ys = ground (arith, count-append p xs ys)

  pub any-append : (p : A → Bool) (xs ys : List A) → any p (xs ++ ys) ≡ (any p xs || any p ys)
  any-append p [] ys = refl
  any-append p (x ∷ xs) ys = ground (arith, any-append p xs ys)

  -- What `find?` returns satisfies the test.
  pub find?-holds : (p : A → Bool) (xs : List A) (a : A) → find? p xs ≡ some a → p a ≡ true
  find?-holds p [] a h = cc
  find?-holds p (x ∷ xs) a h = ground (arith, find?-holds p xs a)

  pub find?-none : (p : A → Bool) (xs : List A) → find? p xs ≡ none → any p xs ≡ false
  find?-none p [] h = refl
  find?-none p (x ∷ xs) h = ground (arith, find?-none p xs)

abbrev pub All {ℓ κ} : {A : Type ℓ} → (A → Type κ) → List A → Type κ
All P [] = Unit
All P (x ∷ xs) = P x × All P xs

module _ {ℓ κ} {A : Type ℓ} where
  pub All-Mem : (P : A → Type κ) (a : A) (xs : List A) → Memᴰ a xs → All P xs → P a
  All-Mem P a [] m h = elim m [ ]
  All-Mem P a (x ∷ xs) (Memᴰ.head e) (p, h) = subst P (sym e) p
  All-Mem P a (x ∷ xs) (Memᴰ.tail m) (p, h) = All-Mem P a xs m h

  pub All-append : (P : A → Type κ) (xs ys : List A) → All P xs → All P ys → All P (xs ++ ys)
  All-append P [] ys h k = k
  All-append P (x ∷ xs) ys (p, h) k = (p, All-append P xs ys h k)

module _ {ℓ} {A : Type ℓ} where
  -- What `find?` returns is in the list and satisfies the test.
  pub find?-Mem :
      (p : A → Bool) (xs : List A) (a : A) → find? p xs ≡ some a → Memᴰ a xs × (p a ≡ true)
  find?-Mem p [] a h = cc
  find?-Mem p (x ∷ xs) a h = elim (Bool-cases (p x)) [
    | inl here ↦ (Memᴰ.head (ground arith), ground arith)
    | inr there ↦ let (m, q) = find?-Mem p xs a (ground arith) in (Memᴰ.tail m, q)
  ]

  -- An element that satisfies the test makes `find?` succeed.
  pub find?-of_Mem :
      (p : A → Bool) (xs : List A) (a : A)
      → Memᴰ a xs
      → p a ≡ true
      → (b : A) × (find? p xs ≡ some b)
  find?-of_Mem p [] a m h = elim m [ ]
  find?-of_Mem p (x ∷ xs) a (Memᴰ.head e) h = (x, rw (rw e at h))
  find?-of_Mem p (x ∷ xs) a (Memᴰ.tail m) h =
      let (b, found) = find?-of_Mem p xs a m h in
      elim (Bool-cases (p x)) [ inl here ↦ (x, rw here) | inr there ↦ (b, rw there found) ]

  pub Mem-append_left : (a : A) (xs ys : List A) → Memᴰ a xs → Memᴰ a (xs ++ ys)
  Mem-append_left a [] ys m = elim m [ ]
  Mem-append_left a (x ∷ xs) ys (Memᴰ.head e) = Memᴰ.head e
  Mem-append_left a (x ∷ xs) ys (Memᴰ.tail m) = Memᴰ.tail (Mem-append_left a xs ys m)

  pub Mem-append_right : (a : A) (xs ys : List A) → Memᴰ a ys → Memᴰ a (xs ++ ys)
  Mem-append_right a [] ys m = m
  Mem-append_right a (x ∷ xs) ys m = Memᴰ.tail (Mem-append_right a xs ys m)

  pub Mem-of_append : (a : A) (xs ys : List A) → Memᴰ a (xs ++ ys) → Memᴰ a xs ⊎ Memᴰ a ys
  Mem-of_append a [] ys m = inr m
  Mem-of_append a (x ∷ xs) ys (Memᴰ.head e) = inl (Memᴰ.head e)
  Mem-of_append a (x ∷ xs) ys (Memᴰ.tail m) = elim (Mem-of_append a xs ys m) [
    | inl l ↦ inl (Memᴰ.tail l)
    | inr r ↦ inr r
  ]

  pub Mem-single : (a x : A) → Memᴰ a (x ∷ []) → a ≡ x
  Mem-single a x (Memᴰ.head e) = e
  Mem-single a x (Memᴰ.tail m) = elim m [ ]
