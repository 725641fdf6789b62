-- ===== src/Database/Consistent.antt =====
-- Tables without two rows that stand for the same: the invariant of the users, the emails and the
-- repositories.
use gitarena.Prelude.{
  ℕ, ◌+◌, ◌<◌, ◌≡◌, refl, Bool, false, ◌==◌, ◌&&◌, List, [], ◌∷◌, ◌++◌, Text, text_eq, any,
  any-append, All, arith,
}
use gitarena.Database.{Db, Connection}

-- No two elements are the same.
abbrev pub Unique {ℓ} : {A : Type ℓ} → (A → A → Bool) → List A → Type 0
Unique same [] = Unit
Unique same (x ∷ xs) = (any (same x) xs ≡ false) × Unique same xs

module _ {ℓ} {A : Type ℓ} (same : A → A → Bool) where
  apart-snoc :
      (x y : A) (xs : List A)
      → any (same x) xs ≡ false
      → same x y ≡ false
      → any (same x) (xs ++ y ∷ []) ≡ false
  apart-snoc x y xs h k = let e = any-append (same x) xs (y ∷ []) in ground (arith, e, h, k)

  -- An element that no other is the same as may be added behind.
  pub Unique-snoc :
      (xs : List A) (y : A)
      → Unique same xs
      → any (λ x. same x y) xs ≡ false
      → Unique same (xs ++ y ∷ [])
  Unique-snoc [] y u h = (refl, tt)
  Unique-snoc (x ∷ xs) y (p, u) h =
      (apart-snoc x y xs p (ground arith), Unique-snoc xs y u (ground arith))

module _ {ℓ} {A : Type ℓ} (id : A → ℕ) where
  pub below_next : (xs : List A) (n : ℕ) → All (λ x. id x < n) xs → All (λ x. id x < n + 1) xs
  below_next [] n h = tt
  below_next (x ∷ xs) n (p, h) = (omega (arith, p), below_next xs n h)

  pub no_id : (xs : List A) (n : ℕ) → All (λ x. id x < n) xs → any (λ x. id x == n) xs ≡ false
  no_id [] n h = refl
  no_id (x ∷ xs) n (p, h) = ground (arith, no_id xs n h)

-- Up to case, usernames and emails are unique, and names of repositories for each owner; ids are
-- unique, and below the one that comes next.
pub record IsConsistent (lower : Text → Text) (db : Db) : Type 0 where
  pub usernames : Unique (λ a b. text_eq (lower a.username) (lower b.username)) db.users
  pub emails : Unique (λ a b. text_eq (lower a.email) (lower b.email)) db.emails
  pub repositories :
      Unique (λ a b. a.owner == b.owner && text_eq (lower a.name) (lower b.name)) db.repositories
  pub user_ids : Unique (λ a b. a.id == b.id) db.users
  pub repository_ids : Unique (λ a b. a.id == b.id) db.repositories
  pub users_below : All (λ u. u.id < db.next_id) db.users
  pub repositories_below : All (λ r. r.id < db.next_id) db.repositories

-- What is committed, and what the open transaction sees.
abbrev pub AreConsistent : (Text → Text) → Connection → Type 0
AreConsistent lower c = IsConsistent lower c.committed × IsConsistent lower c.current
