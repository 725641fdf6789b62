-- ===== src/Explore/Rows.antt =====
-- What the database makes of a query of the page: the rows that its conditions let through.
use gitarena.Prelude.{
  ℕ, zero, suc, Bool, true, false, not, ◌&&◌, ◌||◌, Option, none, some, List, [], ◌∷◌, Text, codes,
  is_none, strip_prefix, ◌≡◌, ◌≤◌, ◌++◌, refl, arith,
}
use gitarena.Database.{Repository, RepoVisibility, internal, private}
use gitarena.Explore.{unless}

abbrev pub not_internal : RepoVisibility → Bool
not_internal internal = false
not_internal _ = true

abbrev pub not_private : RepoVisibility → Bool
not_private private = false
not_private _ = true

-- A condition in SQL, and what it says of a row.
abbrev meanings : List (Text × (Repository → Bool))
meanings =
    (codes "repositories.archived is false", λ r. not r.archived)
    ∷ (codes "repositories.forked_from is null", λ r. is_none r.forked_from)
    ∷ (codes "repositories.mirrored_from is null", λ r. is_none r.mirrored_from)
    ∷ (codes "repositories.visibility != 'internal'", λ r. not_internal r.visibility)
    ∷ (codes "repositories.disabled is false", λ r. not r.disabled)
    ∷ (codes "repositories.visibility != 'private'", λ r. not_private r.visibility)
    ∷ []

-- The condition that a text begins with, and what follows it.
abbrev first_condition :
    List (Text × (Repository → Bool)) → Text → Option ((Repository → Bool) × Text)
first_condition [] text = none
first_condition ((sql, meaning) ∷ others) text = elim (strip_prefix text sql) [
  | some rest ↦ some (meaning, rest)
  | none ↦ first_condition others text
]

abbrev pub both : Bool → Option Bool → Option Bool
both b none = none
both b (some c) = some (b && c)

-- Whether a row meets at most so many conditions, joined by `and` and ended by `group by`; none where
-- the text is no such list.
unfoldable pub meets : Repository → ℕ → Text → Option Bool
meets row zero text = none
meets row (suc n) text = elim (first_condition meanings text) [
  | none ↦ none
  | some (meaning, rest) ↦ elim (strip_prefix rest (codes " and ")) [
    | some more ↦ both (meaning row) (meets row n more)
    | none ↦ elim (strip_prefix rest (codes " group by ")) [
      | some tail ↦ some (meaning row)
      | none ↦ none
    ]
  ]
]

-- Whether a query with at most six conditions selects a row.
unfoldable pub selects : Text → Repository → Option Bool
unfolding meets
selects query row = elim (strip_prefix query (codes "where ")) [
  | some text ↦ meets row 6 text
  | none ↦ none
]

-- The answer of a text for a row, where that many conditions are enough.
abbrev pub Meets : Repository → ℕ → Text → Bool → Type 0
Meets row k text b = (n : ℕ) → k ≤ n → meets row n text ≡ some b

-- A condition that may be left out.
pub optional :
    (row : Repository) (clause : Text) (holds : Bool)
    → ((n : ℕ) (text : Text) → meets row (suc n) (clause ++ text) ≡ both holds (meets row n text))
    → (set : Bool) (k : ℕ) (text : Text) (b : Bool) → Meets row k text b
    → Meets row (suc k) (unless set clause ++ text) ((set || holds) && b)
optional row clause holds step true k text b h n enough = h n (omega (arith, enough))
optional row clause holds step false k text b h zero enough = absurd (omega (arith, enough))
optional row clause holds step false k text b h (suc n) enough =
    rw (step n text, h n (omega (arith, enough))) refl
