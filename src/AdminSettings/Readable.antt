-- ===== src/AdminSettings/Readable.antt =====
-- Settings that convert to the type of their key, and what a change does to them.
use gitarena.Prelude.{
  ℕ, ◌≡◌, ◌⊎◌, refl, ap, ◌∙◌, Bool, true, false, ◌||◌, Option, none, some, List, [], ◌∷◌, Text,
  codes, text_eq, text_eq_of, update, Bool-cases, inl, inr, arith, All, is_some,
}
use gitarena.Prelude.Number.{parse_i32}
use gitarena.Error.{ok, other, ok_or}
use gitarena.Database.{Setting, TypeConstraint, boolean, char, int, string, bytes}
use gitarena.Config.{is_set, to_bool, to_char, to_i32, to_string, parse_char, bool_of}
use gitarena.AdminSettings.{is_valid_value}

-- What the conversions of a lower case rely on.
pub record Lowercase (to_lowercase : Text → Text) : Type 0 where
  pub true_kept : to_lowercase (codes "true") ≡ codes "true"
  pub false_kept : to_lowercase (codes "false") ≡ codes "false"

module _ (to_lowercase : Text → Text) where
  -- The conversion for a type gives a value.
  abbrev pub Converts : TypeConstraint → Setting → Type 0
  Converts boolean s = (b : Bool) × (to_bool to_lowercase s ≡ ok b)
  Converts char s = (c : ℕ) × (to_char s ≡ ok c)
  Converts int s = (i : Bool × ℕ) × (to_i32 s ≡ ok i)
  Converts string s = (t : Text) × (to_string s ≡ ok t)
  Converts bytes s = Unit

  -- A setting of the type that is meant for its key, which is not set, or converts to that type.
  pub record IsReadable (types : Text → TypeConstraint) (s : Setting) : Type 0 where
    pub typed : s.type_constraint ≡ types s.key
    pub reads : (is_set s ≡ false) ⊎ Converts s.type_constraint s

  bool-Converts :
      (lowercase : Lowercase to_lowercase) (value : Text)
      → (text_eq value (codes "true") || text_eq value (codes "false")) ≡ true
      → (b : Bool) × (bool_of (to_lowercase value) ≡ ok b)
  unfolding text_eq
  bool-Converts lowercase value h = elim (Bool-cases (text_eq value (codes "true"))) [
    | inl e ↦ (true, rw (text_eq_of value (codes "true") e, lowercase.true_kept) refl)
    | inr e ↦ (
      false,
      rw (text_eq_of value (codes "false") (ground (arith, e, h)), lowercase.false_kept) refl,
    )
  ]

  int-Converts :
      (o : Option (Bool × ℕ)) → is_some o ≡ true → (i : Bool × ℕ) × (ok_or other o ≡ ok i)
  int-Converts none h = absurd (cc)
  int-Converts (some i) h = (i, refl)

  char-Converts : (o : Option ℕ) → is_some o ≡ true → (c : ℕ) × (ok_or other o ≡ ok c)
  char-Converts none h = absurd (cc)
  char-Converts (some c) h = (c, refl)

  converts :
      (lowercase : Lowercase to_lowercase) (t : TypeConstraint) (s : Setting) (value : Text)
      → s.type_constraint ≡ t
      → is_valid_value t value ≡ true
      → Converts t (record s { value = some value })
  unfolding is_valid_value to_bool to_char to_i32 to_string
  converts lowercase boolean s value e h =
      let (b, k) = bool-Converts lowercase value h in (b, rw e k)
  converts lowercase char s value e h =
      let (c, k) = char-Converts (parse_char value) h in (c, rw e k)
  converts lowercase int s value e h = let (i, k) = int-Converts (parse_i32 value) h in (i, rw e k)
  converts lowercase string s value e h = (value, rw e refl)
  converts lowercase bytes s value e h = tt

  module _ (types : Text → TypeConstraint) (lowercase : Lowercase to_lowercase) where
    change-IsReadable :
        (key value : Text) (s : Setting)
        → is_valid_value (types key) value ≡ true
        → s.key ≡ key
        → IsReadable types s
        → IsReadable types (record s { value = some value })
    change-IsReadable key value s valid e r = record {
      typed = r.typed;
      reads =
          inr (converts lowercase s.type_constraint s value refl (rw (r.typed ∙ ap types e) valid));
    }

    pub update-IsReadable :
        (key value : Text) (settings : List Setting)
        → is_valid_value (types key) value ≡ true
        → All (IsReadable types) settings
        → All
            (IsReadable types)
            (update (λ s. text_eq s.key key) (λ s. record s { value = some value }) settings)
    update-IsReadable key value [] valid h = tt
    update-IsReadable key value (s ∷ settings) valid (p, h) =
        let rest = update-IsReadable key value settings valid h in
        elim (Bool-cases (text_eq s.key key)) [
          | inl e ↦ (rw e (change-IsReadable key value s valid (text_eq_of s.key key e) p), rest)
          | inr e ↦ (rw e p, rest)
        ]
