-- ===== src/Identifiers/Laws.antt =====
-- Which names pass.
use gitarena.Prelude.{
  ◌⊎◌, ◌≢◌, All, List, text_iff, codes, to_bytes, encode, ◌≡◌, ◌↔◌, ◌≤◌, ◌∷◌, [], true, false, ℕ,
  suc, refl, ap, arith, Text, length, all,
}
use gitarena.Error.{ok}
use gitarena.Identifiers.{
  is_valid, is_reserved_username, validate_username, illegal_usernames, contains,
}

encode-is_valid : (c : ℕ) → is_valid c ≡ true → encode c ≡ c ∷ []
unfolding is_valid
encode-is_valid c h = ground arith

-- A valid name has as many bytes as characters.
length-to_bytes : (t : Text) → all is_valid t ≡ true → length (to_bytes t) ≡ length t
length-to_bytes [] h = refl
length-to_bytes (c ∷ t) h =
    let e = encode-is_valid c (ground arith) in
    let rest = length-to_bytes t (ground arith) in rw e (ap suc rest)

-- The characters of a name: letters of either case, digits, dash and underscore.
abbrev pub IsNameCharacter : ℕ → Type 0
IsNameCharacter c =
    ((b'a' ≤ c) × (c ≤ b'z'))
    ⊎ (((b'A' ≤ c) × (c ≤ b'Z')) ⊎ (((b'0' ≤ c) × (c ≤ b'9')) ⊎ ((c ≡ b'-') ⊎ (c ≡ b'_'))))

is_valid_iff : (c : ℕ) → (is_valid c ≡ true) ↔ IsNameCharacter c
unfolding is_valid
is_valid_iff c = ground arith

all-is_valid_iff : (t : Text) → (all is_valid t ≡ true) ↔ All IsNameCharacter t
all-is_valid_iff [] = ground arith
all-is_valid_iff (c ∷ t) = ground (arith, is_valid_iff c, all-is_valid_iff t)

-- The names of the pages beside those of the users.
abbrev pub page_names : List Text
page_names =
    codes "admin"
    ∷ codes "api"
    ∷ codes "login"
    ∷ codes "logout"
    ∷ codes "new"
    ∷ codes "register"
    ∷ codes "static"
    ∷ []

contains_iff : (names : List Text) (t : Text) → (contains names t ≡ false) ↔ All (λ n. t ≢ n) names
contains_iff [] t = ground arith
contains_iff (n ∷ names) t = ground (arith, text_iff t n, contains_iff names t)

-- A name that GitArena takes: 3 to 32 characters of those above, and in lower case not the name of a
-- page.
pub record IsUsername (to_lowercase : Text → Text) (t : Text) : Type 0 where
  pub long : 3 ≤ length t
  pub short : length t ≤ 32
  pub valid : All IsNameCharacter t
  pub free : All (λ n. to_lowercase t ≢ n) page_names

module _ (to_lowercase : Text → Text) where
  accepted : (t : Text) → validate_username to_lowercase t ≡ ok tt → IsUsername to_lowercase t
  unfolding validate_username is_reserved_username
  accepted t h =
      let valid : all is_valid t ≡ true = ground arith in
      let same = length-to_bytes t valid in
      record {
        long = ground arith;
        short = ground arith;
        valid = (all-is_valid_iff t).0 valid;
        free = (contains_iff illegal_usernames (to_lowercase t)).0 (ground arith);
      }

  taken : (t : Text) → IsUsername to_lowercase t → validate_username to_lowercase t ≡ ok tt
  unfolding validate_username is_reserved_username
  taken t u =
      let valid = (all-is_valid_iff t).1 u.valid in
      let same = length-to_bytes t valid in
      let long = u.long in
      let short = u.short in
      let free = (contains_iff illegal_usernames (to_lowercase t)).1 u.free in ground arith

  -- The validation passes exactly the names of 3 to 32 characters that are all letters from a to z or
  -- from A to Z, digits, dashes or underscores, and that are not, in lower case, one of the seven
  -- reserved names: the length, which the code counts in bytes, is that in characters.
  pub validate_username_iff :
      (t : Text) → (validate_username to_lowercase t ≡ ok tt) ↔ IsUsername to_lowercase t
  validate_username_iff t = (accepted t, taken t)
