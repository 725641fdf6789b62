-- ===== src/Identifiers.antt =====
-- src/utils/identifiers.rs: which names a user or a repository may have, on an operating system
-- other than Windows. `to_lowercase` is that of the strings of the standard library.
mod Laws
mod Tests
use gitarena.Prelude.{
  ℕ, Bool, true, false, List, [], ◌∷◌, Text, codes, text_eq, ltb, ◌==◌, ◌||◌, not, any, all,
  between, length, to_bytes, if◌then◌else◌,
}
use gitarena.Error.{Result, ok, die_message}
use gitarena.Database.{Db}

abbrev pub is_ascii_alphanumeric : ℕ → Bool
is_ascii_alphanumeric c = between 48 57 c || between 65 90 c || between 97 122 c

unfoldable pub is_valid : ℕ → Bool
is_valid c = is_ascii_alphanumeric c || c == 45 || c == 95

abbrev pub illegal_usernames : List Text
illegal_usernames =
    codes "admin"
    ∷ codes "api"
    ∷ codes "login"
    ∷ codes "logout"
    ∷ codes "new"
    ∷ codes "register"
    ∷ codes "static"
    ∷ []

abbrev pub illegal_repo_names : List Text
illegal_repo_names = codes "repositories" ∷ []

-- `contains`
abbrev pub contains : List Text → Text → Bool
contains names t = any (text_eq t) names

unfoldable pub is_fs_legal : Text → Bool
is_fs_legal input = true

module _ (to_lowercase : Text → Text) where
  unfoldable pub is_reserved_username : Text → Bool
  is_reserved_username input = contains illegal_usernames (to_lowercase input)

  unfoldable pub is_reserved_repo_name : Text → Bool
  is_reserved_repo_name input = contains illegal_repo_names (to_lowercase input)

  -- `input.len()` counts the bytes of the UTF-8 encoding.
  unfoldable pub validate_username : Text → Result (Unit {0})
  unfolding is_fs_legal
  validate_username input =
      let len = length (to_bytes input) in
      if ltb len 3 || ltb 32 len || not (all is_valid input)
      then die_message 400 (
          codes
            "Username must be between 3 and 32 characters long and may only contain a-z, 0-9, _ or -")
      else if is_reserved_username input
      then die_message 409 (codes "Username is a reserved identifier")
      else if not (is_fs_legal input)
      then die_message 400 (codes "Username is illegal")
      else ok tt

-- `select exists(select 1 from users where lower(username) = lower($1) limit 1)`
unfoldable pub is_username_taken : (Text → Text) → Text → Db → Bool
is_username_taken lower input db = any (λ u. text_eq (lower u.username) (lower input)) db.users
