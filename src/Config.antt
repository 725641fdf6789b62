-- ===== src/Config.antt =====
-- src/config.rs: the settings that the database holds as text, and their conversion.
pub mod Write
pub mod Laws
mod Tests
use gitarena.Prelude.{
  ℕ, ◌==◌, Bool, true, false, not, Option, none, some, List, [], ◌∷◌, Text, Bytes, codes, text_eq,
  to_bytes, find?, update, is_some, ◌||◌, if◌then◌else◌,
}
use gitarena.Prelude.Number.{parse_i32}
use gitarena.Error.{Result, ok, err, panic, other, ok_or, ◌>>=◌}
use gitarena.Database.{
  query, Handler, Db, Setting, TypeConstraint, boolean, char, int, string, bytes,
}

unfoldable pub is_set : Setting → Bool
is_set setting = is_some setting.value

unfoldable pub is_unset : Setting → Bool
is_unset setting = not (is_some setting.value)

unfoldable pub as_bytes : Setting → Option Bytes
as_bytes setting = elim setting.value [ none ↦ none | some text ↦ some (to_bytes text) ]

-- `unwrap_or_log` panics.
unfoldable pub as_bytes_unchecked : Setting → Result Bytes
unfolding as_bytes
as_bytes_unchecked setting = elim (as_bytes setting) [ none ↦ panic | some b ↦ ok b ]

-- `str.parse::<char>()`
abbrev pub parse_char : Text → Option ℕ
parse_char (c ∷ []) = some c
parse_char _ = none

-- `select * from settings where key = $1 limit 1`
unfoldable pub find_setting : Text → Db → Option Setting
find_setting key db = find? (λ s. text_eq s.key key) db.settings

-- `fetch_one`, for which a missing row is an error
abbrev pub read_setting : Text → Db → Result Setting
read_setting key db = ok_or other (find_setting key db)

abbrev value_of : Setting → Result Text
value_of setting = ok_or other setting.value

-- `TryFrom<Setting>` for `String`, and as `generate_try_from` has it for `char` and `i32`.
unfoldable pub to_string : Setting → Result Text
to_string setting = elim setting.type_constraint [
  | string ↦ value_of setting
  | boolean ↦ err other
  | char ↦ err other
  | int ↦ err other
  | bytes ↦ err other
]

unfoldable pub to_char : Setting → Result ℕ
to_char setting = elim setting.type_constraint [
  | char ↦ value_of setting >>= λ text. ok_or other (parse_char text)
  | boolean ↦ err other
  | string ↦ err other
  | int ↦ err other
  | bytes ↦ err other
]

unfoldable pub to_i32 : Setting → Result (Bool × ℕ)
to_i32 setting = elim setting.type_constraint [
  | int ↦ value_of setting >>= λ text. ok_or other (parse_i32 text)
  | boolean ↦ err other
  | char ↦ err other
  | string ↦ err other
  | bytes ↦ err other
]

abbrev pub bool_of : Text → Result Bool
bool_of text =
    if text_eq text (codes "1") || text_eq text (codes "true")
    then ok true
    else if text_eq text (codes "0") || text_eq text (codes "false")
    then ok false
    else err other

-- `to_lowercase` is that of the strings of the standard library.
unfoldable pub to_bool : (Text → Text) → Setting → Result Bool
to_bool to_lowercase setting = elim setting.type_constraint [
  | boolean ↦ value_of setting >>= λ text. bool_of (to_lowercase text)
  | char ↦ err other
  | int ↦ err other
  | string ↦ err other
  | bytes ↦ err other
]

module _ {T : Type 0} (try_into : Setting → Result T) where
  unfoldable pub get_setting : Text → Db → Result T
  get_setting key db = read_setting key db >>= try_into

  abbrev if_set : Setting → Result (Option T)
  if_set setting =
      if is_set setting then (try_into setting >>= λ result. ok (some result)) else ok none

  unfoldable pub get_optional_setting : Text → Db → Result (Option T)
  get_optional_setting key db = read_setting key db >>= if_set

-- `update settings set value = $1 where key = $2`
unfoldable pub set_setting : Text → Text → Db → Db
set_setting key value db = record db {
  settings = update (λ s. text_eq s.key key) (λ s. record s { value = some value }) db.settings;
}
