-- ===== src/Oid.antt =====
-- src/utils/oid.rs: object ids as text.
use gitarena.Prelude.{
  ℕ, ◌||◌, Bool, Option, none, some, Text, codes, text_eq, between, all, if◌then◌else◌,
}
use gitarena.Error.{Result, ok, err, other}

abbrev pub null_oid : Text
null_oid = codes "0000000000000000000000000000000000000000"

unfoldable pub normalize_str : Option Text → Option Text
normalize_str none = none
normalize_str (some oid) = if text_eq oid null_oid then none else some oid

-- `char::is_ascii_hexdigit`
abbrev pub is_ascii_hexdigit : ℕ → Bool
is_ascii_hexdigit c = between b'0' b'9' c || between b'a' b'f' c || between b'A' b'F' c

-- `from_hex` is `ObjectId::from_hex` and `null` is `ObjectId::null`, both of `git_repository`.
unfoldable pub from_hex_str {ℓ} :
    {ObjectId : Type ℓ} → (Text → Option ObjectId) → ObjectId → Option Text → Result ObjectId
from_hex_str from_hex null none = ok null
from_hex_str from_hex null (some oid) =
    if all is_ascii_hexdigit oid
    then elim (from_hex oid) [ none ↦ err other | some id ↦ ok id ]
    else err other
