-- ===== src/RefUpdate.antt =====
-- src/git/ref_update.rs: the commands of a push.
pub mod Parse
pub mod Kinds
mod Tests
use gitarena.Prelude.{
  ℕ, ◌==◌, ◌||◌, Bool, true, false, Option, none, some, List, [], ◌∷◌, ◌++◌, Text, Bytes, codes,
  text_eq, starts_with, words, is_whitespace, if◌then◌else◌,
}
use gitarena.Prelude.Utf8.{from_utf8}
use gitarena.Error.{Result, ok, err, other, ok_or, ◌>>=◌}
use gitarena.Oid.{normalize_str}

pub record RefUpdate : Type 0 where
  pub old : Option Text
  pub new : Option Text
  pub target_ref : Text
  pub report_status : Bool
  pub report_status_v2 : Bool
  pub side_band_64k : Bool
  pub push_options : Option (List Text)

-- `RefUpdate::default()` with the three fields that are set before the options are read.
abbrev pub with_refs : Option Text → Option Text → Text → RefUpdate
with_refs old new target_ref = record {
  old = old;
  new = new;
  target_ref = target_ref;
  report_status = false;
  report_status_v2 = false;
  side_band_64k = false;
  push_options = none;
}

-- The separators of a command: white space and NUL.
abbrev pub is_separator : ℕ → Bool
is_separator c = is_whitespace c || c == 0

abbrev pub push_option : Text → Option (List Text) → Option (List Text)
push_option option none = some (option ∷ [])
push_option option (some options) = some (options ++ option ∷ [])

-- One round of the loop over the options.
unfoldable pub apply_option : RefUpdate → Text → RefUpdate
apply_option u option =
    if text_eq option (codes "report-status")
    then record u { report_status = true }
    else if text_eq option (codes "report-status-v2")
    then record u { report_status_v2 = true }
    else if text_eq option (codes "side-band-64k")
    then record u { side_band_64k = true }
    else record u { push_options = push_option option u.push_options }

unfoldable pub apply_options : RefUpdate → List Text → RefUpdate
unfolding apply_option
apply_options u [] = u
apply_options u (option ∷ options) = apply_options (apply_option u option) options

-- The part of `parse_line` that takes words off the iterator.
unfoldable pub parse_words : List Text → Result RefUpdate
unfolding apply_options normalize_str
parse_words (old ∷ new ∷ target ∷ options) =
    if starts_with target (codes "refs/")
    then ok (
        apply_options (with_refs (normalize_str (some old)) (normalize_str (some new)) target)
          options)
    else err other
parse_words _ = err other

unfoldable pub parse_line : Bytes → Result RefUpdate
unfolding parse_words
parse_line raw_line =
    ok_or other (from_utf8 raw_line) >>= λ line. parse_words (words is_separator line)

pub data RefUpdateType : Type 0 where
  create delete update : RefUpdateType

unfoldable pub determinate : Option Text → Option Text → Result RefUpdateType
determinate none none = err other
determinate none (some new) = ok create
determinate (some old) none = ok delete
determinate (some old) (some new) = ok update

abbrev only_if_delete : RefUpdateType → Result Bool → Result Bool
only_if_delete delete rest = rest
only_if_delete create rest = ok false
only_if_delete update rest = ok false

unfoldable pub is_only_deletions : List RefUpdate → Result Bool
unfolding determinate
is_only_deletions [] = ok true
is_only_deletions (u ∷ us) =
    let rest = is_only_deletions us in do kind ← determinate u.old u.new; only_if_delete kind rest
