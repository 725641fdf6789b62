-- ===== src/RefUpdate/Parse.antt =====
-- Reading a command of a push.
use gitarena.Prelude.{
  zero, suc, none, ◌≢◌, ◌⊎◌, ℕ, ◌≡◌, refl, Bool, true, false, not, ◌||◌, Option, some, List, [],
  ◌∷◌, Text, Bytes, starts_with, codes, arith, any, retain, text_eq, text_eq_of, words,
  Option-cases, inl, inr,
}
use gitarena.Prelude.Utf8.{from_utf8}
use gitarena.Error.{ok}
use gitarena.Oid.{normalize_str}
use gitarena.RefUpdate.{
  RefUpdate, apply_option, apply_options, parse_words, parse_line, is_separator, with_refs,
  push_option,
}

abbrev pub is : Text → Text → Bool
is word option = text_eq option word

-- An option that has a field of its own.
abbrev pub is_flag : Text → Bool
is_flag o =
    is (codes "report-status") o || is (codes "report-status-v2") o || is (codes "side-band-64k") o

-- The options that have no field of their own, behind those collected before.
abbrev pub collect : Option (List Text) → List Text → Option (List Text)
collect before [] = before
collect before (o ∷ os) = collect (push_option o before) os

-- The fields that the options set.
pub record HasOptions (u v : RefUpdate) (options : List Text) : Type 0 where
  pub old : v.old ≡ u.old
  pub new : v.new ≡ u.new
  pub target_ref : v.target_ref ≡ u.target_ref
  pub report_status :
      v.report_status ≡ (u.report_status || any (is (codes "report-status")) options)
  pub report_status_v2 :
      v.report_status_v2 ≡ (u.report_status_v2 || any (is (codes "report-status-v2")) options)
  pub side_band_64k :
      v.side_band_64k ≡ (u.side_band_64k || any (is (codes "side-band-64k")) options)
  pub push_options : v.push_options ≡ collect u.push_options (retain (λ o. not (is_flag o)) options)

exclusive : (a b o : Text) → text_eq a b ≡ false → is a o ≡ true → is b o ≡ false
exclusive a b o h e = rw (text_eq_of o a e) h

-- No option is two flags.
flags_differ :
    (o : Text)
    → (is (codes "report-status") o ≡ true
        → (is (codes "report-status-v2") o ≡ false) × (is (codes "side-band-64k") o ≡ false))
      × (is (codes "report-status-v2") o ≡ true → is (codes "side-band-64k") o ≡ false)
unfolding text_eq
flags_differ o = (
  λ e. (
    exclusive (codes "report-status") (codes "report-status-v2") o refl e,
    exclusive (codes "report-status") (codes "side-band-64k") o refl e,
  ),
  exclusive (codes "report-status-v2") (codes "side-band-64k") o refl,
)

apply_options-HasOptions :
    (u : RefUpdate) (options : List Text) → HasOptions u (apply_options u options) options
unfolding apply_options
apply_options-HasOptions u [] = ground arith
apply_options-HasOptions u (o ∷ os) =
    let h = apply_options-HasOptions (apply_option u o) os in
    let (a, b) = flags_differ o in
    record {
      old = ground (arith, h.old);
      new = ground (arith, h.new);
      target_ref = ground (arith, h.target_ref);
      report_status = ground (arith, h.report_status);
      report_status_v2 = ground (arith, h.report_status_v2);
      side_band_64k = ground (arith, h.side_band_64k);
      push_options = ground (arith, h.push_options);
    }

-- A text of zeros.
abbrev pub zeros : ℕ → Text
zeros zero = []
zeros (suc n) = b'0' ∷ zeros n

-- What a word of a command names: no object if it is forty zeros, else the object with that id.
abbrev pub Names : Text → Option Text → Type 0
Names word named = ((word ≡ zeros 40) × (named ≡ none)) ⊎ ((word ≢ zeros 40) × (named ≡ some word))

parse_words-target :
    (ws : List Text) (u : RefUpdate)
    → parse_words ws ≡ ok u
    → starts_with u.target_ref (codes "refs/") ≡ true
unfolding parse_words
parse_words-target [] u h = cc
parse_words-target (a ∷ []) u h = cc
parse_words-target (a ∷ b ∷ []) u h = cc
parse_words-target (a ∷ b ∷ target ∷ options) u h =
    let bare = with_refs (normalize_str (some a)) (normalize_str (some b)) target in
    ground (arith, (apply_options-HasOptions bare options).target_ref)

-- Whatever the client sends, a command that is accepted names a ref below refs/.
pub parse_line-target :
    (raw : Bytes) (u : RefUpdate)
    → parse_line raw ≡ ok u
    → starts_with u.target_ref (codes "refs/") ≡ true
unfolding parse_line
parse_line-target raw u h = elim (Option-cases (from_utf8 raw)) [
  | inl bad ↦ absurd (ground arith)
  | inr (line, good) ↦ parse_words-target (words is_separator line) u (rw (← h, good))
]
