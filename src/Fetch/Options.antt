-- ===== src/Fetch/Options.antt =====
-- What a request for a fetch asks for.
use mathlib.Core.List.{append_assoc, append-nil}
use gitarena.Prelude.{
  ◌≡◌, refl, ◌∙◌, ap, sym, Bool, true, false, ◌||◌, Option, none, some, List, [], ◌∷◌, ◌++◌, Text,
  Bytes, codes, text_eq, strip_prefix, any, arith,
}
use gitarena.Prelude.Utf8.{from_utf8}
use gitarena.Error.{ok}
use gitarena.UploadPack.Options.{prefix_of}
use gitarena.Fetch.{flagged, Fetch, add_have, add_want, read_option, read_options}

-- The lines of a request up to `done`, if it is there: what is behind need not be text.
pub data Asks : List Bytes → List Text → Type 0 where
  ended : Asks [] []
  finished :
      {b : Bytes} {t : Text} {bs : List Bytes}
      → from_utf8 b ≡ some t
      → text_eq t (codes "done") ≡ true
      → Asks (b ∷ bs) (t ∷ [])
  continued :
      {b : Bytes} {t : Text} {bs : List Bytes} {ts : List Text}
      → from_utf8 b ≡ some t
      → text_eq t (codes "done") ≡ false
      → Asks bs ts
      → Asks (b ∷ bs) (t ∷ ts)

-- What follows a prefix in the lines that begin so, in order.
abbrev pub behind : Text → List Text → List Text
behind prefix [] = []
behind prefix (t ∷ ts) = prefix_of (strip_prefix t prefix) (behind prefix ts)

-- The options `o` beside those that were set before.
pub record Collected (before o : Fetch) (lines : List Text) : Type 0 where
  pub thin_pack : o.thin_pack ≡ (before.thin_pack || any (λ t. text_eq t (codes "thin-pack")) lines)
  pub no_progress :
      o.no_progress ≡ (before.no_progress || any (λ t. text_eq t (codes "no-progress")) lines)
  pub include_tag :
      o.include_tag ≡ (before.include_tag || any (λ t. text_eq t (codes "include-tag")) lines)
  pub ofs_delta : o.ofs_delta ≡ (before.ofs_delta || any (λ t. text_eq t (codes "ofs-delta")) lines)
  pub have : o.have ≡ before.have ++ behind (codes "have ") lines
  pub want : o.want ≡ before.want ++ behind (codes "want ") lines

round_stripped :
    (stripped : Option Text) (before ts o : List Text)
    → o ≡ (before ++ prefix_of stripped []) ++ ts
    → o ≡ before ++ prefix_of stripped ts
round_stripped none before ts o h = h ∙ ap (λ l. l ++ ts) (append-nil before)
round_stripped (some s) before ts o h = h ∙ append_assoc before (s ∷ []) ts

add_have-prefix :
    (stripped : Option Text) (o : Fetch)
    → add_have stripped o ≡ record o { have = o.have ++ prefix_of stripped [] }
add_have-prefix none o = rw append-nil
add_have-prefix (some s) o = refl

add_want-prefix :
    (stripped : Option Text) (o : Fetch)
    → add_want stripped o ≡ record o { want = o.want ++ prefix_of stripped [] }
add_want-prefix none o = rw append-nil
add_want-prefix (some s) o = refl

-- A round in one piece.
abbrev after : Text → Fetch → Fetch
after t o = record o {
  thin_pack = o.thin_pack || text_eq t (codes "thin-pack");
  no_progress = o.no_progress || text_eq t (codes "no-progress");
  include_tag = o.include_tag || text_eq t (codes "include-tag");
  ofs_delta = o.ofs_delta || text_eq t (codes "ofs-delta");
  have = o.have ++ prefix_of (strip_prefix t (codes "have ")) [];
  want = o.want ++ prefix_of (strip_prefix t (codes "want ")) [];
}

flagged-after :
    (t : Text) (o : Fetch)
    → flagged t o ≡ record o {
      thin_pack = o.thin_pack || text_eq t (codes "thin-pack");
      no_progress = o.no_progress || text_eq t (codes "no-progress");
      include_tag = o.include_tag || text_eq t (codes "include-tag");
      ofs_delta = o.ofs_delta || text_eq t (codes "ofs-delta");
    }
flagged-after t o = ground arith

read_option-after : (t : Text) (o : Fetch) → read_option t o ≡ after t o
unfolding read_option
read_option-after t o =
    add_want-prefix (strip_prefix t (codes "want "))
      (add_have (strip_prefix t (codes "have ")) (flagged t o))
    ∙ rw (add_have-prefix (strip_prefix t (codes "have ")) (flagged t o), flagged-after t o) refl

or_assoc : (a b c : Bool) → ((a || b) || c) ≡ (a || (b || c))
or_assoc a b c = ground arith

round :
    (t : Text) (ts : List Text) (before o : Fetch)
    → Collected (after t before) o ts
    → Collected before o (t ∷ ts)
round t ts before o c = record {
  thin_pack = c.thin_pack ∙ or_assoc before.thin_pack _ _;
  no_progress = c.no_progress ∙ or_assoc before.no_progress _ _;
  include_tag = c.include_tag ∙ or_assoc before.include_tag _ _;
  ofs_delta = c.ofs_delta ∙ or_assoc before.ofs_delta _ _;
  have = round_stripped (strip_prefix t (codes "have ")) before.have _ o.have c.have;
  want = round_stripped (strip_prefix t (codes "want ")) before.want _ o.want c.want;
}

last_round : (t : Text) (before : Fetch) → Collected (after t before) (after t before) []
last_round t before = record {
  thin_pack = ground arith;
  no_progress = ground arith;
  include_tag = ground arith;
  ofs_delta = ground arith;
  have = sym (append-nil _);
  want = sym (append-nil _);
}

-- A request for a fetch is read as the flags whose lines it holds up to `done`, in any order and
-- however often, and what the client has and wants in the order of their lines; what is behind
-- `done` is not read.
pub read_options-Asks :
    (input : List Bytes) (lines : List Text) (before : Fetch)
    → Asks input lines
    → (o : Fetch) × (read_options input before ≡ ok o) × Collected before o lines
unfolding read_options
read_options-Asks _ _ before ended = (
  before,
  refl,
  record {
    thin_pack = ground arith;
    no_progress = ground arith;
    include_tag = ground arith;
    ofs_delta = ground arith;
    have = sym (append-nil before.have);
    want = sym (append-nil before.want);
  },
)
read_options-Asks _ _ before (finished {t = t} p d) = (
  after t before,
  rw (p, d, read_option-after t before) refl,
  round t [] before (after t before) (last_round t before),
)
read_options-Asks _ _ before (continued {t = t} {bs = bs} {ts = ts} p d h) =
    let (o, e, c) = read_options-Asks bs ts (after t before) h in
    (o, rw (p, d, read_option-after t before) e, round t ts before o c)
