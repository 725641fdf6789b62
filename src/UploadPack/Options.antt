-- ===== src/UploadPack/Options.antt =====
-- What a request for references asks for, and what every advertisement says.
use mathlib.Core.List.{append_assoc, append-nil}
use gitarena.UploadPack.Capabilities.{advertised, receive_pack_capabilities, direct, keep_ref}
use gitarena.Oid.{null_oid}
use gitarena.UploadPack.{Reference, LsRefs, read_option, read_options, add_prefix}
use gitarena.Prelude.{
  true, false, Bool, map, ap, inl, inr, sym, ◌≡◌, ◌∙◌, Option, none, some, List, [], ◌∷◌, ◌++◌,
  Text, Bytes, codes, text_eq, strip_prefix, any, ◌||◌, arith, refl, Option-cases,
}
use gitarena.Prelude.Utf8.{from_utf8}
use gitarena.Error.{ok}

-- The lines of the input as text.
abbrev pub Decoded : List Bytes → List Text → Type 0
Decoded [] [] = Unit
Decoded (b ∷ bs) (t ∷ ts) = (from_utf8 b ≡ some t) × Decoded bs ts
Decoded _ _ = ⊥

abbrev pub prefix_of : Option Text → List Text → List Text
prefix_of none rest = rest
prefix_of (some stripped) rest = stripped ∷ rest

-- What follows "ref-prefix " in the lines that begin so, in order.
abbrev pub prefixes_in : List Text → List Text
prefixes_in [] = []
prefixes_in (t ∷ ts) = prefix_of (strip_prefix t (codes "ref-prefix ")) (prefixes_in ts)

-- The options `o` beside those that were set before.
pub record Collected (before o : LsRefs) (lines : List Text) : Type 0 where
  pub peel : o.peel ≡ (before.peel || any (λ t. text_eq t (codes "peel")) lines)
  pub symrefs : o.symrefs ≡ (before.symrefs || any (λ t. text_eq t (codes "symrefs")) lines)
  pub unborn : o.unborn ≡ (before.unborn || any (λ t. text_eq t (codes "unborn")) lines)
  pub prefixes : o.prefixes ≡ before.prefixes ++ prefixes_in lines

-- The four tests of a line, on what it adds to the prefixes.
round_prefixes :
    (stripped : Option Text) (options : LsRefs) (ts : List Text) (o : LsRefs)
    → o.prefixes ≡ (add_prefix stripped options).prefixes ++ prefixes_in ts
    → o.prefixes ≡ options.prefixes ++ prefix_of stripped (prefixes_in ts)
round_prefixes none options ts o h = h
round_prefixes (some s) options ts o h = h ∙ append_assoc options.prefixes (s ∷ []) (prefixes_in ts)

round :
    (t : Text) (ts : List Text) (before o : LsRefs)
    → Collected (read_option t before) o ts
    → Collected before o (t ∷ ts)
unfolding read_option
round t ts before o c = elim (Option-cases (strip_prefix t (codes "ref-prefix "))) [
  | inl e ↦ record {
    peel = ground (arith, c.peel);
    symrefs = ground (arith, c.symrefs);
    unborn = ground (arith, c.unborn);
    prefixes = ground (arith, c.prefixes);
  }
  | inr (s, e) ↦ record {
    peel = ground (arith, c.peel);
    symrefs = ground (arith, c.symrefs);
    unborn = ground (arith, c.unborn);
    prefixes = rw e (round_prefixes (some s) before ts o (ground (arith, c.prefixes)));
  }
]

-- A request for references is read as the options whose lines it holds, in any order and however
-- often, and the prefixes in the order of their lines.
pub read_options-Collected :
    (input : List Bytes) (lines : List Text) (before : LsRefs)
    → Decoded input lines
    → (o : LsRefs) × (read_options input before ≡ ok o) × Collected before o lines
unfolding read_options
read_options-Collected [] [] before h = (
  before,
  refl,
  record {
    peel = ground arith;
    symrefs = ground arith;
    unborn = ground arith;
    prefixes = sym (append-nil before.prefixes);
  },
)
read_options-Collected (b ∷ bs) (t ∷ ts) before (p, h) =
    let (o, e, c) = read_options-Collected bs ts (read_option t before) h in
    (o, rw p e, round t ts before o c)
read_options-Collected [] (t ∷ ts) before h = absurd h
read_options-Collected (b ∷ bs) [] before h = absurd h

abbrev keep_direct : Option (Text × Text) → List (Text × Text) → List (Text × Text)
keep_direct none ds = ds
keep_direct (some d) ds = d ∷ ds

-- The references that have a name and an object id.
abbrev pub directs : List (Option Reference) → List (Text × Text)
directs [] = []
directs (r ∷ rs) = keep_direct (direct r) (directs rs)

module _ (version : Text) where
  -- The lines that a client expects: the capabilities behind a NUL in the first line only, and a line
  -- with a null object id if there is no reference.
  abbrev pub announced : List (Text × Text) → List Text
  announced [] = (null_oid ++ (codes " capabilities^{}" ++ receive_pack_capabilities version)) ∷ []
  announced ((oid, name) ∷ ds) =
      (oid ++ (codes " " ++ (name ++ receive_pack_capabilities version)))
      ∷ map (λ d. d.0 ++ (codes " " ++ d.1)) ds

  advertised_kept :
      (d : Option (Text × Text)) (rest : Bool → List Text) (ds : List (Text × Text))
      → rest true ≡ map (λ d. d.0 ++ (codes " " ++ d.1)) ds
      → keep_ref version true d rest ≡ map (λ d. d.0 ++ (codes " " ++ d.1)) (keep_direct d ds)
  advertised_kept none rest ds h = h
  advertised_kept (some (oid, name)) rest ds h = ap (λ t. (oid ++ (codes " " ++ name)) ∷ t) h

  advertised_sent :
      (rs : List (Option Reference))
      → advertised version rs true ≡ map (λ d. d.0 ++ (codes " " ++ d.1)) (directs rs)
  unfolding advertised
  advertised_sent [] = refl
  advertised_sent (r ∷ rs) =
      advertised_kept (direct r) (advertised version rs) (directs rs) (advertised_sent rs)

  advertised_first :
      (d : Option (Text × Text)) (rest : Bool → List Text) (ds : List (Text × Text))
      → rest true ≡ map (λ d. d.0 ++ (codes " " ++ d.1)) ds
      → rest false ≡ announced ds
      → keep_ref version false d rest ≡ announced (keep_direct d ds)
  advertised_first none rest ds h k = k
  advertised_first (some (oid, name)) rest ds h k =
      ap (λ t. (oid ++ (codes " " ++ (name ++ receive_pack_capabilities version))) ∷ t) h

  -- The advertisement of a push lists the references that have a name and an object id, in order,
  -- with the capabilities in the first line and in no other, and also if there is no reference.
  advertised-announced :
      (rs : List (Option Reference)) → advertised version rs false ≡ announced (directs rs)
  unfolding advertised
  advertised-announced [] = refl
  advertised-announced (r ∷ rs) =
      advertised_first (direct r) (advertised version rs) (directs rs) (advertised_sent rs)
        (advertised-announced rs)
