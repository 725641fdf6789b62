-- ===== src/Samples/Store.antt =====
-- A store for the tests: a repository is its references, and an object id is a number.
use gitarena.Prelude.{
  codes, unwrap_or, sym, ℕ, ◌≡◌, refl, inl, inr, ap, Bool, true, false, Option, none, some, [],
  Text, text_eq, text_refl, ◌==◌, arith, if◌then◌else◌, length,
}
use gitarena.Error.{ok}
use gitarena.Git.{
  Git, PreviousValue, any, existing_must_match, must_exist_and_match, Meets, RefEdit, update,
  delete, bundle, Outcome, committed, not_prepared,
}

abbrev is_now : ℕ → Option ℕ → Bool
is_now o none = false
is_now o (some p) = o == p

abbrev met : PreviousValue ℕ → Option ℕ → Bool
met any current = true
met (existing_must_match o) none = true
met (existing_must_match o) (some p) = o == p
met (must_exist_and_match o) current = is_now o current

pub met-Meets : (e : PreviousValue ℕ) (current : Option ℕ) → met e current ≡ true → Meets e current
met-Meets any current h = tt
met-Meets (existing_must_match o) none h = inl refl
met-Meets (existing_must_match o) (some p) h = inr (ground arith)
met-Meets (must_exist_and_match o) none h = absurd (cc)
met-Meets (must_exist_and_match o) (some p) h = ground arith

abbrev set : Text → Option ℕ → (Text → Option ℕ) → Text → Option ℕ
set name value refs n = if text_eq n name then value else refs n

set_same :
    (name : Text) (value : Option ℕ) (refs : Text → Option ℕ) → set name value refs name ≡ value
set_same name value refs = rw (text_refl name) refl

abbrev change : Bool → (Text → Option ℕ) → Outcome (Text → Option ℕ)
change is_met refs =
    if is_met then committed refs else not_prepared (codes "The reference is another")

abbrev transact : RefEdit ℕ Unit → (Text → Option ℕ) → Outcome (Text → Option ℕ)
transact (update name expected new c) refs =
    change (met expected (refs name)) (set name (some new) refs)
transact (delete name expected) refs = change (met expected (refs name)) (set name none refs)

abbrev refs_of : (Text → Option ℕ) → Outcome (Text → Option ℕ) → Text → Option ℕ
refs_of refs (committed after) = after
refs_of refs _ = refs

pub edited :
    (b : Bool) (name : Text) (value : Option ℕ) (refs after : Text → Option ℕ)
    → change b (set name value refs) ≡ committed after
    → (b ≡ true) × (after name ≡ value)
edited true name value refs after h =
    (refl, rw (ap (refs_of refs) (sym h)) (set_same name value refs))
edited false name value refs after h = absurd (cc)

abbrev pub sample_git : Git
sample_git = record {
  Store = Text → Option ℕ;
  ObjectId = ℕ;
  Pack = Unit;
  Commit = Unit;
  from_hex = λ t. some (length t);
  null_id = 0;
  is_ref_name = λ name. true;
  write_to_directory = λ refs bytes. bundle (some tt);
  decode_entry = λ refs pack oid. ok (some tt);
  find_commit = λ refs oid. ok tt;
  resolve = λ refs name. refs name;
  transact = transact;
  write_pack = λ bytes refs. some refs;
  files_at_head = λ refs. some [];
  read_blob = λ refs oid. none;
  analyze = λ t. (false, []);
  resolve-update = λ name expected new c s s' h.
      let (m, e) = edited (met expected (s name)) name (some new) s s' h in
      (met-Meets expected (s name) m, e);
  resolve-delete = λ name expected s s' h.
      let (m, e) = edited (met expected (s name)) name none s s' h in
      (met-Meets expected (s name) m, e);
  resolve-write_pack = λ bytes name s s' h. ap (λ r. unwrap_or s r name) (sym h);
}
