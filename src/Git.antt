-- ===== src/Git.antt =====
-- The crates that work on a repository's files, `git_repository` and `git2`, as an interface with
-- the documented behaviour of a reference transaction.
use gitarena.Prelude.{Bool, Option, none, some, List, ◌≡◌, ◌⊎◌, Text, Bytes}
use gitarena.Error.{Result}

-- `PreviousValue`
pub data PreviousValue (ObjectId : Type 0) : Type 0 where
  any : PreviousValue ObjectId
  existing_must_match must_exist_and_match : ObjectId → PreviousValue ObjectId

-- What an expectation says of the value before the edit.
abbrev pub Meets : {ObjectId : Type 0} → PreviousValue ObjectId → Option ObjectId → Type 0
Meets any current = Unit
Meets (existing_must_match o) current = (current ≡ none) ⊎ (current ≡ some o)
Meets (must_exist_and_match o) current = current ≡ some o

-- `RefEdit`: the message and the committer of an update are those of a commit.
pub data RefEdit (ObjectId Commit : Type 0) : Type 0 where
  update :
      (name : Text) → PreviousValue ObjectId → (new : ObjectId) → Commit → RefEdit ObjectId Commit
  delete : (name : Text) → PreviousValue ObjectId → RefEdit ObjectId Commit

-- `EntryMode`
pub data EntryMode : Type 0 where
  blob link other_mode : EntryMode

pub record Entry (ObjectId : Type 0) : Type 0 where
  pub mode : EntryMode
  pub filename : Bytes
  pub oid : ObjectId

-- What writing a pack to a directory gives: the pack with its index, if both were written, or the
-- message of an error.
pub data BundleResult (Pack : Type 0) : Type 0 where
  bundle : Option Pack → BundleResult Pack
  bundle_error : Text → BundleResult Pack

-- How a transaction over a reference ends: `prepare` fails with a message, `commit` fails, or the
-- repository has changed.
pub data Outcome (Store : Type 0) : Type 0 where
  not_prepared : Text → Outcome Store
  not_committed : Outcome Store
  committed : Store → Outcome Store

-- `Store` is a repository on disk. `decode_entry` gives none for an object that is no commit;
-- `analyze` gives a license's name, and whether its score is at least 0.9.
pub record Git : Type 1 where
  pub Store : Type 0
  pub ObjectId : Type 0
  pub Pack : Type 0
  pub Commit : Type 0
  pub from_hex : Text → Option ObjectId
  pub null_id : ObjectId
  pub is_ref_name : Text → Bool
  pub write_to_directory : Store → Bytes → BundleResult Pack
  pub decode_entry : Store → Pack → ObjectId → Result (Option Commit)
  pub find_commit : Store → ObjectId → Result Commit
  pub resolve : Store → Text → Option ObjectId
  pub transact : RefEdit ObjectId Commit → Store → Outcome Store
  pub write_pack : Bytes → Store → Option Store
  pub files_at_head : Store → Option (List (Entry ObjectId))
  pub read_blob : Store → ObjectId → Option Text
  pub analyze : Text → Bool × Text
  pub resolve-update :
      (name : Text) (expected : PreviousValue ObjectId) (new : ObjectId) (c : Commit) (s s' : Store)
      → transact (update name expected new c) s ≡ committed s'
      → Meets expected (resolve s name) × (resolve s' name ≡ some new)
  pub resolve-delete :
      (name : Text) (expected : PreviousValue ObjectId) (s s' : Store)
      → transact (delete name expected) s ≡ committed s'
      → Meets expected (resolve s name) × (resolve s' name ≡ none)
  pub resolve-write_pack :
      (bytes : Bytes) (name : Text) (s s' : Store)
      → write_pack bytes s ≡ some s'
      → resolve s' name ≡ resolve s name
