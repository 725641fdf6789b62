-- ===== src/Packing.antt =====
-- The pack builder of the crate `git2` and what src/git/fetch.rs inserts into it. A builder is the
-- sequence of the calls that were made on it, so what it does next is a function of those.
pub mod Commits
mod Tests
use mathlib.Core.List.{Memᴰ}
use gitarena.Prelude.{
  ℕ, zero, suc, ◌<◌, Bool, Option, none, some, List, [], ◌∷◌, ◌++◌, Text, Bytes, if◌then◌else◌,
}
use gitarena.Error.{Result, ok, err, panic, other, ok_or}
use gitarena.Exec.{Exec, ◌>>=◌, ◌>>◌, pure, lift}
use gitarena.GitIo.Progress.{ProgressWriter, Stage, callback}

-- `ObjectType`
pub data ObjectType : Type 0 where
  any_type commit_type tree_type blob_type tag_type : ObjectType

-- `Object`: its kind, and itself as a commit.
pub record Object (ObjectId Commit : Type 0) : Type 0 where
  pub id : ObjectId
  pub kind : Option ObjectType
  pub as_commit : Option Commit

-- The calls that insert into a builder.
pub data Insert (ObjectId : Type 0) : Type 0 where
  insert_commit insert_tree : ObjectId → Insert ObjectId
  insert_object : ObjectId → Option Text → Insert ObjectId

-- A call of the progress callback.
pub record Report : Type 0 where
  pub stage : Stage
  pub current : ℕ
  pub total : ℕ

-- A repository's objects and the pack builder over them. `parents` is what the iterator over a
-- commit's parents gives. A history has no cycle: a commit's generation number is above those of its
-- parents. `insert` gives what a call reports, after the calls before it, and whether it succeeds;
-- `write_buf` what the writing reports, and the pack. `stack` is how many calls of the recursion over
-- parents the thread's stack has room for.
pub record Objects (ObjectId Commit : Type 0) : Type 0 where
  pub from_str : Text → Option ObjectId
  pub find_object : ObjectId → Option (Object ObjectId Commit)
  pub commit_id : Commit → ObjectId
  pub parents : Commit → List Commit
  pub generation : Commit → ℕ
  pub can_build : Bool
  pub stack : ℕ
  pub insert : List (Insert ObjectId) → Insert ObjectId → List Report × Bool
  pub write_buf : List (Insert ObjectId) → List Report × Option Bytes
  pub object_count : List (Insert ObjectId) → ℕ
  pub generation-parents : (c p : Commit) → Memᴰ p (parents c) → generation p < generation c

-- A builder with the progress writer that its callback holds.
pub record Packer (ObjectId : Type 0) : Type 0 where
  pub inserted : List (Insert ObjectId)
  pub progress : ProgressWriter

-- `for x in xs { f(x)?; }`
unfoldable pub for_each {ℓ} : {S A : Type ℓ} → (A → Exec S Unit) → List A → Exec S Unit
for_each f [] = pure tt
for_each f (x ∷ xs) = f x >> for_each f xs

module _ {ObjectId Commit : Type 0} (objects : Objects ObjectId Commit) where
  abbrev with_progress :
      {A : Type 0} → Packer ObjectId → Result A × ProgressWriter → Result A × Packer ObjectId
  with_progress p (r, progress) = (r, record p { progress = progress })

  -- The callback's answer makes the builder go on.
  abbrev report : Report → Exec (Packer ObjectId) Unit
  report r =
      (λ p. with_progress p (callback r.stage r.current r.total p.progress)) >>= λ go_on. pure tt

  abbrev remember : Insert ObjectId → Exec (Packer ObjectId) Unit
  remember i p = (ok tt, record p { inserted = p.inserted ++ i ∷ [] })

  unfoldable pub insert_with : Insert ObjectId → Exec (Packer ObjectId) Unit
  unfolding for_each
  insert_with i p =
      let (reports, succeeds) = objects.insert p.inserted i in
      (for_each report reports >> (if succeeds then remember i else lift (err other))) p

  -- The number is how many calls there is still room for on the stack, which has run out at zero.
  unfoldable pub insert_commit_with_parents : ℕ → Commit → Exec (Packer ObjectId) Unit
  unfolding insert_with for_each
  insert_commit_with_parents zero commit = lift panic
  insert_commit_with_parents (suc room) commit = do
    insert_with (insert_commit (objects.commit_id commit))
    for_each (insert_commit_with_parents room) (objects.parents commit)

  abbrev insert_as_commit : Option Commit → Exec (Packer ObjectId) Unit
  insert_as_commit none = pure tt
  insert_as_commit (some commit) = insert_commit_with_parents objects.stack commit

  abbrev insert_kind :
      Text → Object ObjectId Commit → Option ObjectType → Exec (Packer ObjectId) Unit
  insert_kind wanted object (some commit_type) = insert_as_commit object.as_commit
  insert_kind wanted object (some tree_type) = insert_with (insert_tree object.id)
  insert_kind wanted object _ = insert_with (insert_object object.id (some wanted))

  -- An object that is not found is only logged.
  abbrev insert_found : Text → Option (Object ObjectId Commit) → Exec (Packer ObjectId) Unit
  insert_found wanted none = pure tt
  insert_found wanted (some object) = insert_kind wanted object object.kind

  unfoldable pub insert_wanted : Text → Exec (Packer ObjectId) Unit
  insert_wanted wanted = do
    id ← lift (ok_or other (objects.from_str wanted))
    insert_found wanted (objects.find_object id)

  abbrev write_pack : Exec (Packer ObjectId) Bytes
  write_pack p =
      let (reports, pack) = objects.write_buf p.inserted in
      (for_each report reports >> lift (ok_or other pack)) p

  -- The block that builds the pack of the objects that are wanted.
  unfoldable pub build_pack : List Text → Exec (Packer ObjectId) Bytes
  unfolding insert_wanted for_each
  build_pack wants = do
    (if objects.can_build then pure tt else lift (err other))
    for_each insert_wanted wants
    write_pack
