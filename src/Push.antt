-- ===== src/Push.antt =====
-- src/git/receive_pack.rs and src/git/pack.rs: one command of a push, carried out.
pub mod Refs
pub mod Update
pub mod Delete
mod Tests
use gitarena.Prelude.{
  ℕ, ◌||◌, Bool, true, false, not, Option, none, some, ◌++◌, Text, Bytes, codes, text_eq, is_some,
  is_none, if◌then◌else◌,
}
use gitarena.Error.{Error, Result, ok, err, panic, other, status_message, die_message, ok_or}
use gitarena.Exec.{Exec, ◌>>=◌, ◌>>◌, pure, lift, raise}
use gitarena.Database.{Repository}
use gitarena.Git.{
  Git, PreviousValue, any, existing_must_match, must_exist_and_match, RefEdit, update, delete,
  Outcome, not_prepared, not_committed, committed, BundleResult, bundle, bundle_error,
}
use gitarena.GitIo.Band
use gitarena.GitIo.Writer.{write_text_sideband_pktline}
use gitarena.Oid.{from_hex_str}
use gitarena.RefUpdate.{RefUpdate}
use gitarena.World.{Externals, World, on_writer, open_at, put_at, get_fs_path}

-- `prepare(..).map_err(..)?.commit(..)?`
abbrev pub settle : {Store : Type 0} → (Text → Error) → Outcome Store → Result Store
settle map_err (not_prepared message) = err (map_err message)
settle map_err not_committed = err other
settle map_err (committed store) = ok store

abbrev pub failed : Text → Error
failed message = status_message 500 (codes "Failed to commit transaction: " ++ message)

module _ (ext : Externals) where
  abbrev pub Push : Type 0 → Type 0
  Push A = Exec (World ext.git) A

  -- `assert!(..)`
  abbrev pub assert : Bool → Push Unit
  assert holds = if holds then pure tt else lift panic

  -- `pack::write_to_fs` and `pack::read`
  unfoldable pub read_pack : ext.git.Store → Bytes → Result (Option (ext.git.Pack))
  read_pack store data' = elim (ext.git.write_to_directory store data') [
    | bundle none ↦ err other
    | bundle (some pack) ↦ ok (some pack)
    | bundle_error message ↦
        if text_eq message (codes "Did not encounter a single base") then ok none else err other
  ]

  abbrev pub as_commit : Option (ext.git.Commit) → Result (ext.git.Commit)
  as_commit none = die_message 400 (codes "Unexpected payload data type")
  as_commit (some c) = ok c

  -- The commit that the new object id names: in the pack, or in the repository.
  abbrev pub commit_of :
      ext.git.Store → Option (ext.git.Pack) → ext.git.ObjectId → Result (ext.git.Commit)
  commit_of store none oid = ext.git.find_commit store oid
  commit_of store (some pack) oid = elim (ext.git.decode_entry store pack oid) [
    | ok c ↦ as_commit c
    | err e ↦ err e
    | panic ↦ panic
  ]

  abbrev pub existing : Result (ext.git.ObjectId) → Result (PreviousValue (ext.git.ObjectId))
  existing (ok oid) = ok (existing_must_match oid)
  existing (err e) = err e
  existing panic = panic

  abbrev pub previous_value : Option Text → Result (PreviousValue (ext.git.ObjectId))
  previous_value none = ok any
  previous_value (some old) = existing (from_hex_str ext.git.from_hex ext.git.null_id (some old))

  abbrev pub report : RefUpdate → Push Unit
  report u =
      if u.report_status || u.report_status_v2
      then on_writer ext.git (
          write_text_sideband_pktline ext.frame ext.hex Band.data_band
            (codes "ok " ++ u.target_ref))
      else pure tt

  abbrev pub check_name : Text → Push Unit
  check_name name = if ext.git.is_ref_name name then pure tt else raise other

  -- The transaction of `process_create_update` is a second one, over what is committed.
  abbrev pub committed_path : Repository → Push Text
  committed_path repo w = (get_fs_path repo w.connection.committed, w)

  abbrev pub current_path : Repository → Push Text
  current_path repo w = (get_fs_path repo w.connection.current, w)

  -- The block "Gitoxide zone": `store` is the path of the repository whose objects are read, when
  -- they are read.
  unfoldable pub update_reference :
      RefUpdate → Repository → Text → Option (ext.git.Pack) → ext.git.ObjectId → Push Unit
  update_reference u repo store pack new_oid = do
    objects ← open_at ext.git store
    commit ← lift (commit_of objects pack new_oid)
    previous ← lift (previous_value u.old)
    check_name u.target_ref
    path ← committed_path repo
    before ← open_at ext.git path
    edited ← lift (
        settle (λ message. other)
          (ext.git.transact (update u.target_ref previous new_oid commit) before))
    put_at ext.git path edited

  -- The block "libgit2 zone".
  unfoldable pub write_objects : Repository → Bytes → Push Unit
  write_objects repo raw_pack = do
    path ← committed_path repo
    opened ← open_at ext.git path
    written ← lift (ok_or other (ext.git.write_pack raw_pack opened))
    put_at ext.git path written

  -- What follows the assertion.
  abbrev pub carry_out : RefUpdate → Repository → Text → Option (ext.git.Pack) → Bytes → Push Unit
  carry_out u repo store pack raw_pack = do
    new_oid ← lift (from_hex_str ext.git.from_hex ext.git.null_id u.new)
    update_reference u repo store pack new_oid
    write_objects repo raw_pack
    report u

  unfoldable pub process_create_update :
      RefUpdate → Repository → Text → Option (ext.git.Pack) → Bytes → Push Unit
  process_create_update u repo store pack raw_pack =
      assert (is_some u.new) >> carry_out u repo store pack raw_pack

  -- An error of the conversion is replaced by a 404.
  abbrev pub or_missing : Result (ext.git.ObjectId) → Result (ext.git.ObjectId)
  or_missing (err e) = die_message 404 (codes "Ref does not exist")
  or_missing r = r

  -- What follows the assertions.
  abbrev pub remove_reference : RefUpdate → Repository → Push Unit
  remove_reference u repo = do
    path ← current_path repo
    before ← open_at ext.git path
    object_id ← lift (or_missing (from_hex_str ext.git.from_hex ext.git.null_id u.old))
    check_name u.target_ref
    edited ← lift (
        settle failed
          (ext.git.transact (delete u.target_ref (must_exist_and_match object_id)) before))
    put_at ext.git path edited
    report u

  unfoldable pub process_delete : RefUpdate → Repository → Push Unit
  process_delete u repo =
      assert (is_some u.old) >> (assert (is_none u.new) >> remove_reference u repo)
