-- ===== src/License.antt =====
-- src/licenses.rs and src/git/hooks: the license of a repository, found after a push.
pub mod Detection
mod Tests
use gitarena.Prelude.{
  Bool, true, false, not, Option, none, some, List, [], ◌∷◌, Text, Bytes, codes, text_eq, any,
  if◌then◌else◌,
}
use gitarena.Error.{Result, ok, err, panic, other, ok_or}
use gitarena.Error
use gitarena.Exec.{Exec, ◌>>=◌, lift}
use gitarena.World.{World, open_at, get_fs_path}
use gitarena.Database.{Repository}
use gitarena.Git.{Git, EntryMode, blob, link, other_mode, Entry}

abbrev pub license_file_names : List Bytes
license_file_names =
    codes "copying"
    ∷ codes "copyright"
    ∷ codes "eula"
    ∷ codes "license"
    ∷ codes "notice"
    ∷ codes "patents"
    ∷ codes "unlicense"
    ∷ codes "agpl"
    ∷ codes "gpl"
    ∷ codes "lgpl"
    ∷ codes "apache-"
    ∷ codes "bsd-"
    ∷ codes "cc-by-"
    ∷ codes "gfdl-"
    ∷ codes "gnu-"
    ∷ codes "mit-"
    ∷ codes "mpl-"
    ∷ codes "ofl-"
    ∷ []

-- `license_file_names().contains(..)`
unfoldable pub is_license_file : Bytes → Bool
is_license_file name = any (text_eq name) license_file_names

module _ (git : Git) (lowercase : Bytes → Bytes) where
  abbrev licensed : Repository → Bool × Text → Repository
  licensed repo (confident, name) = record repo { license = if confident then some name else none }

  unfoldable pub detect_license_from_file : Repository → Text → Repository
  detect_license_from_file repo text = licensed repo (git.analyze text)

  abbrev read_license : git.Store → Repository → git.ObjectId → Result Repository
  read_license store repo oid =
      Error.◌>>=◌ (ok_or other (git.read_blob store oid))
        (λ content. ok (detect_license_from_file repo content))

  abbrev at_entry :
      git.Store
      → Repository
      → Entry (git.ObjectId)
      → EntryMode
      → Result Repository
      → Result Repository
  at_entry store repo entry blob rest = read_license store repo entry.oid
  at_entry store repo entry link rest = rest
  at_entry store repo entry other_mode rest = rest

  unfoldable pub detect_in :
      git.Store → Repository → List (Entry (git.ObjectId)) → Result Repository
  unfolding detect_license_from_file
  detect_in store repo [] = ok repo
  detect_in store repo (entry ∷ entries) =
      let rest = detect_in store repo entries in
      if not (is_license_file (lowercase entry.filename))
      then rest
      else at_entry store repo entry entry.mode rest

  unfoldable pub detect_license : git.Store → Repository → Result Repository
  unfolding detect_in
  detect_license store repo =
      Error.◌>>=◌ (ok_or other (git.files_at_head store)) (detect_in store repo)

  -- An error is only logged.
  abbrev or_unchanged : Repository → Result Repository → Result Repository
  or_unchanged repo (err e) = ok repo
  or_unchanged repo r = r

  abbrev path_of : Repository → Exec (World git) Text
  path_of repo w = (get_fs_path repo w.connection.current, w)

  -- `post_update::run`: the opened repository has the objects that are on disk by then.
  unfoldable pub run_hooks : Repository → Exec (World git) Repository
  unfolding detect_license
  run_hooks repo = do
    path ← path_of repo
    opened ← open_at git path
    lift (or_unchanged repo (detect_license opened repo))
