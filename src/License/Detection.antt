-- ===== src/License/Detection.antt =====
-- What the search for a license does to the repository.
use gitarena.Prelude.{
  ◌≡◌, ◌≢◌, ◌++◌, ◌∷◌, ◌⊎◌, [], List, true, false, not, Option, some, none, Text, Bytes, refl, All,
  inl, inr, if◌then◌else◌, Option-cases, Bool-cases, ◌∙◌,
}
use gitarena.Error.{Result, ok, err, other}
use gitarena.Database.{Repository}
use gitarena.Git.{Git, EntryMode, blob, link, other_mode, Entry}
use gitarena.World.{World, get_fs_path}
use gitarena.License.{
  at_entry, read_license, is_license_file, detect_license_from_file, detect_in, detect_license,
  run_hooks, or_unchanged,
}

-- The same repository, but for its license.
abbrev pub Relicensed : Repository → Result Repository → Type 0
Relicensed repo r =
    (r ≡ err other) ⊎ ((license : Option Text) × (r ≡ ok (record repo { license = license })))

module _ (git : Git) (lowercase : Bytes → Bytes) where
  -- A regular file whose name, in lower case, is that of a license.
  abbrev pub IsCandidate : Entry (git.ObjectId) → Type 0
  IsCandidate entry = (is_license_file (lowercase entry.filename) ≡ true) × (entry.mode ≡ blob)

  abbrev pub IsNoCandidate : Entry (git.ObjectId) → Type 0
  IsNoCandidate entry = (is_license_file (lowercase entry.filename) ≡ false) ⊎ (entry.mode ≢ blob)

  at_entry_file :
      (store : git.Store) (repo : Repository) (entry : Entry (git.ObjectId)) (m : EntryMode)
      (rest : Result Repository)
      → m ≢ blob
      → at_entry git lowercase store repo entry m rest ≡ rest
  at_entry_file store repo entry blob rest h = absurd (h refl)
  at_entry_file store repo entry link rest h = refl
  at_entry_file store repo entry other_mode rest h = refl

  -- One round of the loop.
  skip :
      (store : git.Store) (repo : Repository) (entry : Entry (git.ObjectId))
      (rest : Result Repository)
      → IsNoCandidate entry
      → (if not (is_license_file (lowercase entry.filename))
          then rest
          else at_entry git lowercase store repo entry entry.mode rest)
        ≡ rest
  skip store repo entry rest (inl named) = rw named refl
  skip store repo entry rest (inr file) =
      elim (Bool-cases (is_license_file (lowercase entry.filename))) [
        | inl e ↦ rw e (at_entry_file store repo entry entry.mode rest file)
        | inr e ↦ rw e refl
      ]

  -- The first candidate decides the license by its text; the files before and behind it do not
  -- matter.
  pub detect_in-first :
      (store : git.Store) (repo : Repository) (before : List (Entry (git.ObjectId)))
      (entry : Entry (git.ObjectId)) (after : List (Entry (git.ObjectId))) (text : Text)
      → All IsNoCandidate before
      → IsCandidate entry
      → git.read_blob store entry.oid ≡ some text
      → detect_in git lowercase store repo (before ++ entry ∷ after)
        ≡ ok (detect_license_from_file git lowercase repo text)
  unfolding detect_in
  detect_in-first store repo [] entry after text h (named, file) e = rw (named, file, e) refl
  detect_in-first store repo (b ∷ before) entry after text (p, h) c e =
      skip store repo b (detect_in git lowercase store repo (before ++ entry ∷ after)) p
      ∙ detect_in-first store repo before entry after text h c e

  read_license-Relicensed :
      (store : git.Store) (repo : Repository) (oid : git.ObjectId)
      → Relicensed repo (read_license git lowercase store repo oid)
  unfolding detect_license_from_file
  read_license-Relicensed store repo oid = elim (Option-cases (git.read_blob store oid)) [
    | inl e ↦ inl (rw e refl)
    | inr (text, e) ↦
        inr (if (git.analyze text).0 then some (git.analyze text).1 else none, rw e refl)
  ]

  at_entry-Relicensed :
      (store : git.Store) (repo : Repository) (entry : Entry (git.ObjectId)) (m : EntryMode)
      (rest : Result Repository)
      → Relicensed repo rest
      → Relicensed repo (at_entry git lowercase store repo entry m rest)
  at_entry-Relicensed store repo entry blob rest h = read_license-Relicensed store repo entry.oid
  at_entry-Relicensed store repo entry link rest h = h
  at_entry-Relicensed store repo entry other_mode rest h = h

  detect_in-Relicensed :
      (store : git.Store) (repo : Repository) (entries : List (Entry (git.ObjectId)))
      → Relicensed repo (detect_in git lowercase store repo entries)
  unfolding detect_in
  detect_in-Relicensed store repo [] = inr (repo.license, refl)
  detect_in-Relicensed store repo (entry ∷ entries) =
      let rest = detect_in-Relicensed store repo entries in
      elim (Bool-cases (is_license_file (lowercase entry.filename))) [
        | inl e ↦ rw e (
            at_entry-Relicensed store repo entry entry.mode
              (detect_in git lowercase store repo entries) rest)
        | inr e ↦ rw e rest
      ]

  detect_license-Relicensed :
      (store : git.Store) (repo : Repository)
      → Relicensed repo (detect_license git lowercase store repo)
  unfolding detect_license
  detect_license-Relicensed store repo = elim (Option-cases (git.files_at_head store)) [
    | inl e ↦ inl (rw e refl)
    | inr (entries, e) ↦ rw e (detect_in-Relicensed store repo entries)
  ]

  logged :
      (repo : Repository) (r : Result Repository)
      → Relicensed repo r
      → (license : Option Text) × (or_unchanged git lowercase repo r
          ≡ ok (record repo { license = license }))
  logged repo r (inl e) = (repo.license, rw e refl)
  logged repo r (inr (license, e)) = (license, rw e refl)

  -- If the repository opens, the hooks succeed, whatever comes of the search: they change nothing of
  -- the repository but its license, and nothing on disk, in the database or in the response.
  pub run_hooks-license :
      (repo : Repository) (w : World git) (path : Text) (opened : git.Store)
      → get_fs_path repo w.connection.current ≡ ok path
      → w.disk path ≡ some opened
      → (license : Option Text) × (run_hooks git lowercase repo w
          ≡ (ok (record repo { license = license }), w))
  unfolding run_hooks
  run_hooks-license repo w path opened located there =
      let (license, e) = logged repo _ (detect_license-Relicensed opened repo) in
      (license, rw (located, there, e) refl)
