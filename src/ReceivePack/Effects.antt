-- ===== src/ReceivePack/Effects.antt =====
-- What a push changes.
use gitarena.Prelude.{
  [], ◌≡◌, ◌≢◌, none, false, Option-cases, ◌⊎◌, inl, inr, refl, Option, List, Text, Bytes, codes,
  Bool-cases, ◌||◌, not, text_eq, unwrap_or,
}
use gitarena.Error.{Result, ok, err, panic}
use gitarena.Exec.{continue}
use gitarena.Database.{User, Repository}
use gitarena.Request.{Request, header, Response}
use gitarena.RefUpdate.{RefUpdate, is_only_deletions}
use gitarena.World.{Externals, World, get_fs_path}
use gitarena.ReceivePack.{
  Admission, answered, admitted, authorize, go_on, git_receive_pack, content_type, result_type,
  perform,
}
use gitarena.ReceivePack.Authorization.{MayPush, authorize-MayPush}

-- Neither the repositories nor the database have changed.
pub record IsUnchanged (ext : Externals) (w w' : World ext.git) : Type 0 where
  pub disk : w'.disk ≡ w.disk
  pub committed : w'.connection.committed ≡ w.connection.committed

module _ (ext : Externals) (request : Request) (username repository : Text)
    (payload : List (Option Bytes)) where
  admission_cases :
      (w : World ext.git) (accept : Text) (r : Result Admission)
      → authorize ext request username repository w.connection.current ≡ r
      → IsUnchanged ext w (continue (go_on ext payload accept) r w).1
        ⊎ ((user : User) × (repo : Repository) × MayPush ext request username repository
              w.connection.current user repo)
  admission_cases w accept (ok (answered response)) e =
      inl (record { disk = refl; committed = refl })
  admission_cases w accept (ok (admitted user repo)) e = inr (
    user,
    repo,
    authorize-MayPush ext request username repository w.connection.current user repo e,
  )
  admission_cases w accept (err x) e = inl (record { disk = refl; committed = refl })
  admission_cases w accept panic e = inl (record { disk = refl; committed = refl })

  -- What is read after `begin` is what is committed.
  begun :
      (w : World ext.git)
      → let v = record w {
        connection = record w.connection { current = w.connection.committed };
      } in
        IsUnchanged ext w
          (continue
            (go_on ext payload (unwrap_or [] (header (codes "accept") request)))
            (authorize ext request username repository w.connection.committed)
            v).1
        ⊎ ((user : User) × (repo : Repository) × MayPush ext request username repository
              w.connection.committed user repo)
  begun w =
      elim (admission_cases
        (record w { connection = record w.connection { current = w.connection.committed } })
        (unwrap_or [] (header (codes "accept") request))
        (authorize ext request username repository w.connection.committed) refl) [
          | inl same ↦ inl (record { disk = same.disk; committed = same.committed })
          | inr may ↦ inr may
        ]

  -- Whatever the request, and however it ends, either no repository on disk and nothing of the
  -- committed database has changed, or the request is by a user who may push into the repository
  -- that it names.
  pub git_receive_pack-MayPush :
      (w : World ext.git)
      → IsUnchanged ext w (git_receive_pack ext request username repository payload w).1
        ⊎ ((user : User) × (repo : Repository) × MayPush ext request username repository
              w.connection.committed user repo)
  unfolding git_receive_pack
  git_receive_pack-MayPush w =
      elim (Bool-cases (
        not (text_eq (unwrap_or [] (header (codes "content-type") request)) content_type)
        || not (text_eq (unwrap_or [] (header (codes "accept") request)) result_type))) [
          | inl refused ↦ inl (rw refused (record { disk = refl; committed = refl }))
          | inr fine ↦ rw fine (begun w)
        ]

module _ (ext : Externals) (repo : Repository) (updates : List RefUpdate) (bytes : Bytes)
    (accept : Text) (w : World ext.git) (response : Response) where
  refused_from :
      (path : Result Text)
      → get_fs_path repo w.connection.current ≡ path
      → ext.search_in (codes "PACK") bytes ≡ none
      → is_only_deletions updates ≡ ok false
      → IsUnchanged ext w (perform ext repo updates bytes accept w).1
        × ((perform ext repo updates bytes accept w).0 ≢ ok response)
  unfolding perform
  refused_from (ok path) e p o = elim (Option-cases (w.disk path)) [
    | inl d ↦ rw (e, d) (record { disk = refl; committed = refl }, λ h. absurd (cc))
    | inr (store, d) ↦ rw (e, d, p, o) (record { disk = refl; committed = refl }, λ h. absurd (cc))
  ]
  refused_from (err x) e p o = rw e (record { disk = refl; committed = refl }, λ h. absurd (cc))
  refused_from panic e p o = rw e (record { disk = refl; committed = refl }, λ h. absurd (cc))

  -- A push without a pack file that holds more than deletions is refused: no repository on disk and
  -- nothing of the committed database changes, and the answer is an error.
  pub perform-refused :
      ext.search_in (codes "PACK") bytes ≡ none
      → is_only_deletions updates ≡ ok false
      → IsUnchanged ext w (perform ext repo updates bytes accept w).1
        × ((perform ext repo updates bytes accept w).0 ≢ ok response)
  perform-refused p o = refused_from (get_fs_path repo w.connection.current) refl p o
