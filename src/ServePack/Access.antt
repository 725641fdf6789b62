-- ===== src/ServePack/Access.antt =====
-- Who gets the objects of a repository.
use mathlib.Core.Path.{subst₂}
use gitarena.Exec.{continue}
use gitarena.ServePack.{
  content_type, result_type, go_on, upload, run_command, Objects, check_access, Refs, answered,
  granted, see, authorize_for, authorize, git_upload_pack, Admission,
}
use gitarena.Database.ReadOnly.{
  OnlyReads, OnlyReads-bind, OnlyReads-lift, OnlyReads-query, OnlyReads-commit, OnlyReads-pure,
  fresh,
}
use gitarena.GitIo.Reader.{read_until_command, read_data_lines}
use gitarena.Prelude.{
  not, ◌||◌, unwrap_or, Bool-cases, codes, [], ◌≡◌, ◌≢◌, ◌⊎◌, ◌∙◌, ap, inl, inr, refl, sym, true,
  Option, none, some, List, Text, Bytes, find?-Mem, ◌==◌, ◌&&◌, text_eq, text_eq_of, arith,
}
use gitarena.Request.{header, Request, Response}
use gitarena.Error.{Result, err, panic, ok_or, other, ok}
use gitarena.ReceivePack.{read_payload, user_like, repository_of}
use mathlib.Core.List.{Memᴰ}
use gitarena.Error.Inversion.{bind-eq-ok}
use gitarena.Database.{User, Repository, Db, Connection, public}
use gitarena.BasicAuth.{prompt, validate_repo_access}
use gitarena.BasicAuth.Credentials.{IsAuthentic}
use gitarena.BasicAuth.Access.{validate_repo_access-prompt, validate_repo_access-granted}
use gitarena.Privilege.Laws.{Sees, check_access_iff}
use gitarena.World.{Externals}
use gitarena.InfoRefs.{upload_pack_type}

-- The repository that the request names may be read: it is listed for its owner under that name, up
-- to case, and `who` may see it, which is nobody in particular if it is public, and else an authentic
-- user.
pub record MayFetch (ext : Externals) (request : Request) (username repository : Text) (db : Db)
    (who : Option User) (repo : Repository) : Type 0 where
  pub owner : User
  pub owner_listed : Memᴰ owner db.users
  pub owner_named : ext.lower owner.username ≡ ext.lower username
  pub listed : Memᴰ repo db.repositories
  pub owned : repo.owner ≡ owner.id
  pub named : ext.lower repo.name ≡ ext.lower repository
  pub sees : Sees repo db who
  pub authentic :
      ((repo.visibility ≡ public) × (who ≡ none))
      ⊎ ((repo.visibility ≢ public)
          × (user : User) × (who ≡ some user)
          × IsAuthentic ext.crypto request db user)

module _ (ext : Externals) (request : Request) (username repository : Text) (db : Db) where
  seen :
      (access : (Option User × Repository) ⊎ Response) (who : Option User) (repo : Repository)
      → see db access ≡ ok (granted who repo)
      → (access ≡ inl (who, repo)) × Sees repo db who
  seen (inr response) who repo h = absurd (cc)
  seen (inl (w, r)) who repo h =
      let visible : check_access r w db ≡ true = ground arith in
      let same_user : w ≡ who = ground arith in
      let same_repo : r ≡ repo = ground arith in
      (
        rw (same_user, same_repo) refl,
        subst₂ (λ a b. Sees a db b) same_repo same_user ((check_access_iff r w db).0 visible),
      )

  owned_by :
      (found : Option User) (who : Option User) (repo : Repository)
      → user_like ext.lower username db ≡ found
      → authorize_for ext request repository db found ≡ ok (granted who repo)
      → MayFetch ext request username repository db who repo
  owned_by none who repo e h = absurd (cc)
  owned_by (some owner) who repo e h =
      let (access, entered, h₁) =
        bind-eq-ok
          (validate_repo_access ext.crypto (repository_of ext.lower owner.id repository db)
            upload_pack_type request db)
          (see db) h in
      let (is_granted, sees) = seen access who repo h₁ in
      let (found, authentic) =
        validate_repo_access-granted ext.crypto (repository_of ext.lower owner.id repository db)
          request upload_pack_type db who repo (entered ∙ ap ok is_granted) in
      let (owner_listed, owner_like) =
        find?-Mem (λ u. text_eq (ext.lower u.username) (ext.lower username)) db.users owner e in
      let (listed, matches) =
        find?-Mem (λ r. r.owner == owner.id && text_eq (ext.lower r.name) (ext.lower repository))
          db.repositories repo found in
      record {
        owner = owner;
        owner_listed = owner_listed;
        owner_named = text_eq_of _ _ owner_like;
        listed = listed;
        owned = ground arith;
        named = text_eq_of (ext.lower repo.name) (ext.lower repository) (ground arith);
        sees = sees;
        authentic = authentic;
      }

  authorize-MayFetch :
      (who : Option User) (repo : Repository)
      → authorize ext request username repository db ≡ ok (granted who repo)
      → MayFetch ext request username repository db who repo
  unfolding authorize
  authorize-MayFetch who repo h = owned_by (user_like ext.lower username db) who repo refl h

  prompted :
      (found : Option Repository) (access : (Option User × Repository) ⊎ Response)
      (response : Response)
      → validate_repo_access ext.crypto found upload_pack_type request db ≡ ok access
      → see db access ≡ ok (answered response)
      → response ≡ prompt upload_pack_type
  prompted found (inl (who, r)) response e h = absurd (ground arith)
  prompted found (inr q) response e h =
      validate_repo_access-prompt ext.crypto found request upload_pack_type db response
        (e ∙ ap (λ x. ok (inr x)) (cc))

  answered_prompt :
      (found : Option User) (response : Response)
      → authorize_for ext request repository db found ≡ ok (answered response)
      → response ≡ prompt upload_pack_type
  answered_prompt none response h = absurd (cc)
  answered_prompt (some owner) response h =
      let (access, entered, h₁) =
        bind-eq-ok
          (validate_repo_access ext.crypto (repository_of ext.lower owner.id repository db)
            upload_pack_type request db)
          (see db) h in
      prompted (repository_of ext.lower owner.id repository db) access response entered h₁

module _ (ext : Externals) {ObjectId Commit : Type 0}
    (open_repo : Text → Option (Refs × Objects ObjectId Commit)) where
  upload-OnlyReads :
      (db : Db) (repo : Repository) (payload : List (Option Bytes)) (accept : Text)
      → OnlyReads db (upload ext open_repo repo payload accept)
  unfolding upload
  upload-OnlyReads db repo payload accept = OnlyReads-bind db _ _ (OnlyReads-query db _) (λ found.
      OnlyReads-bind db _ _ (OnlyReads-lift db found) (λ path.
        OnlyReads-bind db _ _ (OnlyReads-lift db (ok_or other (open_repo path))) (λ git2repo.
          OnlyReads-bind db _ _ (OnlyReads-lift db (read_payload ext payload)) (λ bytes.
            OnlyReads-bind db _ _
              (OnlyReads-lift db (read_until_command (read_data_lines (ext.request_lines bytes))))
              (λ parsed.
                OnlyReads-bind db _ _
                  (OnlyReads-lift db (run_command ext open_repo accept git2repo parsed))
                  (λ response.
                    OnlyReads-bind db _ _ (OnlyReads-commit db)
                      (λ done. OnlyReads-pure db response)))))))

  after_authorize :
      (request : Request) (username repository : Text) (payload : List (Option Bytes)) (db : Db)
      (c' : Connection) (accept : Text) (response : Response) (r : Result Admission)
      → authorize ext request username repository db ≡ r
      → continue (go_on ext open_repo payload accept) r (fresh db) ≡ (ok response, c')
      → (c'.committed ≡ db)
        × ((response ≡ prompt upload_pack_type)
            ⊎ ((who : Option User) × (repo : Repository) × MayFetch ext request username repository
                  db who repo))
  unfolding authorize
  after_authorize request username repository payload db c' accept response (ok (answered q)) e h =
      (
        ap (λ x. x.1.committed) (sym h),
        inl (
            (let same : q ≡ response = cc in
              sym same
              ∙ answered_prompt ext request username repository db (user_like ext.lower username db)
                  q e)),
      )
  after_authorize request username repository payload db c' accept response (ok (granted who repo))
        e h =
      (
        ap (λ x. x.1.committed) (sym h)
            ∙ ap (λ x. x.committed)
                ((upload-OnlyReads db repo payload accept).kept (fresh db) refl),
        inr (who, repo, authorize-MayFetch ext request username repository db who repo e),
      )
  after_authorize request username repository payload db c' accept response (err x) e h =
      absurd (cc)
  after_authorize request username repository payload db c' accept response panic e h = absurd (cc)

  -- An answer to a fetch that is no error changes nothing in the database. It is the prompt for
  -- credentials, unless the repository that the request names may be read.
  pub git_upload_pack-MayFetch :
      (request : Request) (username repository : Text) (payload : List (Option Bytes))
      (c c' : Connection) (response : Response)
      → git_upload_pack ext open_repo request username repository payload c ≡ (ok response, c')
      → (c'.committed ≡ c.committed)
        × ((response ≡ prompt upload_pack_type)
            ⊎ ((who : Option User) × (repo : Repository) × MayFetch ext request username repository
                  c.committed who repo))
  unfolding git_upload_pack
  git_upload_pack-MayFetch request username repository payload c c' response h =
      let accept = unwrap_or [] (header (codes "accept") request) in
      elim (Bool-cases (
        not (text_eq (unwrap_or [] (header (codes "content-type") request)) content_type)
        || not (text_eq accept result_type))) [
          | inl refused ↦ absurd (let k = rw refused at h in cc)
          | inr fine ↦
              elim (Bool-cases (
                not (
                  text_eq (unwrap_or [] (header (codes "git-protocol") request))
                    (codes "version=2")))) [
                      | inl refused ↦ absurd (let k = rw (fine, refused) at h in cc)
                      | inr version ↦
                          after_authorize request username repository payload c.committed c' accept
                            response (authorize ext request username repository c.committed) refl
                            (rw (fine, version) at h)
                    ]
        ]
