-- ===== src/BasicAuth/Access.antt =====
-- Who gets at a repository before the access checks, and what an anonymous client learns.
use gitarena.Prelude.{
  if◌then◌else◌, Bool-cases, not, ap, ◌∙◌, ◌≡◌, ◌≢◌, ◌⊎◌, inl, inr, refl, some, none, false, arith,
  Option, Text, codes,
}
use gitarena.Error.{◌>>=◌, ok, die_message}
use gitarena.Error.Inversion.{bind-eq-ok}
use gitarena.Database.{Db, User, Repository, public, private, internal, RepoVisibility}
use gitarena.Request.{Request, Response, header}
use gitarena.BasicAuth.{Crypto, prompt, login_flow, validate_repo_access, is_public, attach}
use gitarena.BasicAuth.Credentials.{IsAuthentic, authenticate-IsAuthentic}

module _ (crypto : Crypto) where
  -- A request without credentials is answered with a prompt, whatever the database holds.
  login_flow-anonymous :
      (request : Request) (content_type : Text) (db : Db)
      → header (codes "authorization") request ≡ none
      → login_flow crypto request content_type db ≡ ok (inr (prompt content_type))
  unfolding login_flow
  login_flow-anonymous request content_type db h = rw h

  -- A user whom the login gives is authentic.
  pub login_flow-IsAuthentic :
      (request : Request) (content_type : Text) (db : Db) (user : User)
      → login_flow crypto request content_type db ≡ ok (inl user)
      → IsAuthentic crypto request db user
  unfolding login_flow
  login_flow-IsAuthentic request content_type db user h =
      authenticate-IsAuthentic crypto request db user (ground arith)

  -- Without credentials, a repository that is not public is answered with a prompt, and one that
  -- does not exist with 404: the two can be told apart.
  pub validate_repo_access-anonymous :
      (repo : Repository) (request : Request) (content_type : Text) (db : Db)
      → header (codes "authorization") request ≡ none
      → is_public repo.visibility ≡ false
      → (validate_repo_access crypto (some repo) content_type request db
          ≡ ok (inr (prompt content_type)))
        × (validate_repo_access crypto none content_type request db
            ≡ die_message 404 (codes "Repository not found"))
  unfolding validate_repo_access
  validate_repo_access-anonymous repo request content_type db h p =
      let e = login_flow-anonymous request content_type db h in (rw (p, e), rw e)

  -- What the login adds to a repository.
  attached :
      (r : Repository) (access : User ⊎ Response) (who : Option User) (repo : Repository)
      → attach r access ≡ ok (inl (who, repo))
      → (r ≡ repo) × (user : User) × (access ≡ inl user) × (who ≡ some user)
  attached r (inl user) who repo h = (ground arith, user, refl, ground arith)
  attached r (inr response) who repo h = absurd (cc)

  logged_in :
      (r : Repository) (request : Request) (content_type : Text) (db : Db) (who : Option User)
      (repo : Repository)
      → (login_flow crypto request content_type db >>= attach r) ≡ ok (inl (who, repo))
      → (r ≡ repo) × (user : User) × (who ≡ some user) × IsAuthentic crypto request db user
  logged_in r request content_type db who repo h =
      let (access, entered, e) =
        bind-eq-ok (login_flow crypto request content_type db) (attach r) h in
      let (same, user, is_user, named) = attached r access who repo e in
      (
        same,
        user,
        named,
        login_flow-IsAuthentic request content_type db user (entered ∙ ap ok is_user),
      )

  granted_by :
      (v : RepoVisibility) (r : Repository) (request : Request) (content_type : Text) (db : Db)
      (who : Option User) (repo : Repository)
      → r.visibility ≡ v
      → (if not (is_public v)
          then login_flow crypto request content_type db >>= attach r
          else ok (inl (none, r)))
        ≡ ok (inl (who, repo))
      → (some r ≡ some repo)
        × (((repo.visibility ≡ public) × (who ≡ none))
            ⊎ ((repo.visibility ≢ public)
                × (user : User) × (who ≡ some user)
                × IsAuthentic crypto request db user))
  granted_by public r request content_type db who repo e h = ground arith
  granted_by internal r request content_type db who repo e h =
      let (same, user, named, authentic) = logged_in r request content_type db who repo h in
      (ap some same, inr (cc, user, named, authentic))
  granted_by private r request content_type db who repo e h =
      let (same, user, named, authentic) = logged_in r request content_type db who repo h in
      (ap some same, inr (cc, user, named, authentic))

  -- Access is granted for the repository that was asked for: to nobody in particular exactly if it
  -- is public, and else to an authentic user.
  pub validate_repo_access-granted :
      (found : Option Repository) (request : Request) (content_type : Text) (db : Db)
      (who : Option User) (repo : Repository)
      → validate_repo_access crypto found content_type request db ≡ ok (inl (who, repo))
      → (found ≡ some repo)
        × (((repo.visibility ≡ public) × (who ≡ none))
            ⊎ ((repo.visibility ≢ public)
                × (user : User) × (who ≡ some user)
                × IsAuthentic crypto request db user))
  unfolding validate_repo_access
  validate_repo_access-granted none request content_type db who repo h =
      let (access, entered, e) = bind-eq-ok (login_flow crypto request content_type db) _ h in
      absurd (cc)
  validate_repo_access-granted (some r) request content_type db who repo h =
      granted_by r.visibility r request content_type db who repo refl h

  -- A response that the login gives is the prompt.
  pub login_flow-prompt :
      (request : Request) (content_type : Text) (db : Db) (response : Response)
      → login_flow crypto request content_type db ≡ ok (inr response)
      → response ≡ prompt content_type
  unfolding login_flow
  login_flow-prompt request content_type db response h = ground arith

  attached_response :
      (r : Repository) (access : User ⊎ Response) (response : Response)
      → attach r access ≡ ok (inr response)
      → access ≡ inr response
  attached_response r (inl user) response h = absurd (cc)
  attached_response r (inr q) response h = cc

  pub validate_repo_access-prompt :
      (found : Option Repository) (request : Request) (content_type : Text) (db : Db)
      (response : Response)
      → validate_repo_access crypto found content_type request db ≡ ok (inr response)
      → response ≡ prompt content_type
  unfolding validate_repo_access
  validate_repo_access-prompt none request content_type db response h =
      let (access, entered, e) = bind-eq-ok (login_flow crypto request content_type db) _ h in
      absurd (cc)
  validate_repo_access-prompt (some r) request content_type db response h =
      elim (Bool-cases (is_public r.visibility)) [
        | inl p ↦ absurd (let k = rw p at h in cc)
        | inr p ↦
            let (access, entered, e) =
              bind-eq-ok (login_flow crypto request content_type db) (attach r) (rw p at h) in
            login_flow-prompt request content_type db response
              (entered ∙ ap ok (attached_response r access response e))
      ]
