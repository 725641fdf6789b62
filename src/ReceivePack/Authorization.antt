-- ===== src/ReceivePack/Authorization.antt =====
-- Who gets past the checks of a push.
use mathlib.Core.List.{Memᴰ}
use mathlib.Core.Path.{subst₂}
use gitarena.Prelude.{
  ◌≡◌, ◌⊎◌, ◌∙◌, ap, inl, inr, refl, true, false, Option, none, some, Text, find?-Mem, ◌==◌, ◌&&◌,
  text_eq, text_eq_of, arith,
}
use gitarena.Error.{ok}
use gitarena.Error.Inversion.{bind-eq-ok}
use gitarena.Database.{User, Repository, Db}
use gitarena.Request.{Request, Response}
use gitarena.BasicAuth.{login_flow}
use gitarena.BasicAuth.Credentials.{IsAuthentic}
use gitarena.BasicAuth.Access.{login_flow-IsAuthentic}
use gitarena.Privilege.{check_push}
use gitarena.Privilege.Laws.{Sees, check_access_iff}
use gitarena.World.{Externals}
use gitarena.ReceivePack.{
  admitted, user_like, repository_of, permit, after_login, authorize_for, authorize, result_type,
}

-- What the three checks of a repository establish.
pub record IsPermitted (db : Db) (repo : Repository) (user : User) : Type 0 where
  pub sees : Sees repo db (some user)
  pub pushes : check_push repo (some user) db ≡ true
  pub writable : repo.archived ≡ false

permit-IsPermitted :
    (db : Db) (repo r : Repository) (user u : User)
    → permit db r u ≡ ok (admitted user repo)
    → (u ≡ user) × (r ≡ repo) × IsPermitted db r u
unfolding permit
permit-IsPermitted db repo r user u h = (
  ground arith,
  ground arith,
  record {
    sees = (check_access_iff r (some u) db).0 (ground arith);
    pushes = ground arith;
    writable = ground arith;
  },
)

-- A user who may push into the repository that the request names: the repository is listed for its
-- owner under that name, up to case, the user is authentic, may see it and push into it, and it is
-- not archived.
pub record MayPush (ext : Externals) (request : Request) (username repository : Text) (db : Db)
    (user : User) (repo : Repository) : Type 0 where
  pub owner : User
  pub owner_listed : Memᴰ owner db.users
  pub owner_named : ext.lower owner.username ≡ ext.lower username
  pub listed : Memᴰ repo db.repositories
  pub owned : repo.owner ≡ owner.id
  pub named : ext.lower repo.name ≡ ext.lower repository
  pub authentic : IsAuthentic ext.crypto request db user
  pub permitted : IsPermitted db repo user

module _ (ext : Externals) (request : Request) (username repository : Text) (db : Db) where
  logged_in :
      (found : Option Repository) (access : User ⊎ Response) (user : User) (repo : Repository)
      → after_login db found access ≡ ok (admitted user repo)
      → (access ≡ inl user) × (found ≡ some repo) × IsPermitted db repo user
  logged_in found (inr response) user repo h = absurd (cc)
  logged_in none (inl u) user repo h = absurd (cc)
  logged_in (some r) (inl u) user repo h =
      let (same_user, same_repo, p) = permit-IsPermitted db repo r user u h in
      (
        ap inl same_user,
        ap some same_repo,
        subst₂ (λ a b. IsPermitted db a b) same_repo same_user p,
      )

  owned_by :
      (found : Option User) (user : User) (repo : Repository)
      → user_like ext.lower username db ≡ found
      → authorize_for ext request repository db found ≡ ok (admitted user repo)
      → MayPush ext request username repository db user repo
  owned_by none user repo e h = absurd (cc)
  owned_by (some owner) user repo e h =
      let (access, entered, h₁) =
        bind-eq-ok (login_flow ext.crypto request result_type db)
          (after_login db (repository_of ext.lower owner.id repository db)) h in
      let (is_user, found, p) =
        logged_in (repository_of ext.lower owner.id repository db) access user repo h₁ in
      let (owner_listed, owner_like) =
        find?-Mem (λ u. text_eq (ext.lower u.username) (ext.lower username)) db.users owner e in
      let (listed, matches) =
        find?-Mem (λ r. r.owner == owner.id && text_eq (ext.lower r.name) (ext.lower repository))
          db.repositories repo found in
      record {
        owner = owner;
        owner_listed = owner_listed;
        owner_named = text_eq_of _ _ owner_like;
        listed = listed;
        owned = ground arith;
        named = text_eq_of (ext.lower repo.name) (ext.lower repository) (ground arith);
        authentic =
            login_flow-IsAuthentic ext.crypto request result_type db user (entered ∙ ap ok is_user);
        permitted = p;
      }

  -- Only a user who may push into the repository that the request names is admitted, and for that
  -- repository.
  pub authorize-MayPush :
      (user : User) (repo : Repository)
      → authorize ext request username repository db ≡ ok (admitted user repo)
      → MayPush ext request username repository db user repo
  unfolding authorize
  authorize-MayPush user repo h = owned_by (user_like ext.lower username db) user repo refl h
