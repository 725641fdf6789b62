-- ===== src/Users.antt =====
-- src/user.rs and src/repository.rs: who asks, and how a handler finds a user and a repository.
use gitarena.Prelude.{
  ℕ, Option, none, some, Text, codes, text_eq, find?, ◌==◌, ◌&&◌, not, if◌then◌else◌,
}
use gitarena.Error.{Result, ok, die_message, ok_or, status_message}
use gitarena.Exec.{◌>>=◌, ◌>>◌, pure, lift}
use gitarena.Database.{User, Repository, Db, Handler, query, begin, commit}
use gitarena.Privilege.{check_access}

-- `WebUser`
pub data WebUser : Type 0 where
  anonymous : WebUser
  authenticated : User → WebUser

unfoldable pub as_ref : WebUser → Option User
as_ref anonymous = none
as_ref (authenticated user) = some user

unfoldable pub into_user : WebUser → Result User
into_user anonymous = die_message 401 (codes "Not authenticated")
into_user (authenticated user) = ok user

-- `lower` is the database's.
module _ (lower : Text → Text) where
  -- `User::find_using_name`
  unfoldable pub find_using_name : Text → Db → Option User
  find_using_name name db = find? (λ u. text_eq (lower u.username) (lower name)) db.users

  -- `Repository::open`
  unfoldable pub open_repository : ℕ → Text → Db → Option Repository
  open_repository user_id name db =
      find? (λ r. r.owner == user_id && text_eq (lower r.name) (lower name)) db.repositories

  -- `find_using_name(..).ok_or_else(..)?` and `Repository::open(..).ok_or_else(..)?`
  abbrev pub found : Text → Text → Handler (User × Repository)
  found username repository = do
    owner_option ← query (find_using_name username)
    owner ← lift (ok_or (status_message 404 (codes "Repository not found")) owner_option)
    repo_option ← query (open_repository owner.id repository)
    repo ← lift (ok_or (status_message 404 (codes "Repository not found")) repo_option)
    pure (owner, repo)

  -- The early return of a handler for a user who may not see the repository.
  abbrev pub require_access : Text → Repository → Option User → Handler Unit
  require_access message repo user = do
    visible ← query (check_access repo user)
    lift (if not visible then die_message 404 message else ok tt)

  unfoldable pub extract_repo_from_request : WebUser → Text → Text → Handler Repository
  extract_repo_from_request web_user username repository = do
    begin
    (owner, repo) ← found username repository
    require_access (codes "Not found") repo (as_ref web_user)
    commit
    pure repo
