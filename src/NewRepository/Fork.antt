-- ===== src/NewRepository/Fork.antt =====
-- src/routes/repository/api/fork_repo.rs: forks of a repository, and their number.
use gitarena.Prelude.{
  ◌==◌, ◌&&◌, Bool, true, false, not, none, some, [], ◌++◌, Text, codes, count, is_some, unwrap_or,
  if◌then◌else◌,
}
use gitarena.Prelude.Decimal.{decimal}
use gitarena.Exec.{◌>>=◌, ◌>>◌, pure, lift}
use gitarena.Database.{
  User, Repository, public, internal, private, Handler, query, begin, commit, read, refuse_if,
}
use gitarena.Request.{Request, header}
use gitarena.Config.{get_optional_setting, to_string}
use gitarena.Users.{WebUser, as_ref, into_user, found, require_access}
use gitarena.World.{get_fs_path}
use gitarena.NewRepository.{Services, Answer, hx_redirect, created, amount, forks, claim, path_of}

module _ (ext : Services) where
  abbrev pub finish_fork : Request → User → Repository → Handler Answer
  finish_fork request user repo = do
    domain ← read (get_optional_setting to_string (codes "domain"))
    commit
    pure (
        let url = unwrap_or [] domain ++ path_of ext user repo in
        if is_some (header (codes "hx-request") request)
        then hx_redirect url
        else created repo.id url)

  abbrev pub copy_fork : Request → User → Repository → Repository → Handler Answer
  copy_fork request user repo new_repo = do
    old_path ← read (get_fs_path repo)
    new_path ← read (get_fs_path new_repo)
    lift (ext.copy_dir_all old_path new_path)
    finish_fork request user new_repo

  -- What follows the look-up of the repository.
  abbrev pub fork_found : Request → User → User × Repository → Handler Answer
  fork_found request user (owner, repo) = do
    require_access ext.lower (codes "Repository not found") repo (some user)
    refuse_if (repo.owner == user.id) 400 (codes "Cannot fork your own repository")
    new_repo ← claim ext user.id repo.name repo.description repo.visibility (some repo.id)
    copy_fork request user repo new_repo

  -- The handler of fork_repo.rs.
  unfoldable pub create_fork : Text → Text → WebUser → Request → Handler Answer
  create_fork username repository web_user request = do
    user ← lift (into_user web_user)
    begin
    pair ← found ext.lower username repository
    fork_found request user pair

  -- Whether a fork counts for a client.
  abbrev pub counts : WebUser → Repository → Bool
  counts web_user fork = elim fork.visibility [
    | public ↦ true
    | internal ↦ is_some (as_ref web_user)
    | private ↦ false
  ]

  unfoldable pub get_fork_amount : Text → Text → WebUser → Request → Handler Answer
  get_fork_amount username repository web_user request = do
    begin
    (owner, repo) ← found ext.lower username repository
    require_access ext.lower (codes "Repository not found") repo (as_ref web_user)
    n ← query (λ db.
        count
          (λ r.
            elim r.forked_from [ some id ↦ id == repo.id | none ↦ false ]
            && not r.disabled
            && counts web_user r)
          db.repositories)
    commit
    pure (
        if is_some (header (codes "hx-request") request)
        then amount (decimal n)
        else forks (owner.username ++ (codes "/" ++ repo.name)) n)
