-- ===== src/NewRepository/Invariant.antt =====
-- New repositories keep the tables free of duplicates.
use gitarena.Prelude.{
  not, ◌==◌, ◌||◌, Option, none, some, Text, codes, is_some, if◌then◌else◌, unwrap_or, ◌++◌,
}
use gitarena.Error.{Result, ok, die_message, ok_or, status_message}
use gitarena.Exec.{lift}
use gitarena.Exec.Keeps.{Keeps, Anything, Keeps-any, Keeps-pure, Keeps-chain}
use gitarena.Database.{User, Repository, Connection}
use gitarena.Database.Consistent.{IsConsistent, AreConsistent}
use gitarena.Database.Steps.{read-Keeps, query-Keeps, begin-Keeps}
use gitarena.Request.{Request, header}
use gitarena.Config.{get_setting, to_bool}
use gitarena.Users.{WebUser, into_user, found, require_access, find_using_name, open_repository}
use gitarena.Privilege.{check_access}
use gitarena.World.{get_fs_path}
use gitarena.NewRepository.{
  [], Services, CreateRequest, ImportRequest, hx_redirect, created, check_name, finish, set_up,
  create, send_import, import, answer, path_of,
}
use gitarena.NewRepository.Fork.{finish_fork, copy_fork, fork_found, create_fork}
use gitarena.NewRepository.Steps.{claim-Keeps, create_fs-Keeps, if_readme-Keeps, domain-Keeps}

module _ (ext : Services) (request : Request) where
  abbrev J : Connection → Type 0
  J = AreConsistent ext.lower

  finish-Keeps : (user : User) (repo : Repository) → Keeps J (finish ext request user repo) Anything
  finish-Keeps user repo =
      domain-Keeps ext
        (λ domain. answer ext request (unwrap_or [] domain) (path_of ext user repo) repo)

  set_up-Keeps :
      (user : User) (readme : Option Text) (repo : Repository)
      → Keeps J (set_up ext request user readme repo) Anything
  set_up-Keeps user readme repo = Keeps-chain J _ _ (create_fs-Keeps ext repo) (λ made.
      Keeps-chain J _ _ (if_readme-Keeps ext (is_some readme) repo user)
        (λ written. finish-Keeps user repo))

  create-Keeps :
      (body : CreateRequest) (web_user : WebUser)
      → Keeps J (create ext body web_user request) Anything
  unfolding create
  create-Keeps body web_user = Keeps-chain J _ _ (begin-Keeps ext.lower) (λ started.
      Keeps-chain J _ _ (Keeps-any J (into_user web_user)) (λ user.
        Keeps-chain J _ _ (Keeps-any J (check_name ext body.name body.description)) (λ legal.
          Keeps-chain J _ _
            (claim-Keeps ext user.id body.name body.description body.visibility none)
            (λ repo. set_up-Keeps user body.readme repo))))

  finish_fork-Keeps :
      (user : User) (repo : Repository) → Keeps J (finish_fork ext request user repo) Anything
  finish_fork-Keeps user repo = domain-Keeps ext (λ domain.
      let url = unwrap_or [] domain ++ path_of ext user repo in
      if is_some (header (codes "hx-request") request)
      then hx_redirect url
      else created repo.id url)

  copy_fork-Keeps :
      (user : User) (repo new_repo : Repository)
      → Keeps J (copy_fork ext request user repo new_repo) Anything
  copy_fork-Keeps user repo new_repo =
      Keeps-chain J _ _ (read-Keeps ext.lower (get_fs_path repo)) (λ old_path.
        Keeps-chain J _ _ (read-Keeps ext.lower (get_fs_path new_repo)) (λ new_path.
          Keeps-chain J _ _ (Keeps-any J (ext.copy_dir_all old_path new_path))
            (λ copied. finish_fork-Keeps user new_repo)))

  refuse-Keeps : (r : Result (Unit {0})) → Keeps J (lift r) Anything
  refuse-Keeps r = Keeps-any J r

  access-Keeps :
      (repo : Repository) (user : Option User)
      → Keeps J (require_access ext.lower (codes "Repository not found") repo user) Anything
  access-Keeps repo user =
      Keeps-chain J _ _ (query-Keeps ext.lower (check_access repo user)) (λ visible.
        refuse-Keeps
          (if not visible then die_message 404 (codes "Repository not found") else ok tt))

  found-Keeps :
      (username repository : Text) → Keeps J (found ext.lower username repository) Anything
  found-Keeps username repository =
      Keeps-chain J _ _ (query-Keeps ext.lower (find_using_name ext.lower username))
        (λ owner_option.
          Keeps-chain J _ _
            (Keeps-any J (ok_or (status_message 404 (codes "Repository not found")) owner_option))
            (λ owner.
              Keeps-chain J _ _
                (query-Keeps ext.lower (open_repository ext.lower owner.id repository))
                (λ repo_option.
                  Keeps-chain J _ _
                    (Keeps-any J
                      (ok_or (status_message 404 (codes "Repository not found")) repo_option))
                    (λ repo. Keeps-pure J (owner, repo) Anything tt))))

  fork_found-Keeps :
      (user owner : User) (repo : Repository)
      → Keeps J (fork_found ext request user (owner, repo)) Anything
  fork_found-Keeps user owner repo = Keeps-chain J _ _ (access-Keeps repo (some user)) (λ visible.
      Keeps-chain J _ _
        (refuse-Keeps (
          if repo.owner == user.id
          then die_message 400 (codes "Cannot fork your own repository")
          else ok tt))
        (λ foreign.
          Keeps-chain J _ _
            (claim-Keeps ext user.id repo.name repo.description repo.visibility (some repo.id))
            (λ new_repo. copy_fork-Keeps user repo new_repo)))

  create_fork-Keeps :
      (username repository : Text) (web_user : WebUser)
      → Keeps J (create_fork ext username repository web_user request) Anything
  unfolding create_fork
  create_fork-Keeps username repository web_user =
      Keeps-chain J _ _ (Keeps-any J (into_user web_user)) (λ user.
        Keeps-chain J _ _ (begin-Keeps ext.lower) (λ started.
          Keeps-chain J _ _ (found-Keeps username repository)
            (λ pair. fork_found-Keeps user pair.0 pair.1)))

  send_import-Keeps :
      (user : User) (body : ImportRequest) (url : Text) (repo : Repository)
      → Keeps J (send_import ext request user body url repo) Anything
  send_import-Keeps user body url repo = Keeps-chain J _ _ (create_fs-Keeps ext repo) (λ made.
      Keeps-chain J _ _ (Keeps-any J (ext.send url body.username body.password))
        (λ sent. finish-Keeps user repo))

  import-Keeps :
      (body : ImportRequest) (web_user : WebUser)
      → Keeps J (import ext body web_user request) Anything
  unfolding import
  import-Keeps body web_user = Keeps-chain J _ _ (Keeps-any J (into_user web_user)) (λ user.
      Keeps-chain J _ _ (begin-Keeps ext.lower) (λ started.
        Keeps-chain J _ _
          (read-Keeps ext.lower
            (get_setting (to_bool ext.to_lowercase) (codes "repositories.importing_enabled")))
          (λ enabled.
            Keeps-chain J _ _
              (refuse-Keeps (
                if not enabled || not ext.is_connected
                then die_message 501 (codes "Importing is disabled on this instance")
                else ok tt))
              (λ possible.
                Keeps-chain J _ _ (Keeps-any J (check_name ext body.name body.description))
                  (λ legal.
                    Keeps-chain J _ _
                      (Keeps-any J (
                        ok_or (status_message 400 (codes "Unable to parse import url"))
                          (ext.parse_url body.import_url)))
                      (λ url.
                        Keeps-chain J _ _
                          (refuse-Keeps (
                            if is_some body.mirror
                            then die_message 501 (codes "Mirroring is not yet implemented")
                            else ok tt))
                          (λ plain.
                            Keeps-chain J _ _
                              (claim-Keeps ext user.id body.name body.description body.visibility
                                none)
                              (λ repo. send_import-Keeps user body url repo))))))))

  -- Creating, forking or importing a repository, whoever asks and however the request ends, leaves
  -- tables free of duplicates: names of repositories are unique for each owner up to case, ids are
  -- unique, and so are usernames and emails.
  pub new_repository-IsConsistent :
      (body : CreateRequest) (import_body : ImportRequest) (username repository : Text)
      (web_user : WebUser) (c : Connection)
      → IsConsistent ext.lower c.committed
      → IsConsistent ext.lower c.current
      → IsConsistent ext.lower (create ext body web_user request c).1.committed
        × IsConsistent ext.lower
            (create_fork ext username repository web_user request c).1.committed
        × IsConsistent ext.lower (import ext import_body web_user request c).1.committed
  new_repository-IsConsistent body import_body username repository web_user c h k = (
    ((create-Keeps body web_user).kept c (h, k)).0,
    ((create_fork-Keeps username repository web_user).kept c (h, k)).0,
    ((import-Keeps import_body web_user).kept c (h, k)).0,
  )
