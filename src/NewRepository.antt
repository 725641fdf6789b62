-- ===== src/NewRepository.antt =====
-- src/routes/repository/api/create_repo.rs and import_repo.rs, `create_fs` of
-- src/repository.rs and src/git/write.rs: how repositories come to be.
pub mod Fork
pub mod Steps
pub mod Invariant
mod Tests
use gitarena.Prelude.{
  ℕ, ◌+◌, ◌==◌, ◌&&◌, ◌||◌, Bool, true, false, not, Option, none, some, List, [], ◌∷◌, ◌++◌, Text,
  codes, text_eq, ltb, any, all, count, length, to_bytes, is_empty, is_some, unwrap_or,
  if◌then◌else◌,
}
use gitarena.Prelude.Decimal.{decimal}
use gitarena.Error.{Result, ok, err, other, die_message, ok_or, status_message}
use gitarena.Exec.{◌>>=◌, ◌>>◌, pure, lift}
use gitarena.Database.{
  User, Repository, RepoVisibility, public, internal, private, Db, Handler, query, execute, begin,
  commit, read, refuse_if,
}
use gitarena.Request.{Request, header}
use gitarena.Config.{get_setting, get_optional_setting, to_string, to_bool}
use gitarena.Identifiers.{is_valid, is_reserved_repo_name, is_fs_legal}
use gitarena.Mail.{find_commit_email, query_pool}
use gitarena.Users.{WebUser, as_ref, into_user, found, require_access}
use gitarena.World.{get_fs_path}

-- The calls of `git2`, of the file system, of the crate `url` and of the connection to the workhorse,
-- with what they return; what they leave on disk is not modelled. `write` commits a file of a name
-- and a content, with the names and emails of its author and its committer. `url` has the parsed
-- address.
pub record Services : Type 0 where
  pub lower : Text → Text
  pub to_lowercase : Text → Text
  pub init : (path head : Text) → Result (Unit {0})
  pub open_repo : (path : Text) → Result (Unit {0})
  pub write : (path author author_email root_email file content : Text) → Result (Unit {0})
  pub copy_dir_all : (old new : Text) → Result (Unit {0})
  pub parse_url : Text → Option Text
  pub is_connected : Bool
  pub send : (url : Text) → (username password : Option Text) → Result (Unit {0})

-- `CreateJsonRequest`
pub record CreateRequest : Type 0 where
  pub name : Text
  pub description : Text
  pub visibility : RepoVisibility
  pub readme : Option Text

-- `ImportJsonRequest`
pub record ImportRequest : Type 0 where
  pub name : Text
  pub description : Text
  pub import_url : Text
  pub mirror : Option Text
  pub visibility : RepoVisibility
  pub username : Option Text
  pub password : Option Text

-- A redirection, the JSON object of a new repository, or the number of forks as text or as JSON.
pub data Answer : Type 0 where
  hx_redirect : (path : Text) → Answer
  created : (id : ℕ) → (url : Text) → Answer
  amount : Text → Answer
  forks : (repo : Text) → ℕ → Answer

-- The row that an insertion adds, with the defaults of the columns.
abbrev pub new_repository : ℕ → Text → Text → RepoVisibility → Option ℕ → Db → Repository
new_repository owner name description visibility forked_from db = record {
  id = db.next_id;
  owner = owner;
  name = name;
  description = description;
  visibility = visibility;
  default_branch = codes "main";
  license = none;
  forked_from = forked_from;
  mirrored_from = none;
  archived = false;
  disabled = false;
}

unfoldable pub add_repository : Repository → Db → Db
add_repository repo db = record db {
  repositories = db.repositories ++ repo ∷ [];
  next_id = db.next_id + 1;
}

-- `insert into repositories ... returning *`
abbrev pub insert_repository : (Db → Repository) → Handler Repository
insert_repository row = do repo ← query row; execute (λ db. add_repository (row db) db); pure repo

module _ (ext : Services) where
  -- `select exists(... where owner = $1 and lower(name) = lower($2) limit 1)`
  unfoldable pub is_name_used : ℕ → Text → Db → Bool
  is_name_used owner name db =
      any (λ r. r.owner == owner && text_eq (ext.lower r.name) (ext.lower name)) db.repositories

  -- The test for the name, and the insertion.
  unfoldable pub claim : ℕ → Text → Text → RepoVisibility → Option ℕ → Handler Repository
  claim owner name description visibility forked_from = do
    exists ← query (is_name_used owner name)
    refuse_if exists 409 (codes "Repository name already in use for your account")
    insert_repository (new_repository owner name description visibility forked_from)

  -- The checks of a name and a description.
  unfoldable pub check_name : Text → Text → Result (Unit {0})
  check_name name description =
      if is_empty name || ltb 32 (length (to_bytes name)) || not (all is_valid name)
      then die_message 400 (
          codes
            "Repository name must be between 1 and 32 characters long and may only contain a-z, 0-9, _ or -")
      else if is_reserved_repo_name ext.to_lowercase name
      then die_message 400 (codes "Repository name is a reserved identifier")
      else if not (is_fs_legal name)
      then die_message 400 (codes "Repository name is illegal")
      else if ltb 256 (length (to_bytes description))
      then die_message 400 (codes "Description may only be up to 256 characters long")
      else ok tt

  -- `Repository::create_fs`
  unfoldable pub create_fs : Repository → Handler Unit
  create_fs repo = do path ← read (get_fs_path repo); lift (ext.init path repo.default_branch)

  -- `write::write_file`
  unfoldable pub write_file : Text → User → (file content : Text) → Handler Unit
  write_file path user file content = do
    author_email ← query_pool (λ db.
        ok_or (status_message 400 (codes "User has no commit email"))
          (find_commit_email user.id db))
    root_email ← query_pool (get_setting to_string (codes "smtp.address"))
    lift (ext.write path user.username author_email.email root_email file content)

  -- `create_readme`, on other connections of the pool.
  unfoldable pub create_readme : Repository → User → Handler Unit
  unfolding write_file
  create_readme repo user = do
    path ← query_pool (get_fs_path repo)
    lift (ext.open_repo path)
    write_file path user (codes "README.md")
        (codes "# " ++ (repo.name ++ (codes "\n\n" ++ (repo.description ++ codes "\n"))))

  -- The response to a new repository, where the domain is that of the settings.
  abbrev pub answer : Request → Text → Text → Repository → Answer
  answer request domain path repo =
      if is_some (header (codes "hx-request") request)
      then hx_redirect path
      else created repo.id (domain ++ path)

  abbrev pub path_of : User → Repository → Text
  path_of user repo = codes "/" ++ (user.username ++ (codes "/" ++ repo.name))

  abbrev pub finish : Request → User → Repository → Handler Answer
  finish request user repo = do
    domain ← read (get_optional_setting to_string (codes "domain"))
    commit
    pure (answer request (unwrap_or [] domain) (path_of user repo) repo)

  abbrev pub set_up : Request → User → Option Text → Repository → Handler Answer
  set_up request user readme repo = do
    create_fs repo
    (if is_some readme then create_readme repo user else pure tt)
    finish request user repo

  -- The handler of create_repo.rs.
  unfoldable pub create : CreateRequest → WebUser → Request → Handler Answer
  create body web_user request = do
    begin
    user ← lift (into_user web_user)
    lift (check_name body.name body.description)
    repo ← claim user.id body.name body.description body.visibility none
    set_up request user body.readme repo

  abbrev pub is_enabled : Bool → Handler Unit
  is_enabled enabled =
      refuse_if (not enabled || not ext.is_connected) 501
        (codes "Importing is disabled on this instance")

  abbrev pub send_import : Request → User → ImportRequest → Text → Repository → Handler Answer
  send_import request user body url repo = do
    create_fs repo
    lift (ext.send url body.username body.password)
    finish request user repo

  -- The handler of import_repo.rs.
  unfoldable pub import : ImportRequest → WebUser → Request → Handler Answer
  import body web_user request = do
    user ← lift (into_user web_user)
    begin
    enabled ← read (get_setting (to_bool ext.to_lowercase) (codes "repositories.importing_enabled"))
    is_enabled enabled
    lift (check_name body.name body.description)
    url ← lift (
        ok_or (status_message 400 (codes "Unable to parse import url"))
          (ext.parse_url body.import_url))
    refuse_if (is_some body.mirror) 501 (codes "Mirroring is not yet implemented")
    repo ← claim user.id body.name body.description body.visibility none
    send_import request user body url repo
