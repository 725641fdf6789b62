-- ===== src/NewRepository/Steps.antt =====
-- The parts of the handlers that make a repository, and the tables they leave.
use gitarena.Prelude.{
  ℕ, ◌≡◌, ◌∙◌, refl, Bool, true, false, Option, ◌++◌, Text, codes, All-append, arith, if◌then◌else◌,
}
use gitarena.Error.{Result, ok, die_message, ok_or, status_message}
use gitarena.Exec.{◌>>=◌, ◌>>◌, pure}
use gitarena.Exec.Keeps.{Keeps, Anything, Keeps-any, Keeps-pure, Keeps-chain, Keeps-still}
use gitarena.Exec.Runs.{
  Runs, Runs-gets, Runs-modify, Runs-pure, Runs-bind, Runs-skip, Runs-given, Keeps-of_Runs,
}
use gitarena.Database.{
  User, Repository, RepoVisibility, Db, Connection, query, execute, commit, read,
}
use gitarena.Database.Consistent.{Unique-snoc, below_next, no_id, IsConsistent, AreConsistent}
use gitarena.Database.Steps.{read-Keeps, commit-Keeps}
use gitarena.Config.{get_setting, get_optional_setting, to_string}
use gitarena.Mail.{find_commit_email, query_pool}
use gitarena.World.{get_fs_path}
use gitarena.NewRepository.{
  Services, Answer, new_repository, add_repository, insert_repository, is_name_used, claim,
  create_fs, write_file, create_readme,
}

module _ (ext : Services) where
  abbrev J : Connection → Type 0
  J = AreConsistent ext.lower

  add_repository-IsConsistent :
      (owner : ℕ) (name description : Text) (visibility : RepoVisibility) (forked_from : Option ℕ)
      (db : Db)
      → is_name_used ext owner name db ≡ false
      → IsConsistent ext.lower db
      → IsConsistent ext.lower
          (add_repository (new_repository owner name description visibility forked_from db) db)
  unfolding add_repository is_name_used
  add_repository-IsConsistent owner name description visibility forked_from db free c = record {
    usernames = c.usernames;
    emails = c.emails;
    repositories = Unique-snoc _ db.repositories _ c.repositories free;
    user_ids = c.user_ids;
    repository_ids =
        Unique-snoc _ db.repositories _ c.repository_ids
          (no_id (λ r. r.id) db.repositories db.next_id c.repositories_below);
    users_below = below_next (λ u. u.id) db.users db.next_id c.users_below;
    repositories_below =
        All-append _ db.repositories _
          (below_next (λ r. r.id) db.repositories db.next_id c.repositories_below)
          (omega arith, tt);
  }

  unless :
      (b : Bool) (message : Text) (u : Unit {0})
      → (if b then die_message 409 message else ok tt) ≡ ok u
      → b ≡ false
  unless true message u e = absurd (cc)
  unless false message u e = refl

  module _ (owner : ℕ) (name description : Text) (visibility : RepoVisibility)
      (forked_from : Option ℕ) where
    abbrev Free : Connection → Type 0
    Free c = J c × (is_name_used ext owner name c.current ≡ false)

    abbrev row : Db → Repository
    row = new_repository owner name description visibility forked_from

    insert-Runs : Runs J Free (insert_repository row) (λ repo. J)
    insert-Runs =
        Runs-skip J Free _ (λ c p. p.0) (query row) _ (λ c. refl)
          (λ repo.
            Runs-bind J Free (λ u. J) (λ repo. J) _ (λ done. Runs-pure J J (λ c p. p) repo)
              (execute (λ db. add_repository (row db) db))
              (Runs-modify J Free J _
                (λ c p. (
                  p.0.0,
                  add_repository-IsConsistent owner name description visibility forked_from
                      c.current p.1 p.0.1,
                ))
                (λ c p. (
                  p.0.0,
                  add_repository-IsConsistent owner name description visibility forked_from
                      c.current p.1 p.0.1,
                ))))

    pub claim-Keeps : Keeps J (claim ext owner name description visibility forked_from) Anything
    unfolding claim
    claim-Keeps = Keeps-of_Runs J _ (
        Runs-bind J J (λ exists c. J c × (is_name_used ext owner name c.current ≡ exists))
          (λ repo. J) _
          (λ exists.
            Runs-given J _ Free (λ repo. J) (λ c p. p.0)
              (if exists
                then die_message 409 (codes "Repository name already in use for your account")
                else ok tt)
              _
              (λ c u p e. (
                p.0,
                p.1 ∙ unless exists (codes "Repository name already in use for your account") u e,
              ))
              (λ free. insert-Runs))
          (query (is_name_used ext owner name)) (Runs-gets J J (λ c p. p) _))

  pub create_fs-Keeps : (repo : Repository) → Keeps J (create_fs ext repo) Anything
  unfolding create_fs
  create_fs-Keeps repo =
      Keeps-chain J _ _ (read-Keeps ext.lower (get_fs_path repo))
        (λ path. Keeps-any J (ext.init path repo.default_branch))

  pool-Keeps : {A : Type 0} (f : Db → Result A) → Keeps J (query_pool f) Anything
  pool-Keeps f = Keeps-still J (query_pool f) (λ c. refl)

  write_file-Keeps :
      (path : Text) (user : User) (file content : Text)
      → Keeps J (write_file ext path user file content) Anything
  unfolding write_file
  write_file-Keeps path user file content =
      Keeps-chain J _ _
        (pool-Keeps (λ db.
          ok_or (status_message 400 (codes "User has no commit email"))
            (find_commit_email user.id db)))
        (λ author_email.
          Keeps-chain J _ _ (pool-Keeps (get_setting to_string (codes "smtp.address")))
            (λ root_email.
              Keeps-any J
                (ext.write path user.username author_email.email root_email file content)))

  create_readme-Keeps :
      (repo : Repository) (user : User) → Keeps J (create_readme ext repo user) Anything
  unfolding create_readme
  create_readme-Keeps repo user = Keeps-chain J _ _ (pool-Keeps (get_fs_path repo)) (λ path.
      Keeps-chain J _ _ (Keeps-any J (ext.open_repo path)) (λ opened.
        write_file-Keeps path user (codes "README.md")
          (codes "# " ++ (repo.name ++ (codes "\n\n" ++ (repo.description ++ codes "\n"))))))

  pub if_readme-Keeps :
      (readme : Bool) (repo : Repository) (user : User)
      → Keeps J (if readme then create_readme ext repo user else pure tt) Anything
  if_readme-Keeps true repo user = create_readme-Keeps repo user
  if_readme-Keeps false repo user = Keeps-pure J tt Anything tt

  pub domain-Keeps :
      (respond : Option Text → Answer)
      → Keeps J
          (read (get_optional_setting to_string (codes "domain")) >>= λ domain.
            commit >> pure (respond domain))
          Anything
  domain-Keeps respond =
      Keeps-chain J _ _ (read-Keeps ext.lower (get_optional_setting to_string (codes "domain")))
        (λ domain.
          Keeps-chain J _ _ (commit-Keeps ext.lower)
            (λ done. Keeps-pure J (respond domain) Anything tt))
