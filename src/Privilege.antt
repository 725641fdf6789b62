-- ===== src/Privilege.antt =====
-- src/privileges: what a user may do with a repository.
pub mod Laws
mod Tests
use gitarena.Prelude.{
  ℕ, ◌==◌, Bool, true, false, not, ◌&&◌, Option, none, some, find?, if◌then◌else◌,
}
use gitarena.Database.{
  User, AccessLevel, viewer, supporter, coder, manager, admin, Privilege, RepoVisibility, public,
  internal, private, Repository, Db,
}

-- src/privileges/repo_access.rs
unfoldable pub can_view : AccessLevel → Bool
can_view level = true

unfoldable pub can_manage_issues : AccessLevel → Bool
can_manage_issues viewer = false
can_manage_issues coder = false
can_manage_issues supporter = true
can_manage_issues manager = true
can_manage_issues admin = true

unfoldable pub can_push : AccessLevel → Bool
can_push viewer = false
can_push supporter = false
can_push coder = true
can_push manager = true
can_push admin = true

unfoldable pub can_admin : AccessLevel → Bool
can_admin admin = true
can_admin _ = false

-- src/privileges/privilege.rs
abbrev pub concerns : Repository → User → Privilege → Bool
concerns repo user p = p.user_id == user.id && p.repo_id == repo.id

unfoldable pub get_repo_privilege : Repository → User → Db → Option Privilege
get_repo_privilege repo user db = find? (concerns repo user) db.privileges

abbrev pub holds : (AccessLevel → Bool) → Option Privilege → Bool
holds target none = false
holds target (some p) = target p.access_level

-- The macro `generate_check`.
abbrev pub generate_check : (AccessLevel → Bool) → Repository → Option User → Db → Bool
generate_check target repo none db = false
generate_check target repo (some user) db =
    if not (user.id == repo.owner) && not user.admin
    then holds target (get_repo_privilege repo user db)
    else true

abbrev pub is_admin : Option User → Bool
is_admin none = false
is_admin (some user) = user.admin

abbrev pub check_visibility : RepoVisibility → Repository → Option User → Db → Bool
check_visibility private repo none db = false
check_visibility private repo (some user) db =
    if not (user.id == repo.owner) && not user.admin
    then holds can_view (get_repo_privilege repo user db)
    else true
check_visibility internal repo none db = false
check_visibility internal repo (some user) db = true
check_visibility public repo user db = true

unfoldable pub check_access : Repository → Option User → Db → Bool
check_access repo user db =
    if repo.disabled then is_admin user else check_visibility repo.visibility repo user db

unfoldable pub check_manage_issues : Repository → Option User → Db → Bool
unfolding can_manage_issues
check_manage_issues repo user db = generate_check can_manage_issues repo user db

unfoldable pub check_push : Repository → Option User → Db → Bool
unfolding can_push
check_push repo user db = generate_check can_push repo user db

unfoldable pub check_admin : Repository → Option User → Db → Bool
unfolding can_admin
check_admin repo user db = generate_check can_admin repo user db
