-- ===== src/Privilege/Laws.antt =====
-- Who passes the access checks, stated without the order of the tests.
use gitarena.Prelude.{
  ◌≡◌, ◌↔◌, ◌⊎◌, true, false, Option, none, some, find?, find?-Mem, find?-of_Mem, arith, inl, inr,
  Bool-cases, Option-cases, refl,
}
use mathlib.Core.List.{Memᴰ}
use gitarena.Database.{User, Privilege, RepoVisibility, public, internal, private, Repository, Db}
use gitarena.Privilege.{
  can_view, concerns, get_repo_privilege, check_visibility, check_access, check_push, check_admin,
  check_manage_issues,
}

-- A logged-in user who may do everything with the repository.
abbrev pub Owns : Repository → User → Type 0
Owns repo user = (user.id ≡ repo.owner) ⊎ (user.admin ≡ true)

-- Who may see a repository.
pub data Sees (repo : Repository) (db : Db) : Option User → Type 0 where
  administrator :
      (user : User) → repo.disabled ≡ true → user.admin ≡ true → Sees repo db (some user)
  anyone : (who : Option User) → repo.disabled ≡ false → repo.visibility ≡ public → Sees repo db who
  insider :
      (user : User) → repo.disabled ≡ false → repo.visibility ≡ internal → Sees repo db (some user)
  owner : (user : User) → repo.disabled ≡ false → Owns repo user → Sees repo db (some user)
  member :
      (user : User) (p : Privilege)
      → repo.disabled ≡ false
      → Memᴰ p db.privileges
      → p.user_id ≡ user.id
      → p.repo_id ≡ repo.id
      → Sees repo db (some user)

-- What the last case of `check_visibility` asks of a user.
private_cases :
    (repo : Repository) (db : Db) (user : User)
    → check_visibility private repo (some user) db ≡ true
    → Owns repo user
      ⊎ ((p : Privilege) × Memᴰ p db.privileges × (p.user_id ≡ user.id) × (p.repo_id ≡ repo.id))
unfolding get_repo_privilege
private_cases repo db user h = elim (Option-cases (find? (concerns repo user) db.privileges)) [
  | inl missing ↦ ground arith
  | inr (p, found) ↦
      let (m, q) = find?-Mem (concerns repo user) db.privileges p found in
      inr (p, m, ground arith, ground arith)
]

-- A row for the user and the repository lets the user in.
private_of_row :
    (repo : Repository) (db : Db) (user : User) (p : Privilege)
    → Memᴰ p db.privileges
    → p.user_id ≡ user.id
    → p.repo_id ≡ repo.id
    → check_visibility private repo (some user) db ≡ true
unfolding get_repo_privilege can_view
private_of_row repo db user p m u r =
    let (q, found) = find?-of_Mem (concerns repo user) db.privileges p m (ground arith) in
    ground (arith, found)

Sees-of_visibility :
    (repo : Repository) (db : Db) (v : RepoVisibility) (who : Option User)
    → repo.disabled ≡ false
    → repo.visibility ≡ v
    → check_visibility v repo who db ≡ true
    → Sees repo db who
Sees-of_visibility repo db private none d v h = cc
Sees-of_visibility repo db private (some user) d v h = elim (private_cases repo db user h) [
  | inl owns ↦ owner user d owns
  | inr (p, m, u, r) ↦ member user p d m u r
]
Sees-of_visibility repo db internal none d v h = cc
Sees-of_visibility repo db internal (some user) d v h = insider user d v
Sees-of_visibility repo db public who d v h = anyone who d v

Sees-of_check :
    (repo : Repository) (db : Db) (who : Option User)
    → check_access repo who db ≡ true
    → Sees repo db who
unfolding check_access
Sees-of_check repo db none h = elim (Bool-cases repo.disabled) [
  | inl d ↦ absurd (ground arith)
  | inr d ↦ Sees-of_visibility repo db repo.visibility none d refl (ground arith)
]
Sees-of_check repo db (some user) h = elim (Bool-cases repo.disabled) [
  | inl d ↦ administrator user d (ground arith)
  | inr d ↦ Sees-of_visibility repo db repo.visibility (some user) d refl (ground arith)
]

check_of_Sees :
    (repo : Repository) (db : Db) (who : Option User)
    → Sees repo db who
    → check_access repo who db ≡ true
unfolding check_access can_view
check_of_Sees repo db who (administrator user d a) = ground arith
check_of_Sees repo db who (anyone _ d v) = ground arith
check_of_Sees repo db who (insider user d v) = ground arith
check_of_Sees repo db who (owner user d o) = ground arith
check_of_Sees repo db who (member user p d m u r) =
    ground (arith, private_of_row repo db user p m u r)

-- `check_access` passes exactly those who may see the repository: of a disabled one the
-- administrators, of a public one everyone, of an internal one every user, and of any other the
-- owner, the administrators and the users with a privilege for it.
pub check_access_iff :
    (repo : Repository) (who : Option User) (db : Db)
    → (check_access repo who db ≡ true) ↔ Sees repo db who
check_access_iff repo who db = (Sees-of_check repo db who, check_of_Sees repo db who)

-- Whoever passes a check for a higher level passes the lower ones, and sees a repository that is
-- not disabled.
pub check_push-access :
    (repo : Repository) (who : Option User) (db : Db)
    → repo.disabled ≡ false
    → check_push repo who db ≡ true
    → check_access repo who db ≡ true
unfolding check_push check_access can_view
check_push-access repo who db d h = ground arith

-- Whoever may administer a repository may push into it and manage its issues.
pub check_admin-push :
    (repo : Repository) (who : Option User) (db : Db)
    → check_admin repo who db ≡ true
    → (check_push repo who db ≡ true) × (check_manage_issues repo who db ≡ true)
unfolding check_push check_admin check_manage_issues
check_admin-push repo who db h = ground arith
