-- ===== src/Star.antt =====
-- src/routes/repository/api/star.rs: the stars of a repository. A count (`i64`) is a natural number.
mod Laws
mod Tests
use gitarena.Prelude.{
  ℕ, Bool, true, false, Option, none, some, List, [], ◌∷◌, ◌++◌, Text, codes, ◌==◌, ◌&&◌, not, any,
  count, retain, is_some, if◌then◌else◌,
}
use gitarena.Prelude.Decimal.{decimal}
use gitarena.Error.{Result, ok, die_message}
use gitarena.Exec.{◌>>=◌, ◌>>◌, pure, lift}
use gitarena.Database.{User, Repository, Star, Db, Handler, query, execute, begin, commit}
use gitarena.Request.{Request, header}
use gitarena.Users.{WebUser, as_ref, into_user, found, require_access}

abbrev pub is_star : User → Repository → Star → Bool
is_star user repo s = s.stargazer == user.id && s.repo == repo.id

unfoldable pub get_star_count : Repository → Db → ℕ
get_star_count repo db = count (λ s. s.repo == repo.id) db.stars

unfoldable pub has_star : User → Repository → Db → Bool
has_star user repo db = any (is_star user repo) db.stars

unfoldable pub add_star : User → Repository → Db → Db
add_star user repo db = record db {
  stars = db.stars ++ record { stargazer = user.id; repo = repo.id } ∷ [];
}

unfoldable pub remove_star : User → Repository → Db → Db
remove_star user repo db = record db { stars = retain (λ s. not (is_star user repo s)) db.stars }

-- The answers: a count as text, the fields of a JSON object, an empty body with its status, and the
-- count with what was done.
pub data Answer : Type 0 where
  body : Text → Answer
  json : (owner repo : Text) → (stars : ℕ) → (self : Bool) → Answer
  finish : (status : ℕ) → Answer
  acted : (action : Text) → Text → Answer

abbrev stargazes : Option User → Repository → Db → Bool
stargazes none repo db = false
stargazes (some user) repo db = has_star user repo db

module _ (lower : Text → Text) where
  unfoldable pub get_star : Text → Text → WebUser → Request → Handler Answer
  get_star username repository web_user request = do
    begin
    (owner, repo) ← found lower username repository
    require_access lower (codes "Repository not found") repo (as_ref web_user)
    n ← query (get_star_count repo)
    self ← query (stargazes (as_ref web_user) repo)
    commit
    pure (
        if is_some (header (codes "hx-request") request)
        then body (decimal n)
        else json owner.username repo.name n self)

  unfoldable pub post_star : Text → Text → WebUser → Handler Answer
  post_star username repository web_user = do
    user ← lift (into_user web_user)
    begin
    (owner, repo) ← found lower username repository
    require_access lower (codes "Not found") repo (some user)
    starred ← query (has_star user repo)
    lift (if starred then die_message 409 (codes "Already starred") else ok tt)
    execute (add_star user repo)
    commit
    pure (finish 201)

  unfoldable pub delete_star : Text → Text → WebUser → Handler Answer
  delete_star username repository web_user = do
    user ← lift (into_user web_user)
    begin
    (owner, repo) ← found lower username repository
    require_access lower (codes "Not found") repo (some user)
    starred ← query (has_star user repo)
    lift (if not starred then die_message 409 (codes "Not starred") else ok tt)
    execute (remove_star user repo)
    commit
    pure (finish 204)

  abbrev pub toggle : User → Repository → Bool → Handler Text
  toggle user repo true = execute (remove_star user repo) >> pure (codes "remove")
  toggle user repo false = execute (add_star user repo) >> pure (codes "add")

  unfoldable pub put_star : Text → Text → WebUser → Handler Answer
  put_star username repository web_user = do
    user ← lift (into_user web_user)
    begin
    (owner, repo) ← found lower username repository
    require_access lower (codes "Not found") repo (some user)
    starred ← query (has_star user repo)
    action ← toggle user repo starred
    n ← query (get_star_count repo)
    commit
    pure (acted action (decimal n))
