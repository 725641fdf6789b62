-- ===== src/Star/Laws.antt =====
-- What the four routes do to the stars.
use gitarena.Prelude.{
  ◌≡◌, ◌∙◌, ◌++◌, ◌∷◌, [], List, Bool, true, false, not, refl, ap, arith, some, Text, any, retain,
}
use gitarena.Error.{ok}
use gitarena.Database.{User, Repository, Db, serve, RepoVisibility, public, internal, private}
use gitarena.Privilege.{check_access, check_visibility, get_repo_privilege}
use gitarena.Users.{find_using_name, open_repository, into_user, authenticated}
use gitarena.Star.{delete_star, post_star, is_star, remove_star, add_star, has_star, finish}

module _ {ℓ} {A : Type ℓ} (p : A → Bool) where
  any-last : (x : A) → p x ≡ true → (xs : List A) → any p (xs ++ x ∷ []) ≡ true
  any-last x h [] = ground arith
  any-last x h (y ∷ xs) = ground (arith, any-last x h xs)

  retain-last :
      (x : A)
      → p x ≡ true
      → (xs : List A) → any p xs ≡ false
      → retain (λ y. not (p y)) (xs ++ x ∷ []) ≡ xs
  retain-last x h [] e = ground arith
  retain-last x h (y ∷ xs) e =
      let rest = retain-last x h xs (ground arith) in
      let not_y : p y ≡ false = ground arith in rw (not_y, rest) refl

is_star_new :
    (user : User) (repo : Repository)
    → is_star user repo (record { stargazer = user.id; repo = repo.id }) ≡ true
is_star_new user repo = ground arith

added :
    (user : User) (repo : Repository) (d : Db) → has_star user repo (add_star user repo d) ≡ true
unfolding has_star add_star
added user repo d = any-last (is_star user repo) _ (is_star_new user repo) d.stars

undone :
    (user : User) (repo : Repository) (d : Db)
    → has_star user repo d ≡ false
    → remove_star user repo (add_star user repo d) ≡ d
unfolding has_star remove_star add_star
undone user repo d h =
    ap (λ stars. record d { stars = stars })
      (retain-last (is_star user repo) _ (is_star_new user repo) d.stars h)

-- A user may find the repository under the names of the request, and see it.
pub record Finds (lower : Text → Text) (username repository : Text) (db : Db) (user : User)
    (owner : User) (repo : Repository) : Type 0 where
  pub owner_found : find_using_name lower username db ≡ some owner
  pub repo_found : open_repository lower owner.id repository db ≡ some repo
  pub visible : check_access repo (some user) db ≡ true

same_visibility :
    (v : RepoVisibility) (user viewer : User) (repo : Repository) (db : Db)
    → check_visibility v repo (some viewer) (add_star user repo db)
      ≡ check_visibility v repo (some viewer) db
unfolding get_repo_privilege add_star
same_visibility public user viewer repo db = refl
same_visibility internal user viewer repo db = refl
same_visibility private user viewer repo db = refl

same_access :
    (user viewer : User) (repo : Repository) (db : Db)
    → check_access repo (some viewer) (add_star user repo db) ≡ check_access repo (some viewer) db
unfolding check_access
same_access user viewer repo db = rw (same_visibility repo.visibility user viewer repo db) refl

-- The stars say nothing about what can be found or seen.
still-Finds :
    (lower : Text → Text) (username repository : Text) (db : Db) (user owner : User)
    (repo : Repository)
    → Finds lower username repository db user owner repo
    → Finds lower username repository (add_star user repo db) user owner repo
unfolding find_using_name open_repository add_star
still-Finds lower username repository db user owner repo f = record {
  owner_found = f.owner_found;
  repo_found = f.repo_found;
  visible = same_access user user repo db ∙ f.visible;
}

deleted :
    (lower : Text → Text) (username repository : Text) (db : Db) (user owner : User)
    (repo : Repository)
    → Finds lower username repository db user owner repo
    → has_star user repo db ≡ true
    → serve (delete_star lower username repository (authenticated user)) db
      ≡ (ok (finish 204), remove_star user repo db)
unfolding delete_star into_user
deleted lower username repository db user owner repo f starred =
    rw (f.owner_found, f.repo_found, f.visible, starred) refl

module _ (lower : Text → Text) (username repository : Text) (db : Db) (user owner : User)
    (repo : Repository) where
  -- Whatever `POST` adds, a following `DELETE` of the same user takes away, and nothing else.
  pub delete-post_star :
      Finds lower username repository db user owner repo
      → has_star user repo db ≡ false
      → (after : Db) × (serve (post_star lower username repository (authenticated user)) db
          ≡ (ok (finish 201), after))
        × (serve (delete_star lower username repository (authenticated user)) after
            ≡ (ok (finish 204), db))
  unfolding post_star into_user
  delete-post_star f fresh = (
    add_star user repo db,
    rw (f.owner_found, f.repo_found, f.visible, fresh) refl,
    deleted lower username repository (add_star user repo db) user owner repo
          (still-Finds lower username repository db user owner repo f) (added user repo db)
        ∙ ap (λ d. (ok (finish 204), d)) (undone user repo db fresh),
  )
