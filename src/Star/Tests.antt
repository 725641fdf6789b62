-- ===== src/Star/Tests.antt =====
-- Tests of the stars.
use gitarena.Prelude.{◌≡◌, codes, refl, text_eq}
use gitarena.Error.{ok}
use gitarena.Database.{Db, private, serve}
use gitarena.Privilege.{check_access, can_view, get_repo_privilege}
use gitarena.Users.{authenticated, find_using_name, open_repository}
use gitarena.Star.{has_star, post_star, delete_star, finish}
use gitarena.Star.Laws.{Finds, delete-post_star}
use gitarena.Samples.{sample_db, alice, bob, repo_of}

-- Bob finds the private repository of Alice.
bob-Finds : Finds (λ t. t) (codes "alice") (codes "tools") sample_db bob alice (repo_of private)
unfolding find_using_name open_repository check_access can_view get_repo_privilege text_eq
bob-Finds = record { owner_found = refl; repo_found = refl; visible = refl }

delete-post_star_example :
    (after : Db) × (serve
        (post_star (λ t. t) (codes "alice") (codes "tools") (authenticated bob))
        sample_db
      ≡ (ok (finish 201), after))
    × (serve (delete_star (λ t. t) (codes "alice") (codes "tools") (authenticated bob)) after
        ≡ (ok (finish 204), sample_db))
unfolding has_star
delete-post_star_example =
    delete-post_star (λ t. t) (codes "alice") (codes "tools") sample_db bob alice (repo_of private)
      bob-Finds refl
