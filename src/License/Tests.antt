-- ===== src/License/Tests.antt =====
-- Tests of the license search.
use gitarena.Prelude.{
  ℕ, ◌≡◌, ◌++◌, ◌∷◌, [], true, Option, some, none, Text, codes, refl, inl, text_eq,
}
use gitarena.Error.{ok}
use gitarena.Database.{private}
use gitarena.Git.{Git, Entry, blob}
use gitarena.License.{detect_in, detect_license_from_file, run_hooks, is_license_file}
use gitarena.License.Detection.{detect_in-first, run_hooks-license}
use gitarena.World.{World, get_fs_path}
use gitarena.GitIo.Writer.{new}
use gitarena.Samples.{sample_db, sample_git, repo_of}

-- Every blob is the text of one license.
abbrev licensed_git : Git
licensed_git = record sample_git {
  read_blob = λ refs oid. some (codes "MIT License");
  analyze = λ t. (true, codes "MIT");
}

abbrev readme : Entry ℕ
readme = record { mode = blob; filename = codes "readme"; oid = 4 }

abbrev license_file : Entry ℕ
license_file = record { mode = blob; filename = codes "license"; oid = 5 }

detect_in-first_example :
    detect_in licensed_git
      (λ t. t)
      (λ name. none)
      (repo_of private)
      ((readme ∷ []) ++ license_file ∷ [])
    ≡ ok (detect_license_from_file licensed_git (λ t. t) (repo_of private) (codes "MIT License"))
unfolding is_license_file text_eq
detect_in-first_example =
    detect_in-first licensed_git (λ t. t) (λ name. none) (repo_of private) (readme ∷ [])
      license_file [] (codes "MIT License") (inl refl, tt) (refl, refl) refl

abbrev opened : World licensed_git
opened = record {
  connection = record { committed = sample_db; current = sample_db };
  disk = λ path. some (λ name. none);
  writer = new;
}

run_hooks-license_example :
    (license : Option Text) × (run_hooks licensed_git (λ t. t) (repo_of private) opened
      ≡ (ok (record (repo_of private) { license = license }), opened))
unfolding get_fs_path text_eq
run_hooks-license_example =
    run_hooks-license licensed_git (λ t. t) (repo_of private) opened (codes "/srv/alice/tools")
      (λ name. none) refl refl
