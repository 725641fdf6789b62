-- ===== src/Privilege/Tests.antt =====
-- Tests of the checks.
use gitarena.Prelude.{◌≡◌, ◌↔◌, true, some}
use gitarena.Database.{private}
use gitarena.Privilege.{check_access}
use gitarena.Privilege.Laws.{Sees, check_access_iff}
use gitarena.Samples.{repo_of, bob, sample_db}

check_access_iff_example :
    (check_access (repo_of private) (some bob) sample_db ≡ true)
    ↔ Sees (repo_of private) sample_db (some bob)
check_access_iff_example = check_access_iff (repo_of private) (some bob) sample_db
