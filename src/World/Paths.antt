-- ===== src/World/Paths.antt =====
-- `Repository::get_fs_path` of src/repository.rs.
use gitarena.Prelude.{◌==◌, Option, none, some, ◌++◌, Text, codes, text_eq, find?}
use gitarena.Error.{Result, ok, err, other}
use gitarena.Database.{Db, User, Repository, Setting}

abbrev value_of : Option Setting → Option Text
value_of none = none
value_of (some s) = s.value

abbrev join_path : Text → Option Text → Option User → Result Text
join_path name (some base_dir) (some user) =
    ok (base_dir ++ (codes "/" ++ (user.username ++ (codes "/" ++ name))))
join_path name _ _ = err other

-- The query joins the base directory and the owner's name; a missing row or value is an error.
unfoldable pub get_fs_path : Repository → Db → Result Text
get_fs_path repo db =
    join_path repo.name
      (value_of (find? (λ s. text_eq s.key (codes "repositories.base_dir")) db.settings))
      (find? (λ u. u.id == repo.owner) db.users)
