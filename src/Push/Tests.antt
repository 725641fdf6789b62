-- ===== src/Push/Tests.antt =====
-- Tests of the commands of a push, on a repository whose references are numbers.
use gitarena.Prelude.{ℕ, ◌≡◌, some, none, codes, refl, text_eq}
use gitarena.Error.{ok}
use gitarena.Database.{private}
use gitarena.World.{World, get_fs_path}
use gitarena.Oid.{from_hex_str}
use gitarena.RefUpdate.{RefUpdate, with_refs}
use gitarena.Push.{process_create_update, process_delete, update_reference, write_objects}
use gitarena.Push.Update.{IsMoved, process_create_update-IsMoved}
use gitarena.Push.Delete.{IsDeleted, process_delete-IsDeleted}
use gitarena.Samples.{sample_git, sample_externals, world_with, repo_of}

-- The reference is object 2 before; an object id stands for its number of digits.
abbrev before : World sample_git
before = world_with (λ name. some 2)

abbrev move_command : RefUpdate
move_command = with_refs (some (codes "1f")) (some (codes "abc")) (codes "refs/heads/main")

abbrev moved : World sample_git
moved =
    (process_create_update sample_externals move_command (repo_of private)
      (codes "/srv/alice/tools") (some tt) (codes "PACK") before).1

process_create_update-IsMoved_example :
    (new_oid : ℕ) × (from_hex_str sample_git.from_hex sample_git.null_id (some (codes "abc"))
      ≡ ok new_oid)
    × IsMoved sample_externals move_command (repo_of private) new_oid before moved
unfolding process_create_update update_reference write_objects get_fs_path from_hex_str text_eq
process_create_update-IsMoved_example =
    process_create_update-IsMoved sample_externals move_command (repo_of private)
      (codes "/srv/alice/tools") (some tt) (codes "PACK") before moved refl

abbrev delete_command : RefUpdate
delete_command = with_refs (some (codes "1f")) none (codes "refs/heads/main")

abbrev removed : World sample_git
removed = (process_delete sample_externals delete_command (repo_of private) before).1

process_delete-IsDeleted_example :
    IsDeleted sample_externals delete_command (repo_of private) before removed
unfolding process_delete get_fs_path from_hex_str text_eq
process_delete-IsDeleted_example =
    process_delete-IsDeleted sample_externals delete_command (repo_of private) before removed refl
