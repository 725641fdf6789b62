-- ===== src/ReceivePack/Tests.antt =====
-- Tests of a push.
use gitarena.Prelude.{none, ◌∷◌, ◌⊎◌, [], some, codes, refl, starts_with, ◌≢◌}
use gitarena.Database.{User, Repository, private}
use gitarena.Request.{Request, Response}
use gitarena.World.{World}
use gitarena.RefUpdate.{RefUpdate, with_refs, is_only_deletions, determinate}
use gitarena.Error.{ok}
use gitarena.ReceivePack.{perform, git_receive_pack, content_type, result_type}
use gitarena.ReceivePack.Authorization.{MayPush}
use gitarena.ReceivePack.Effects.{perform-refused, IsUnchanged, git_receive_pack-MayPush}
use gitarena.Samples.{sample_git, sample_externals, sample_db, bob_header, world_with, repo_of}

abbrev push_of_bob : Request
push_of_bob = record {
  headers =
      (codes "content-type", some content_type)
      ∷ (codes "accept", some result_type)
      ∷ (codes "authorization", some bob_header)
      ∷ [];
}

abbrev before : World sample_git
before = world_with (λ name. some 2)

git_receive_pack-MayPush_example :
    IsUnchanged sample_externals before
      (git_receive_pack sample_externals push_of_bob (codes "alice") (codes "tools") [] before).1
    ⊎ ((user : User) × (repo : Repository) × MayPush sample_externals push_of_bob
          (codes "alice")
          (codes "tools")
          sample_db
          user
          repo)
git_receive_pack-MayPush_example =
    git_receive_pack-MayPush sample_externals push_of_bob (codes "alice") (codes "tools") [] before

abbrev create_command : RefUpdate
create_command = with_refs none (some (codes "abc")) (codes "refs/heads/main")

abbrev any_answer : Response
any_answer = record { status = 200; headers = []; body = [] }

perform-refused_example :
    IsUnchanged sample_externals before
      (perform sample_externals (repo_of private) (create_command ∷ []) (codes "none") [] before).1
    × ((perform sample_externals (repo_of private) (create_command ∷ []) (codes "none") [] before).0
        ≢ ok any_answer)
unfolding is_only_deletions determinate starts_with
perform-refused_example =
    perform-refused sample_externals (repo_of private) (create_command ∷ []) (codes "none") []
      before any_answer refl refl
