-- ===== src/Packing/Commits.antt =====
-- What the recursion over a commit's parents inserts.
use mathlib.Core.List.{Memᴰ}
use gitarena.Prelude.{◌+◌, ◌<◌, ◌≡◌, ◌↔◌, ◌⊎◌, true, List, All}
use gitarena.Error.{ok}
use gitarena.Exec.{Exec}
use gitarena.GitIo.Progress
use gitarena.Packing.{Objects, Packer, Insert, insert_commit}

module _ {ObjectId Commit : Type 0} (objects : Objects ObjectId Commit) where
  -- The second commit is the first one, or an ancestor of it.
  pub data Reaches : Commit → Commit → Type 0 where
    here : {c : Commit} → Reaches c c
    above : {c p d : Commit} → Memᴰ p (objects.parents c) → Reaches p d → Reaches c d

  -- The builder reports nothing that the callback panics on, and takes every object.
  pub record Accepts : Type 0 where
    pub reported :
        (calls : List (Insert ObjectId)) (i : Insert ObjectId)
        → All (λ r. 0 < r.current + r.total) (objects.insert calls i).0
    pub taken :
        (calls : List (Insert ObjectId)) (i : Insert ObjectId) → (objects.insert calls i).1 ≡ true

  module _ (a : Accepts) (i : Insert ObjectId) where
    -- The call inserts a commit that one of these reaches.
    abbrev pub InHistory : List Commit → Type 0
    InHistory cs =
        (c : Commit) × Memᴰ c cs
        × (d : Commit) × Reaches c d
        × (i ≡ insert_commit (objects.commit_id d))

    -- The computation succeeds, and has made the call if it was made before, or inserts a commit
    -- that one of these reaches.
    abbrev Inserts : Exec (Packer ObjectId) Unit → Packer ObjectId → List Commit → Type 0
    Inserts m p cs =
        (q : Packer ObjectId) × (m p ≡ (ok tt, q))
        × (Memᴰ i q.inserted ↔ (Memᴰ i p.inserted ⊎ InHistory cs))
