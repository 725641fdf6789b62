-- ===== src/Samples/History.antt =====
-- Objects for the tests: a commit is a number, whose parent is the number before it, and its object
-- id is the same number. Every call on the builder is reported once, and a pack is the number of
-- its objects.
use mathlib.Core.List.{Memᴰ}
use gitarena.Prelude.{ℕ, zero, suc, ◌+◌, ◌<◌, true, some, List, [], ◌∷◌, length, arith, Mem-single}
use gitarena.GitIo.Progress.{adding_objects}
use gitarena.Packing.{Objects, commit_type}

abbrev parents : ℕ → List ℕ
parents zero = []
parents (suc n) = n ∷ []

pub parents-before : (c p : ℕ) → Memᴰ p (parents c) → p < c
parents-before zero p m = elim m [ ]
parents-before (suc n) p m = let e = Mem-single p n m in omega (arith, e)

abbrev pub sample_objects : Objects ℕ ℕ
sample_objects = record {
  from_str = λ t. some (length t);
  find_object = λ id. some (record { id = id; kind = some commit_type; as_commit = some id });
  commit_id = λ c. c;
  parents = parents;
  generation = λ c. c;
  can_build = true;
  stack = 100;
  insert = λ calls i.
      (record { stage = adding_objects; current = 1; total = length calls + 1 } ∷ [], true);
  write_buf = λ calls. ([], some (length calls ∷ []));
  object_count = length;
  generation-parents = parents-before;
}
