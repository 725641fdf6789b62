-- ===== src/RefUpdate/Kinds.antt =====
-- Which commands a list without a pack file may hold.
use gitarena.Prelude.{◌≡◌, ◌↔◌, true, List, [], ◌∷◌, All, is_some, is_none, arith}
use gitarena.Error.{ok}
use gitarena.RefUpdate.{RefUpdate, is_only_deletions}

-- A command that names an old object and no new one.
abbrev IsDeletion : RefUpdate → Type 0
IsDeletion u = (is_some u.old ≡ true) × (is_none u.new ≡ true)

-- A list is accepted without a pack exactly when each of its commands is a deletion.
is_only_deletions_iff : (us : List RefUpdate) → (is_only_deletions us ≡ ok true) ↔ All IsDeletion us
unfolding is_only_deletions
is_only_deletions_iff [] = ground arith
is_only_deletions_iff (u ∷ us) = ground (arith, is_only_deletions_iff us)
