-- ===== src/Packing/Tests.antt =====
-- Tests of the builder.
use gitarena.Prelude.{ℕ, []}
use gitarena.GitIo.Progress.{empty}
use gitarena.Packing.{Packer, Insert, insert_commit}

abbrev start : Packer ℕ
start = record { inserted = []; progress = empty }

abbrev first : Insert ℕ
first = insert_commit 1
