-- ===== src/RefUpdate/Tests.antt =====
-- Tests of the commands.
use gitarena.Prelude.{◌++◌, ◌∷◌, Bytes, codes}
use gitarena.RefUpdate.{RefUpdate}

-- A create command with a flag and an unknown option, as a client sends it.
abbrev raw_create : Bytes
raw_create =
    codes "0000000000000000000000000000000000000000 1f refs/heads/main"
    ++ 0 ∷ codes "report-status quiet"
