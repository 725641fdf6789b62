-- ===== src/Error/Tests.antt =====
-- Tests of the error responses.
use gitarena.Prelude.{ℕ, Option, some, Text, codes}

abbrev reason : ℕ → Option Text
reason code = some (codes "Internal Server Error")
