-- ===== src/Identifiers/Tests.antt =====
-- Tests of the names.
use gitarena.Prelude.{◌≡◌, ◌↔◌, codes}
use gitarena.Error.{ok}
use gitarena.Identifiers.{validate_username}
use gitarena.Identifiers.Laws.{IsUsername, validate_username_iff}

validate_username_iff_example :
    (validate_username (λ t. t) (codes "mellow-again") ≡ ok tt)
    ↔ IsUsername (λ t. t) (codes "mellow-again")
validate_username_iff_example = validate_username_iff (λ t. t) (codes "mellow-again")
