-- ===== src/Verify/Tests.antt =====
-- Tests of the verification of emails.
use gitarena.Prelude.{◌≡◌, ◌⊎◌, [], ◌∷◌, Text, codes, true, false, none}
use gitarena.Error.{ok}
use gitarena.Database.{Db, serve}
use gitarena.Verify.{verify}
use gitarena.Verify.Laws.{IsVerified, verify-IsVerified}
use gitarena.Samples.{sample_db}

abbrev token : Text
token = codes "0123456789abcdef0123456789abcdef"

-- Bob has a verification that is open until time 100, and an unverified email.
abbrev waiting : Db
waiting = record sample_db {
  emails =
      record {
        owner = 2;
        email = codes "bob@example.org";
        primary = true;
        commit = true;
        notification = true;
        public = false;
        created_at = 1;
        verified_at = none;
      }
      ∷ [];
  verifications = record { id = 4; user_id = 2; hash = token; expires = 100 } ∷ [];
}

verify-IsVerified_example :
    ((serve (verify token 50) waiting).1 ≡ waiting)
    ⊎ (((serve (verify token 50) waiting).0 ≡ ok tt)
        × IsVerified token 50 waiting (serve (verify token 50) waiting).1)
verify-IsVerified_example = verify-IsVerified token 50 waiting
