-- ===== src/BasicAuth/Tests.antt =====
-- Tests of the authentication.
use gitarena.Prelude.{
  ◌≡◌, ◌≢◌, ◌⊎◌, [], some, none, codes, refl, inr, split_once, cons_first, text_eq, strip_prefix,
}
use gitarena.Prelude.Utf8.{from_utf8}
use gitarena.Error.{ok, die_message}
use gitarena.Database.{public, private, User}
use gitarena.Request.{Request, get_header}
use gitarena.BasicAuth.{
  parse_basic_auth, parse_credentials, authenticate, login_flow, is_present, prompt,
  validate_repo_access, check_password,
}
use gitarena.BasicAuth.Credentials.{IsAuthentic, authenticate-IsAuthentic}
use gitarena.BasicAuth.Access.{validate_repo_access-anonymous, validate_repo_access-granted}
use gitarena.Samples.{sample_crypto, sample_db, as_bob, bob, repo_of}

authenticate-IsAuthentic_example : IsAuthentic sample_crypto as_bob sample_db bob
unfolding authenticate get_header parse_basic_auth parse_credentials check_password split_once
    cons_first text_eq from_utf8 strip_prefix
authenticate-IsAuthentic_example = authenticate-IsAuthentic sample_crypto as_bob sample_db bob refl

abbrev anonymous : Request
anonymous = record { headers = [] }

validate_repo_access-anonymous_example :
    (validate_repo_access sample_crypto
        (some (repo_of private))
        (codes "text/plain")
        anonymous
        sample_db
      ≡ ok (inr (prompt (codes "text/plain"))))
    × (validate_repo_access sample_crypto none (codes "text/plain") anonymous sample_db
        ≡ die_message 404 (codes "Repository not found"))
unfolding get_header
validate_repo_access-anonymous_example =
    validate_repo_access-anonymous sample_crypto (repo_of private) anonymous (codes "text/plain")
      sample_db refl refl

validate_repo_access-granted_example :
    (some (repo_of private) ≡ some (repo_of private))
    × (((private ≡ public) × (some bob ≡ none))
        ⊎ ((private ≢ public)
            × (user : User) × (some bob ≡ some user)
            × IsAuthentic sample_crypto as_bob sample_db user))
unfolding validate_repo_access login_flow is_present authenticate get_header parse_basic_auth
    parse_credentials check_password split_once cons_first text_eq from_utf8 strip_prefix
validate_repo_access-granted_example =
    validate_repo_access-granted sample_crypto (some (repo_of private)) as_bob (codes "text/plain")
      sample_db (some bob) (repo_of private) refl
