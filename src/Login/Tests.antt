-- ===== src/Login/Tests.antt =====
-- Tests of a login.
use gitarena.Prelude.{refl, none, [], ◌∷◌, codes, text_eq, Text, arith}
use gitarena.Database.{Db, Connection}
use gitarena.BasicAuth.{check_password}
use gitarena.Session.{to_identity, new_session}
use gitarena.Mail.{find_specific_email, is_allowed_login}
use gitarena.Login.{LoginRequest, Client, post_login, create_session}
use gitarena.Login.Outcome.{LoggedIn, post_login-LoggedIn}
use gitarena.Samples.{sample_db, sample_crypto, bobs_email}

abbrev db : Db
db = record sample_db { emails = bobs_email ∷ [] }

abbrev before : Connection
before = record { committed = db; current = db }

abbrev form : LoginRequest
form = record { username = codes "bob"; password = codes "hunter2"; redirect = none }

abbrev client : Client
client = record {
  ip_address = codes "::1";
  user_agent = codes "curl";
  hash = codes "c0ffee";
  now = 9;
}

abbrev after : Connection
after = (post_login sample_crypto form none client before).1

abbrev identity : Text
identity = to_identity (record {
  user_id = 2;
  hash = codes "c0ffee";
  ip_address = codes "::1";
  user_agent = codes "curl";
  updated_at = 9;
})

post_login-LoggedIn_example : LoggedIn sample_crypto form identity before.committed after.committed
unfolding post_login check_password text_eq find_specific_email is_allowed_login create_session
    new_session
post_login-LoggedIn_example =
    post_login-LoggedIn sample_crypto form none client before after (codes "/") identity
      (omega arith, (omega arith, tt)) refl
