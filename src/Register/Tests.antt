-- ===== src/Register/Tests.antt =====
-- Tests of a registration.
use gitarena.Prelude.{refl, true, some, none, [], ◌∷◌, ◌++◌, codes, text_eq, arith}
use gitarena.Error.{ok}
use gitarena.Database.{Db, Connection, Setting, boolean, string}
use gitarena.Database.Consistent.{IsConsistent}
use gitarena.Request.{Request}
use gitarena.Login.{Client}
use gitarena.Register.{RegisterRequest, Services, post_register}
use gitarena.Register.Invariant.{post_register-IsConsistent}
use gitarena.Samples.{sample_db, bobs_email}

abbrev open_setting : Setting
open_setting = record {
  key = codes "allow_registrations";
  value = some (codes "true");
  type_constraint = boolean;
}

abbrev no_captcha : Setting
no_captcha = record { key = codes "hcaptcha.site_key"; value = none; type_constraint = string }

abbrev db : Db
db = record sample_db {
  emails = bobs_email ∷ [];
  settings = open_setting ∷ no_captcha ∷ sample_db.settings;
}

abbrev before : Connection
before = record { committed = db; current = db }

abbrev services : Services
services = record {
  lower = λ t. t;
  to_lowercase = λ t. t;
  hash_password = ok;
  verify_token = λ token key. ok true;
  deliver = λ smtp from to subject body. ok tt;
  subject = some (codes "Welcome");
  body = λ username link. username ++ link;
}

abbrev form : RegisterRequest
form = record {
  username = codes "carol";
  email = codes "carol@example.com";
  password = codes "correct horse";
  h_captcha_response = none;
}

abbrev client : Client
client = record {
  ip_address = codes "::1";
  user_agent = codes "curl";
  hash = codes "c0ffee";
  now = 9;
}

abbrev request : Request
request = record { headers = [] }

consistent : IsConsistent (λ t. t) db
unfolding text_eq
consistent = record {
  usernames = (refl, (refl, tt));
  emails = (refl, tt);
  repositories = (refl, tt);
  user_ids = (refl, (refl, tt));
  repository_ids = (refl, tt);
  users_below = (omega arith, (omega arith, tt));
  repositories_below = (omega arith, tt);
}

post_register-IsConsistent_example :
    IsConsistent
      (λ t. t)
      (post_register services form none request client (codes "0123") before).1.committed
post_register-IsConsistent_example =
    post_register-IsConsistent services form request client (codes "0123") none before consistent
      consistent
