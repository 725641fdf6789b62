-- ===== src/NewRepository/Tests.antt =====
-- Tests of new repositories.
use gitarena.Prelude.{refl, true, some, none, [], ◌∷◌, codes, text_eq, arith}
use gitarena.Error.{ok}
use gitarena.Database.{Db, Connection, string, private, public}
use gitarena.Database.Consistent.{IsConsistent}
use gitarena.Request.{Request}
use gitarena.Users.{authenticated}
use gitarena.NewRepository.{Services, CreateRequest, ImportRequest, create, import}
use gitarena.NewRepository.Fork.{create_fork}
use gitarena.NewRepository.Invariant.{new_repository-IsConsistent}
use gitarena.Samples.{sample_db, bob}

abbrev db : Db
db = record sample_db {
  settings =
      record { key = codes "domain"; value = none; type_constraint = string } ∷ sample_db.settings;
}

abbrev before : Connection
before = record { committed = db; current = db }

abbrev services : Services
services = record {
  lower = λ t. t;
  to_lowercase = λ t. t;
  init = λ path head. ok tt;
  open_repo = λ path. ok tt;
  write = λ path author author_email root_email file content. ok tt;
  copy_dir_all = λ old new. ok tt;
  parse_url = some;
  is_connected = true;
  send = λ url username password. ok tt;
}

abbrev form : CreateRequest
form = record { name = codes "notes"; description = []; visibility = public; readme = none }

abbrev import_form : ImportRequest
import_form = record {
  name = codes "copy";
  description = [];
  import_url = codes "https://example.com/r.git";
  mirror = none;
  visibility = private;
  username = none;
  password = none;
}

abbrev request : Request
request = record { headers = [] }

consistent : IsConsistent (λ t. t) db
unfolding text_eq
consistent = record {
  usernames = (refl, (refl, tt));
  emails = tt;
  repositories = (refl, tt);
  user_ids = (refl, (refl, tt));
  repository_ids = (refl, tt);
  users_below = (omega arith, (omega arith, tt));
  repositories_below = (omega arith, tt);
}

new_repository-IsConsistent_example :
    IsConsistent (λ t. t) (create services form (authenticated bob) request before).1.committed
    × IsConsistent
        (λ t. t)
        (create_fork services
          (codes "alice")
          (codes "tools")
          (authenticated bob)
          request
          before).1.committed
    × IsConsistent
        (λ t. t)
        (import services import_form (authenticated bob) request before).1.committed
new_repository-IsConsistent_example =
    new_repository-IsConsistent services request form import_form (codes "alice") (codes "tools")
      (authenticated bob) before consistent consistent
