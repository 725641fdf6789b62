-- ===== src/Session.antt =====
-- src/session.rs, `WebUser::from_request` of src/user.rs and src/routes/user/user_logout.rs: the
-- sessions of the web interface. An address is text, and a time is a number.
pub mod Identity
mod Tests
use gitarena.Prelude.{
  ℕ, Bool, true, false, not, Option, none, some, List, [], ◌∷◌, ◌++◌, Text, codes, text_eq, ◌==◌,
  ◌&&◌, ◌||◌, find?, retain, update, take, split_once, is_some, if◌then◌else◌,
}
use gitarena.Prelude.Number.{parse_i32}
use gitarena.Prelude.Decimal.{decimal}
use gitarena.Error.{Result, ok, err, panic, other, die_message, ok_or, ◌>>=◌ as then_result}
use gitarena.Exec.{◌>>=◌, ◌>>◌, pure, lift}
use gitarena.Database.{User, Session, Db, Handler, query, execute, begin, commit}
use gitarena.Request.{Request, Response, header}
use gitarena.Users.{WebUser, anonymous, authenticated}

-- `Display for Session`
unfoldable pub to_identity : Session → Text
to_identity s = decimal s.user_id ++ b'$' ∷ s.hash

-- Whether the row is the one that the parsed user id, with its sign, and the hash name.
abbrev pub is_row : Bool × ℕ → Text → Session → Bool
is_row (negative, n) hash s = (not negative || n == 0) && s.user_id == n && text_eq s.hash hash

abbrev find_session : Db → Text × Text → Result (Option Session)
find_session db (user_id_str, hash) =
    then_result (ok_or other (parse_i32 user_id_str))
      (λ user_id. ok (find? (is_row user_id hash) db.sessions))

-- `Session::from_identity`
unfoldable pub from_identity : Option Text → Db → Result (Option Session)
from_identity none db = ok none
from_identity (some identity) db =
    then_result (ok_or other (split_once b'$' identity)) (find_session db)

abbrev pub same_key : Session → Session → Bool
same_key s t = t.user_id == s.user_id && text_eq t.hash s.hash

-- `Session::new`: the hash is the column's default.
unfoldable pub new_session : User → Text → Text → Text → ℕ → Session
new_session user ip_address user_agent hash now = record {
  user_id = user.id;
  hash = hash;
  ip_address = ip_address;
  user_agent = take 256 user_agent;
  updated_at = now;
}

unfoldable pub insert_session : Session → Db → Db
insert_session s db = record db { sessions = db.sessions ++ s ∷ [] }

-- `update_explicit`
unfoldable pub update_explicit : Session → Text → Text → ℕ → Db → Db
update_explicit s ip_address user_agent now db = record db {
  sessions =
      update (same_key s)
        (λ t. record t {
          ip_address = ip_address;
          user_agent = take 256 user_agent;
          updated_at = now;
        })
        db.sessions;
}

-- `destroy`
unfoldable pub destroy : Session → Db → Db
destroy s db = record db { sessions = retain (λ t. not (same_key s t)) db.sessions }

abbrev pub to_web_user : Option User → WebUser
to_web_user none = anonymous
to_web_user (some user) = authenticated user

-- The two branches on the session that was found. The flag says whether the cookie is forgotten.
abbrev pub resume : Text → Text → ℕ → Option Session → Handler (WebUser × Bool)
resume ip_address user_agent now none = pure (anonymous, true)
resume ip_address user_agent now (some session) = do
  execute (update_explicit session ip_address user_agent now)
  user ← query (λ db. find? (λ u. u.id == session.user_id) db.users)
  pure (to_web_user user, false)

-- `id` is what the identity cookie gives; an error there is one of the request.
abbrev pub extract_identity : Text → Text → ℕ → Option Text → Handler (WebUser × Bool)
extract_identity ip_address user_agent now none = pure (anonymous, false)
extract_identity ip_address user_agent now (some identity) = do
  begin
  found ← query (from_identity (some identity))
  session ← lift found
  result ← resume ip_address user_agent now session
  commit
  pure result

unfoldable pub extract_from_request :
    Option (Option Text) → Text → Text → ℕ → Handler (WebUser × Bool)
extract_from_request id ip_address user_agent now = do
  identity ← lift (ok_or other id)
  extract_identity ip_address user_agent now identity

-- `Session::from_identity(..).await.ok().flatten()`
abbrev pub flatten : Result (Option Session) → Result (Option Session)
flatten (ok session) = ok session
flatten (err e) = ok none
flatten panic = panic

abbrev pub destroy_found : Option Session → Handler Unit
destroy_found none = pure tt
destroy_found (some session) = execute (destroy session)

abbrev pub logged_out : Bool → Response
logged_out true = record {
  status = 200;
  headers = (codes "hx-redirect", codes "/") ∷ (codes "hx-refresh", codes "true") ∷ [];
  body = [];
}
logged_out false = record { status = 302; headers = (codes "location", codes "/") ∷ []; body = [] }

-- What follows the look-up of the session.
abbrev pub finish_logout : Request → Result (Option Session) → Handler Response
finish_logout request found = do
  session ← lift (flatten found)
  destroy_found session
  commit
  pure (logged_out (is_some (header (codes "hx-request") request)))

unfoldable pub logout : Request → Option Text → Handler Response
logout request none = lift (die_message 401 (codes "Already logged out"))
logout request (some identity) = do
  begin
  found ← query (from_identity (some identity))
  finish_logout request found
