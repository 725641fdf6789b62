-- ===== src/Session/Identity.antt =====
-- What the identity of a session leads to.
use gitarena.Prelude.{
  find?-Mem, inl, inr, split_once, find?, Option-cases, ap, ◌≢◌, Option, some, ℕ, ◌≡◌, Bool, true,
  not, none, List, [], ◌∷◌, Text, retain, arith, refl, text_iff, ◌==◌,
}
use gitarena.Error.{Result, ok, err, panic}
use gitarena.Database.{serve, Db, Session, User}
use mathlib.Core.List.{Memᴰ}
use gitarena.Users.{authenticated}
use gitarena.Prelude.Number.{parse_i32}
use gitarena.Request.{Request}
use gitarena.Session.{
  extract_from_request, update_explicit, extract_identity, to_web_user, find_session, logout,
  from_identity, destroy, finish_logout, is_row, same_key,
}

row-same_key :
    (key : Bool × ℕ) (hash : Text) (s t : Session)
    → is_row key hash s ≡ true
    → is_row key hash t ≡ true
    → same_key s t ≡ true
row-same_key (negative, n) hash s t h k =
    ground (arith, text_iff s.hash hash, text_iff t.hash hash, text_iff t.hash s.hash)

-- No row of the same key is left.
find-retain :
    (key : Bool × ℕ) (hash : Text) (s : Session)
    → is_row key hash s ≡ true
    → (ss : List Session) → find? (is_row key hash) (retain (λ t. not (same_key s t)) ss) ≡ none
find-retain key hash s h [] = refl
find-retain key hash s h (t ∷ ss) =
    ground (arith, find-retain key hash s h ss, row-same_key key hash s t h)

find_session_gone :
    (p : Text × Text) (db : Db) (s : Session)
    → find_session db p ≡ ok (some s)
    → find_session (destroy s db) p ≡ ok none
unfolding destroy
find_session_gone (user_id_str, hash) db s h = elim (Option-cases (parse_i32 user_id_str)) [
  | inl e ↦ absurd (cc)
  | inr (key, e) ↦
      let found : find? (is_row key hash) db.sessions ≡ some s = ground arith in
      let (m, row) = find?-Mem (is_row key hash) db.sessions s found in
      rw e (ap ok (find-retain key hash s row db.sessions))
]

from_identity_gone :
    (identity : Text) (db : Db) (s : Session)
    → from_identity (some identity) db ≡ ok (some s)
    → from_identity (some identity) (destroy s db) ≡ ok none
unfolding from_identity
from_identity_gone identity db s h = elim (Option-cases (split_once b'$' identity)) [
  | inl e ↦ absurd (cc)
  | inr (p, e) ↦ rw e (find_session_gone p db s (ground arith))
]

finished :
    (request : Request) (identity : Text) (db : Db) (r : Result (Option Session)) (u : Session)
    → from_identity (some identity) db ≡ r
    → from_identity
        (some identity)
        (finish_logout request r (record { committed = db; current = db })).1.committed
      ≢ ok (some u)
finished request identity db (ok none) u e h = cc
finished request identity db (ok (some s)) u e h =
    let gone = from_identity_gone identity db s e in cc
finished request identity db (err x) u e h = cc
finished request identity db panic u e h = cc

-- After a request to log out, whatever its outcome, the identity that it came with leads to no
-- session.
pub logout-ends :
    (request : Request) (identity : Text) (db : Db) (u : Session)
    → from_identity (some identity) (serve (logout request (some identity)) db).1 ≢ ok (some u)
unfolding logout
logout-ends request identity db u =
    finished request identity db (from_identity (some identity) db) u refl

find_session-listed :
    (p : Text × Text) (db : Db) (s : Session) → find_session db p ≡ ok (some s) → Memᴰ s db.sessions
find_session-listed (user_id_str, hash) db s h = elim (Option-cases (parse_i32 user_id_str)) [
  | inl e ↦ absurd (cc)
  | inr (key, e) ↦ (find?-Mem (is_row key hash) db.sessions s (ground arith)).0
]

from_identity-listed :
    (identity : Text) (db : Db) (s : Session)
    → from_identity (some identity) db ≡ ok (some s)
    → Memᴰ s db.sessions
unfolding from_identity
from_identity-listed identity db s h = elim (Option-cases (split_once b'$' identity)) [
  | inl e ↦ absurd (cc)
  | inr (p, e) ↦ find_session-listed p db s (ground arith)
]

-- A user whose session, named by the identity, is in the table.
pub record HasSession (identity : Text) (db : Db) (user : User) : Type 0 where
  pub session : Session
  pub named : from_identity (some identity) db ≡ ok (some session)
  pub listed : Memᴰ session db.sessions
  pub owner : user.id ≡ session.user_id
  pub known : Memᴰ user db.users

user_of_session :
    (identity : Text) (db : Db) (session : Session) (found : Option User) (user : User)
    → from_identity (some identity) db ≡ ok (some session)
    → find? (λ u. u.id == session.user_id) db.users ≡ found
    → to_web_user found ≡ authenticated user
    → HasSession identity db user
user_of_session identity db session none user e f h = absurd (cc)
user_of_session identity db session (some u) user e f h =
    let (m, o) = find?-Mem (λ v. v.id == session.user_id) db.users u f in
    let same : u ≡ user = cc in
    rw (← same) (record {
      session = session;
      named = e;
      listed = from_identity-listed identity db session e;
      owner = ground arith;
      known = m;
    })

resumed :
    (identity ip_address user_agent : Text) (now : ℕ) (db : Db) (r : Result (Option Session))
    (user : User) (forgotten : Bool)
    → from_identity (some identity) db ≡ r
    → (extract_identity ip_address user_agent now
        (some identity)
        (record { committed = db; current = db })).0
      ≡ ok (authenticated user, forgotten)
    → HasSession identity db user
unfolding update_explicit
resumed identity ip_address user_agent now db (ok none) user forgotten e h =
    absurd (let k = rw e at h in cc)
resumed identity ip_address user_agent now db (ok (some s)) user forgotten e h =
    let k = rw e at h in
    user_of_session identity db s (find? (λ u. u.id == s.user_id) db.users) user e refl (cc)
resumed identity ip_address user_agent now db (err x) user forgotten e h =
    absurd (let k = rw e at h in cc)
resumed identity ip_address user_agent now db panic user forgotten e h =
    absurd (let k = rw e at h in cc)

-- A request whose cookie makes it one of a user: its identity leads to a session in the table, which
-- is that user's.
pub extract_from_request-HasSession :
    (identity ip_address user_agent : Text) (now : ℕ) (db : Db) (user : User) (forgotten : Bool)
    → (serve (extract_from_request (some (some identity)) ip_address user_agent now) db).0
      ≡ ok (authenticated user, forgotten)
    → HasSession identity db user
unfolding extract_from_request
extract_from_request-HasSession identity ip_address user_agent now db user forgotten h =
    resumed identity ip_address user_agent now db (from_identity (some identity) db) user forgotten
      refl h
