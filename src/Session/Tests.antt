-- ===== src/Session/Tests.antt =====
-- Tests of the sessions.
use gitarena.Prelude.{◌≢◌, ◌∷◌, [], some, codes, refl, split_once, cons_first, text_eq, false}
use gitarena.Database.{Session, Db, serve}
use gitarena.Error.{ok}
use gitarena.Prelude.Number.{parse_i32, parse_from}
use gitarena.Session.{extract_from_request, update_explicit, from_identity, logout}
use gitarena.Session.Identity.{HasSession, extract_from_request-HasSession, logout-ends}
use gitarena.Samples.{bob, sample_db}

abbrev bobs_session : Session
bobs_session = record {
  user_id = 2;
  hash = codes "c0ffee";
  ip_address = codes "::1";
  user_agent = codes "curl";
  updated_at = 5;
}

abbrev logged_in : Db
logged_in = record sample_db { sessions = bobs_session ∷ [] }

logout-ends_example :
    from_identity
      (some (codes "2$c0ffee"))
      (serve (logout (record { headers = [] }) (some (codes "2$c0ffee"))) logged_in).1
    ≢ ok (some bobs_session)
logout-ends_example =
    logout-ends (record { headers = [] }) (codes "2$c0ffee") logged_in bobs_session

extract_from_request-HasSession_example : HasSession (codes "2$c0ffee") logged_in bob
unfolding extract_from_request from_identity split_once cons_first parse_i32 parse_from text_eq
    update_explicit
extract_from_request-HasSession_example =
    extract_from_request-HasSession (codes "2$c0ffee") (codes "::1") (codes "curl") 9 logged_in bob
      false refl
