-- ===== src/Login/Outcome.antt =====
-- Whom a login lets in, and what the identity that it hands out stands for.
use mathlib.Core.List.{Memᴰ}
use gitarena.Prelude.{
  All-Mem, ℕ, ◌≤◌, ◌≡◌, ◌≢◌, refl, sym, ap, ◌∙◌, inl, inr, Bool, true, false, Option, none, some,
  List, [], ◌∷◌, ◌++◌, Text, codes, text_eq, text_eq_of, text_refl, find?, find?-Mem, any, All,
  Bool-cases, arith, is_empty, unwrap_or,
}
use gitarena.Prelude.Words.{split_once-append}
use gitarena.Prelude.Decimal.{decimal}
use gitarena.Prelude.Decimal.RoundTrip.{parse_i32-decimal, decimal-IsDigit, IsDigit}
use gitarena.Error.{Result, ok, err, panic}
use gitarena.Exec.{lift}
use gitarena.Exec.Inversion.{bind-eq-ok}
use gitarena.Database.{User, Email, Session, Db, Connection}
use gitarena.Database.ReadOnly.{fresh}
use gitarena.BasicAuth.{Crypto, check_password, user_named}
use gitarena.Session.{new_session, insert_session, to_identity, from_identity, is_row}
use gitarena.Mail.{find_primary_email}
use gitarena.Config.{get_optional_setting, to_string}
use gitarena.Login.{
  LoginRequest, Client, Answer, redirected, login_page, create_session, render, open_session,
  if_allowed, admitted, with_password, with_user, log_in, post_login, sso_password,
}

not_separator : (t : Text) → All IsDigit t → All (λ c. c ≢ b'$') t
not_separator [] h = tt
not_separator (c ∷ t) ((p, q), h) = (λ e. absurd (omega (arith, p, q, e)), not_separator t h)

-- An identity that was printed names the sessions with its user and hash.
from_identity-to_identity :
    (s : Session) (db : Db)
    → s.user_id ≤ 2147483647
    → from_identity (some (to_identity s)) db
      ≡ ok (find? (is_row (false, s.user_id) s.hash) db.sessions)
unfolding from_identity to_identity
from_identity-to_identity s db h =
    rw
      (
        split_once-append b'$' (decimal s.user_id) s.hash
            (not_separator (decimal s.user_id) (decimal-IsDigit s.user_id)),
        parse_i32-decimal s.user_id h,
      )
      refl

-- The session that is inserted is found, as no other has its hash.
find-inserted :
    (s : Session) (sessions : List Session)
    → any (λ t. text_eq t.hash s.hash) sessions ≡ false
    → find? (is_row (false, s.user_id) s.hash) (sessions ++ s ∷ []) ≡ some s
find-inserted s [] h = let e = text_refl s.hash in ground (arith, e)
find-inserted s (t ∷ sessions) h = ground (arith, find-inserted s sessions)

-- The identity that an answer hands out.
abbrev memory_of : Result Answer → Text
memory_of (ok (redirected location (some remembered))) = remembered
memory_of _ = []

-- Who has logged in, by which session.
pub record LoggedIn (crypto : Crypto) (body : LoginRequest) (remembered : Text) (before after : Db)
    : Type 0 where
  pub user : User
  pub listed : Memᴰ user before.users
  pub named : user.username ≡ body.username
  pub right : crypto.verify user.password body.password ≡ ok true
  pub enabled : user.disabled ≡ false
  pub session : Session
  pub found : from_identity (some remembered) after ≡ ok (some session)
  pub owned : session.user_id ≡ user.id

module _ (crypto : Crypto) (body : LoginRequest) (client : Client) (place : Text) (db : Db)
    (location remembered : Text) (c' : Connection) where
  abbrev Succeeds : (Connection → Result Answer × Connection) → Type 0
  Succeeds m = m (fresh db) ≡ (ok (redirected location (some remembered)), c')

  render-page :
      (domain : Result (Option Text)) (status : ℕ) (field message : Text)
      → get_optional_setting to_string (codes "domain") db ≡ domain
      → Succeeds (render (login_page status field message))
      → ⊥
  render-page (ok d) status field message e h = absurd (let k = rw e at h in cc)
  render-page (err x) status field message e h = absurd (let k = rw e at h in cc)
  render-page panic status field message e h = absurd (let k = rw e at h in cc)

  remembered-found :
      (session : Session)
      → session.user_id ≤ 2147483647
      → any (λ t. text_eq t.hash session.hash) db.sessions ≡ false
      → remembered ≡ to_identity session
      → c'.committed ≡ insert_session session db
      → from_identity (some remembered) c'.committed ≡ ok (some session)
  unfolding insert_session
  remembered-found session fits fresh_hash e k =
      rw (e, k)
        (from_identity-to_identity session (insert_session session db) fits
          ∙ ap ok (find-inserted session db.sessions fresh_hash))

  open-LoggedIn :
      (user : User)
      → Memᴰ user db.users
      → user.username ≡ body.username
      → crypto.verify user.password body.password ≡ ok true
      → user.disabled ≡ false
      → user.id ≤ 2147483647
      → Succeeds (open_session crypto client place user)
      → LoggedIn crypto body remembered db c'.committed
  unfolding create_session new_session
  open-LoggedIn user listed named right enabled fits h =
      let session = new_session user client.ip_address client.user_agent client.hash client.now in
      elim (Bool-cases (any (λ s. text_eq s.hash client.hash) db.sessions)) [
        | inl e ↦ absurd (let k = rw e at h in cc)
        | inr e ↦
            let k = rw e at h in
            record {
              user = user;
              listed = listed;
              named = named;
              right = right;
              enabled = enabled;
              session = session;
              found =
                  remembered-found session fits e (sym (ap (λ x. memory_of x.0) k))
                    (sym (ap (λ x. x.1.committed) k));
              owned = refl;
            }
      ]

  enabled-of :
      (user : User) (email : Email) (d : Bool)
      → user.disabled ≡ d
      → admitted client user email ≡ ok true
      → user.disabled ≡ false
  enabled-of user email true e h = absurd (let k = rw e at h in cc)
  enabled-of user email false e h = e

  allowed-LoggedIn :
      (user : User) (email : Email) (allowed : Bool)
      → Memᴰ user db.users
      → user.username ≡ body.username
      → crypto.verify user.password body.password ≡ ok true
      → user.id ≤ 2147483647
      → admitted client user email ≡ ok allowed
      → Succeeds (if_allowed crypto client place user allowed)
      → LoggedIn crypto body remembered db c'.committed
  allowed-LoggedIn user email true listed named right fits a h =
      open-LoggedIn user listed named right (enabled-of user email user.disabled refl a) fits h
  allowed-LoggedIn user email false listed named right fits a h = absurd (
      render-page (get_optional_setting to_string (codes "domain") db) 401 (codes "general_error")
        (codes "Account has been disabled. Please contact support.") refl h)

  -- From the look-up of the primary email on, for the right password.
  email-LoggedIn :
      (user : User) (found : Option Email)
      → Memᴰ user db.users
      → user.username ≡ body.username
      → crypto.verify user.password body.password ≡ ok true
      → user.id ≤ 2147483647
      → find_primary_email user.id db ≡ found
      → Succeeds (with_password crypto client place user true)
      → LoggedIn crypto body remembered db c'.committed
  email-LoggedIn user none listed named right fits e h = absurd (let k = rw e at h in cc)
  email-LoggedIn user (some email) listed named right fits e h =
      let (allowed, a, k) =
        bind-eq-ok (lift (admitted client user email)) (if_allowed crypto client place user)
          (fresh db) (rw e at h) in
      allowed-LoggedIn user email allowed listed named right fits a k

  password-LoggedIn :
      (user : User) (correct : Bool)
      → Memᴰ user db.users
      → user.username ≡ body.username
      → crypto.verify user.password body.password ≡ ok correct
      → user.id ≤ 2147483647
      → Succeeds (with_password crypto client place user correct)
      → LoggedIn crypto body remembered db c'.committed
  password-LoggedIn user true listed named right fits h =
      email-LoggedIn user (find_primary_email user.id db) listed named right fits refl h
  password-LoggedIn user false listed named wrong fits h = absurd (
      render-page (get_optional_setting to_string (codes "domain") db) 401 (codes "password_error")
        (codes "Incorrect password") refl h)

  user-LoggedIn :
      (option : Option User)
      → user_named body.username db ≡ option
      → All (λ u. u.id ≤ 2147483647) db.users
      → Succeeds (with_user crypto client place body.password option)
      → LoggedIn crypto body remembered db c'.committed
  unfolding check_password
  user-LoggedIn none e fits h = absurd (
      render-page (get_optional_setting to_string (codes "domain") db) 401 (codes "username_error")
        (codes "Username does not exist") refl h)
  user-LoggedIn (some user) e fits h =
      let (listed, like) = find?-Mem (λ u. text_eq u.username body.username) db.users user e in
      elim (Bool-cases (text_eq user.password sso_password)) [
        | inl sso ↦ absurd (
            render-page (get_optional_setting to_string (codes "domain") db) 401
              (codes "password_error")
              (codes
                "Your account has been registered with SSO. Try using another login method below.")
              refl (rw sso at h))
        | inr own ↦
            let (correct, right, k) =
              bind-eq-ok (lift (check_password crypto user body.password))
                (with_password crypto client place user) (fresh db) (rw own at h) in
            password-LoggedIn user correct listed (text_eq_of user.username body.username like)
              right (All-Mem (λ u. u.id ≤ 2147483647) user db.users listed fits) k
      ]

  log_in-LoggedIn :
      (c : Connection)
      → c.committed ≡ db
      → All (λ u. u.id ≤ 2147483647) db.users
      → log_in crypto body client place c ≡ (ok (redirected location (some remembered)), c')
      → LoggedIn crypto body remembered db c'.committed
  log_in-LoggedIn c e fits h = elim (Bool-cases (is_empty body.username)) [
    | inl y ↦ absurd (let k = rw y at h in cc)
    | inr n ↦ elim (Bool-cases (is_empty body.password)) [
      | inl y ↦ absurd (let k = rw (n, y) at h in cc)
      | inr m ↦ user-LoggedIn (user_named body.username db) refl fits (rw (n, m, e) at h)
    ]
  ]

-- A login that hands out an identity is by a user of the name that was given, with the right
-- password, whose account is not disabled; and the identity is that of a session of this user, which
-- is found in the database after the login. User ids are 32-bit integers.
pub post_login-LoggedIn :
    (crypto : Crypto) (body : LoginRequest) (identity : Option Text) (client : Client)
    (c c' : Connection) (location remembered : Text)
    → All (λ u. u.id ≤ 2147483647) c.committed.users
    → post_login crypto body identity client c ≡ (ok (redirected location (some remembered)), c')
    → LoggedIn crypto body remembered c.committed c'.committed
unfolding post_login
post_login-LoggedIn crypto body (some identity) client c c' location remembered fits h = absurd (cc)
post_login-LoggedIn crypto body none client c c' location remembered fits h =
    log_in-LoggedIn crypto body client (unwrap_or (codes "/") body.redirect) c.committed location
      remembered c' c refl fits h
