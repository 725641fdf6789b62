-- ===== src/Login.antt =====
-- src/routes/user/user_login.rs: `post_login`. Rendering a page by the crate `tera` is not modelled.
pub mod Outcome
mod Tests
use gitarena.Prelude.{
  ℕ, ◌&&◌, Bool, true, false, not, Option, none, some, List, [], ◌∷◌, Text, codes, text_eq, any,
  is_empty, unwrap_or, if◌then◌else◌,
}
use gitarena.Error.{Result, ok, err, other, ok_or, status_message}
use gitarena.Exec.{◌>>=◌, ◌>>◌, pure, lift}
use gitarena.Database.{User, Email, Session, Db, Handler, query, execute, begin, commit}
use gitarena.BasicAuth.{Crypto, check_password, user_named}
use gitarena.Session.{new_session, insert_session, to_identity}
use gitarena.Mail.{find_primary_email, is_allowed_login}
use gitarena.Config.{get_optional_setting, to_string}

-- `LoginRequest`
pub record LoginRequest : Type 0 where
  pub username : Text
  pub password : Text
  pub redirect : Option Text

-- What the client sends beside it, the default of the column `hash`, and the time.
pub record Client : Type 0 where
  pub ip_address : Text
  pub user_agent : Text
  pub hash : Text
  pub now : ℕ

-- A redirection, with the identity that is remembered, or the page of the form with an error.
pub data Answer : Type 0 where
  redirected : (location : Text) → (remembered : Option Text) → Answer
  login_page : (status : ℕ) → (field message : Text) → Answer

-- The insertion of `Session::new`; the index on the hash is unique.
unfoldable pub create_session : Client → User → Handler Session
create_session client user =
    let session = new_session user client.ip_address client.user_agent client.hash client.now in
    do
      taken ← query (λ db. any (λ s. text_eq s.hash client.hash) db.sessions)
      lift (if taken then err other else ok tt)
      execute (insert_session session)
      pure session

-- `render_template!` with a transaction, which it reads the domain in and commits.
abbrev pub render : Answer → Handler Answer
render answer = do
  domain ← query (get_optional_setting to_string (codes "domain"))
  lift domain
  commit
  pure answer

abbrev pub sso_password : Text
sso_password = codes "sso-login"

-- The email is only asked for a user who is not disabled.
abbrev pub admitted : Client → User → Email → Result Bool
admitted client user email = if user.disabled then ok false else is_allowed_login client.now email

module _ (crypto : Crypto) where
  -- The session and its cookie.
  abbrev pub open_session : Client → Text → User → Handler Answer
  open_session client location user = do
    session ← create_session client user
    commit
    pure (redirected location (some (to_identity session)))

  abbrev pub if_allowed : Client → Text → User → Bool → Handler Answer
  if_allowed client location user allowed =
      if not allowed
      then render (
          login_page 401 (codes "general_error")
            (codes "Account has been disabled. Please contact support."))
      else open_session client location user

  abbrev pub with_password : Client → Text → User → Bool → Handler Answer
  with_password client location user correct =
      if not correct
      then render (login_page 401 (codes "password_error") (codes "Incorrect password"))
      else do
        found ← query (find_primary_email user.id)
        email ← lift (ok_or (status_message 401 (codes "No primary email")) found)
        allowed ← lift (admitted client user email)
        if_allowed client location user allowed

  abbrev pub with_user : Client → Text → Text → Option User → Handler Answer
  with_user client location password none =
      render (login_page 401 (codes "username_error") (codes "Username does not exist"))
  with_user client location password (some user) =
      if text_eq user.password sso_password
      then render (
          login_page 401 (codes "password_error") (
            codes
              "Your account has been registered with SSO. Try using another login method below."))
      else lift (check_password crypto user password) >>= with_password client location user

  -- The form of a client that is not logged in.
  abbrev pub log_in : LoginRequest → Client → Text → Handler Answer
  log_in body client location =
      if is_empty body.username
      then pure (login_page 400 (codes "username_error") (codes "Username cannot be empty"))
      else if is_empty body.password
      then pure (login_page 400 (codes "password_error") (codes "Password cannot be empty"))
      else do
        begin
        option ← query (user_named body.username)
        with_user client location body.password option

  unfoldable pub post_login : LoginRequest → Option Text → Client → Handler Answer
  post_login body (some identity) client =
      pure (redirected (unwrap_or (codes "/") body.redirect) none)
  post_login body none client = log_in body client (unwrap_or (codes "/") body.redirect)
