-- ===== src/Register.antt =====
-- src/routes/user/user_create.rs, src/verification.rs and src/captcha.rs: the registration of a user.
pub mod Unique
pub mod Steps
pub mod Invariant
mod Tests
use gitarena.Prelude.{
  ℕ, ◌+◌, ◌==◌, ◌||◌, Bool, true, false, not, Option, none, some, List, [], ◌∷◌, ◌++◌, Text, codes,
  text_eq, ltb, any, length, to_bytes, is_some, unwrap_or, if◌then◌else◌,
}
use gitarena.Error.{ok_or, Result, ok, err, other, die_message, ◌>>=◌ as then_result}
use gitarena.Exec.{◌>>=◌, ◌>>◌, pure, lift}
use gitarena.Database.{
  read, refuse_if, User, Email, Session, Verification, Db, Handler, query, execute, begin, commit,
}
use gitarena.Request.{Request, header}
use gitarena.Config.{get_setting, get_optional_setting, to_string, to_bool}
use gitarena.Identifiers.{validate_username, is_username_taken}
use gitarena.Session.{to_identity}
use gitarena.Login.{Client, create_session}
use gitarena.Mail.{Smtp, send_user_mail}

-- `RegisterJsonRequest`
pub record RegisterRequest : Type 0 where
  pub username : Text
  pub email : Text
  pub password : Text
  pub h_captcha_response : Option Text

-- The crates `argon2`, `lettre` and `awc`, the template of the mail, the database's lower case and
-- that of the standard library. `verify_token` asks hCaptcha about a token with a key.
pub record Services : Type 0 where
  pub lower : Text → Text
  pub to_lowercase : Text → Text
  pub hash_password : Text → Result Text
  pub verify_token : (token key : Text) → Result Bool
  pub deliver : Smtp → (from to subject body : Text) → Result (Unit {0})
  pub subject : Option Text
  pub body : (username link : Text) → Text

-- The identity that is remembered, beside a redirection or the JSON object with the user's id.
pub data Answer : Type 0 where
  hx_redirected : (remembered : Text) → Answer
  registered : (remembered : Text) → (id : ℕ) → Answer

-- `email.rsplit_once(c)`, of which the second part is used
unfoldable pub after_last : ℕ → Text → Option Text
after_last c [] = none
after_last c (x ∷ t) =
    let rest = after_last c t in
    elim rest [ some u ↦ some u | none ↦ if x == c then some t else none ]

abbrev contains_char : ℕ → Text → Bool
contains_char c t = any (λ x. x == c) t

unfoldable pub is_email : Text → Bool
is_email email = not (
    not (contains_char b'@' email)
    || not (contains_char b'.' (unwrap_or [] (after_last b'@' email))))

-- `select exists(select 1 from emails where lower(email) = lower($1) limit 1)`
abbrev pub email_exists : (Text → Text) → Text → Db → Bool
email_exists lower email db = any (λ e. text_eq (lower e.email) (lower email)) db.emails

-- `insert into users (username, password) values ($1, $2) returning *`; the index on the name is
-- unique.
abbrev pub new_user : Text → Text → Db → User
new_user username password db = record {
  id = db.next_id;
  username = username;
  password = password;
  disabled = false;
  admin = false;
}

unfoldable pub add_user : Text → Text → Db → Db
add_user username password db = record db {
  users = db.users ++ new_user username password db ∷ [];
  next_id = db.next_id + 1;
}

unfoldable pub insert_user : Text → Text → Handler User
insert_user username password = do
  taken ← query (λ db. any (λ u. text_eq u.username username) db.users)
  lift (if taken then err other else ok tt)
  user ← query (new_user username password)
  execute (add_user username password)
  pure user

-- `insert into emails ... values ($1, $2, true, true, true, true)`; the index on the email is unique.
unfoldable pub add_email : ℕ → Text → ℕ → Db → Db
add_email owner email now db = record db {
  emails =
      db.emails
      ++ record {
        owner = owner;
        email = email;
        primary = true;
        commit = true;
        notification = true;
        public = true;
        created_at = now;
        verified_at = none;
      }
        ∷ [];
}

unfoldable pub insert_email : ℕ → Text → ℕ → Handler Unit
insert_email owner email now = do
  taken ← query (λ db. any (λ e. text_eq e.email email) db.emails)
  lift (if taken then err other else ok tt)
  execute (add_email owner email now)

-- The row of a verification, which expires after a day; the indices on the user and on the hash are
-- unique.
unfoldable pub add_verification : ℕ → Text → ℕ → Db → Db
add_verification user_id hash now db = record db {
  verifications =
      db.verifications
      ++ record { id = db.next_id; user_id = user_id; hash = hash; expires = now + 86400 } ∷ [];
  next_id = db.next_id + 1;
}

unfoldable pub insert_verification : ℕ → Text → ℕ → Handler Unit
insert_verification user_id hash now = do
  taken ← query (λ db. any (λ v. v.user_id == user_id || text_eq v.hash hash) db.verifications)
  lift (if taken then err other else ok tt)
  execute (add_verification user_id hash now)

module _ (ext : Services) where
  abbrev pub answered_captcha : Text → Option Text → Result Bool
  answered_captcha token none = ok true
  answered_captcha token (some api_key) = ext.verify_token token api_key

  -- `captcha::verify_captcha`
  unfoldable pub verify_captcha : Text → Db → Result Bool
  verify_captcha token db =
      then_result (get_optional_setting to_string (codes "hcaptcha.site_key") db)
        (answered_captcha token)

  -- `send_verification_mail`, in a transaction of its own.
  unfoldable pub send_verification_mail : User → Text → ℕ → Handler Unit
  send_verification_mail user hash now = do
    begin
    insert_verification user.id hash now
    domain ← read (get_setting to_string (codes "domain"))
    subject ← lift (ok_or other ext.subject)
    send_user_mail ext.to_lowercase ext.deliver user subject
        (ext.body user.username (domain ++ (codes "/api/verify/" ++ hash)))
    commit

  -- The checks that touch no row: the captcha, if a key for it is set.
  abbrev pub solve_captcha : Option Text → Option Text → Handler Unit
  solve_captcha none response = pure tt
  solve_captcha (some key) none =
      lift (die_message 400 (codes "HCaptcha response was not provided"))
  solve_captcha (some key) (some token) = do
    captcha_success ← read (verify_captcha token)
    refuse_if (not captcha_success) 422 (codes "Captcha verification failed")

  abbrev pub answer : Request → User → Session → Answer
  answer request user session =
      if is_some (header (codes "hx-request") request)
      then hx_redirected (to_identity session)
      else registered (to_identity session) user.id

  -- The second transaction. It has done nothing yet when the mail's own transaction runs, so what it
  -- sees is what that one leaves.
  abbrev pub welcome : Request → Client → Text → User → Handler Answer
  welcome request client hash user = do
    begin
    send_verification_mail user hash client.now
    begin
    session ← create_session client user
    commit
    pure (answer request user session)

  abbrev pub insert_account : RegisterRequest → ℕ → Text → Handler User
  insert_account body now password = do
    user ← insert_user body.username password
    insert_email user.id body.email now
    commit
    pure user

  abbrev pub with_password : RegisterRequest → Request → Client → Text → Text → Handler Answer
  with_password body request client hash password = do
    site_key ← read (get_optional_setting to_string (codes "hcaptcha.site_key"))
    solve_captcha site_key body.h_captcha_response
    user ← insert_account body client.now password
    welcome request client hash user

  -- From the check of the email on.
  abbrev pub with_username : RegisterRequest → Request → Client → Text → Handler Answer
  with_username body request client hash = do
    refuse_if (not (is_email body.email)) 400 (codes "Invalid email address")
    exists ← query (email_exists ext.lower body.email)
    refuse_if exists 409 (codes "Email already in use")
    refuse_if (ltb (length (to_bytes body.password)) 8) 400
        (codes "Password must be at least 8 characters")
    password ← lift (ext.hash_password body.password)
    with_password body request client hash password

  abbrev pub register : RegisterRequest → Request → Client → Text → Handler Answer
  register body request client hash = do
    begin
    allowed ← read (get_setting (to_bool ext.to_lowercase) (codes "allow_registrations"))
    refuse_if (not allowed) 403 (codes "User registrations are disabled")
    lift (validate_username ext.to_lowercase body.username)
    taken ← query (is_username_taken ext.lower body.username)
    refuse_if taken 409 (codes "Username already in use")
    with_username body request client hash

  -- `hash` is the random text of the verification.
  unfoldable pub post_register :
      RegisterRequest → Option Text → Request → Client → Text → Handler Answer
  post_register body (some identity) request client hash =
      lift (die_message 401 (codes "Already logged in"))
  post_register body none request client hash = register body request client hash
