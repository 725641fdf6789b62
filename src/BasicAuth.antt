-- ===== src/BasicAuth.antt =====
-- src/git/basic_auth.rs: HTTP basic authentication of Git clients.
pub mod Credentials
pub mod Access
mod Tests
use gitarena.Prelude.{
  ℕ, ◌||◌, Bool, true, false, not, Option, none, some, List, [], ◌∷◌, ◌⊎◌, inl, inr, Text, Bytes,
  codes, text_eq, to_bytes, split_once, is_some, is_empty, find?, if◌then◌else◌,
}
use gitarena.Prelude.Utf8.{from_utf8}
use gitarena.Error.{Result, ok, err, other, ok_or, status, status_message, die, die_message, ◌>>=◌}
use gitarena.Database.{User, Repository, RepoVisibility, public, internal, private, Db}
use gitarena.Request.{Request, header, Response}

-- What lies outside: the crates `base64` and `argon2`. `verify` has the stored hash first.
pub record Crypto : Type 0 where
  pub decode_base64 : Text → Option Bytes
  pub verify : Text → Text → Result Bool

unfoldable pub is_present : Request → Bool
is_present request = is_some (header (codes "authorization") request)

unfoldable pub prompt : Text → Response
prompt content_type = record {
  status = 401;
  headers =
      (codes "content-type", content_type)
      ∷ (codes "www-authenticate", codes "Basic realm=\"GitArena\", charset=\"UTF-8\"")
      ∷ [];
  body = [];
}

-- `select * from users where username = $1 limit 1`
abbrev pub user_named : Text → Db → Option User
user_named username db = find? (λ u. text_eq u.username username) db.users

abbrev pub is_public : RepoVisibility → Bool
is_public public = true
is_public _ = false

abbrev pub attach : Repository → User ⊎ Response → Result ((Option User × Repository) ⊎ Response)
attach repo (inl user) = ok (inl (some user, repo))
attach repo (inr response) = ok (inr response)

module _ (crypto : Crypto) where
  -- The text behind the scheme: encoded, then split at the first colon.
  abbrev split_credentials : Text → Result (Text × Text)
  split_credentials credentials =
      ok_or (status_message 401 (codes "Both username and password is required"))
        (split_once b':' credentials)

  unfoldable pub parse_credentials : Text → Result (Text × Text)
  parse_credentials base64_credentials =
      ok_or other (crypto.decode_base64 base64_credentials) >>= λ raw.
      ok_or other (from_utf8 raw) >>= split_credentials

  abbrev of_type : Text × Text → Result (Text × Text)
  of_type (auth_type, base64_credentials) =
      if not (text_eq auth_type (codes "Basic"))
      then die_message 401 (codes "Unsupported authentication type, only Basic auth allowed")
      else parse_credentials base64_credentials

  unfoldable pub parse_basic_auth : Text → Result (Text × Text)
  unfolding parse_credentials
  parse_basic_auth auth_header = ok_or (status 400) (split_once b' ' auth_header) >>= of_type

  -- `crypto::check_password` of src/crypto.rs
  unfoldable pub check_password : User → Text → Result Bool
  check_password user password = crypto.verify user.password password

  abbrev pub admit : User → Bool → Result User
  admit user correct =
      if not correct
      then die_message 401 (codes "Incorrect password")
      else if user.disabled
      then die_message 401 (codes "Account has been disabled. Please contact support.")
      else ok user

  abbrev pub check_user : Text → Option User → Result User
  check_user password none = die_message 401 (codes "User does not exist")
  check_user password (some user) = check_password user password >>= admit user

  abbrev pub check_credentials : Db → Text × Text → Result User
  check_credentials db (username, password) =
      if is_empty username || is_empty password
      then die_message 401 (codes "Username and password cannot be empty")
      else check_user password (user_named username db)

  abbrev pub authenticate_header : Db → Option Text → Result User
  authenticate_header db none = die 401
  authenticate_header db (some auth_header) = parse_basic_auth auth_header >>= check_credentials db

  unfoldable pub authenticate : Request → Db → Result User
  authenticate request db = authenticate_header db (header (codes "authorization") request)

  -- `Either::Left` is `inl`, `Either::Right` is `inr`.
  unfoldable pub login_flow : Request → Text → Db → Result (User ⊎ Response)
  unfolding is_present
  login_flow request content_type db =
      if not (is_present request)
      then ok (inr (prompt content_type))
      else authenticate request db >>= λ user. ok (inl user)

  unfoldable pub validate_repo_access :
      Option Repository → Text → Request → Db → Result ((Option User × Repository) ⊎ Response)
  validate_repo_access none content_type request db =
      login_flow request content_type db >>= λ _. die_message 404 (codes "Repository not found")
  validate_repo_access (some repo) content_type request db =
      if not (is_public repo.visibility)
      then login_flow request content_type db >>= attach repo
      else ok (inl (none, repo))
