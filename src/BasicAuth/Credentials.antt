-- ===== src/BasicAuth/Credentials.antt =====
-- Reading the header, and who is authenticated by it.
use mathlib.Core.List.{Memᴰ}
use gitarena.Prelude.{
  ◌≡◌, ◌≢◌, true, false, some, none, [], ◌∷◌, ◌++◌, Text, Bytes, codes, text_eq, text_eq_of,
  text_refl, All, arith, is_empty, find?-Mem, refl, Option,
}
use gitarena.Prelude.Words.{split_once-append}
use gitarena.Error.Inversion.{bind-eq-ok}
use gitarena.Error.{ok}
use gitarena.Request.{header, Request}
use gitarena.Database.{User, Db}
use gitarena.Prelude.Utf8.{from_utf8}
use gitarena.BasicAuth.{
  authenticate_header, check_credentials, admit, check_user, Crypto, parse_basic_auth,
  check_password, user_named, authenticate,
}

module _ (crypto : Crypto) where
  -- Of credentials whose bytes are the UTF-8 form of a user name without a colon, a colon and a
  -- password, which may hold colons, the two parts are read back.
  pub parse_basic_auth-pair :
      (encoded username password : Text) (raw : Bytes)
      → All (λ x. x ≢ b':') username
      → crypto.decode_base64 encoded ≡ some raw
      → from_utf8 raw ≡ some (username ++ b':' ∷ password)
      → parse_basic_auth crypto (codes "Basic " ++ encoded) ≡ ok (username, password)
  unfolding parse_basic_auth
  parse_basic_auth-pair encoded username password raw h d u = rw (
    split_once-append b' ' (codes "Basic") encoded (omega arith),
    text_refl (codes "Basic"),
    d,
    u,
    split_once-append b':' username password h,
  )

  -- What is known of a user who was authenticated.
  pub record IsAuthentic (request : Request) (db : Db) (user : User) : Type 0 where
    pub auth_header : Text
    pub username : Text
    pub password : Text
    pub sent : header (codes "authorization") request ≡ some auth_header
    pub parsed : parse_basic_auth crypto auth_header ≡ ok (username, password)
    pub password_given : is_empty password ≡ false
    pub listed : Memᴰ user db.users
    pub named : user.username ≡ username
    pub correct : check_password crypto user password ≡ ok true
    pub enabled : user.disabled ≡ false

  -- The last step: a user of that name with that password.
  admitted :
      (password : Text) (found : Option User) (user : User)
      → check_user crypto password found ≡ ok user
      → (found ≡ some user)
        × (check_password crypto user password ≡ ok true)
        × (user.disabled ≡ false)
  admitted password none user h = absurd (cc)
  admitted password (some u) user h =
      let (correct, checked, e) =
        bind-eq-ok (check_password crypto u password) (admit crypto u) h in
      (ground arith, ground arith, ground arith)

  -- What is known once the credentials are read.
  checked :
      (db : Db) (username password : Text) (user : User)
      → check_credentials crypto db (username, password) ≡ ok user
      → (is_empty password ≡ false)
        × (user_named username db ≡ some user)
        × (check_password crypto user password ≡ ok true)
        × (user.disabled ≡ false)
  checked db username [] user h = absurd (ground arith)
  checked db [] (c ∷ password) user h = absurd (cc)
  checked db (d ∷ username) (c ∷ password) user h =
      let (found, correct, enabled) =
        admitted (c ∷ password) (user_named (d ∷ username) db) user h in
      (refl, found, correct, enabled)

  parsed-IsAuthentic :
      (request : Request) (db : Db) (user : User) (auth_header : Text) (pair : Text × Text)
      → header (codes "authorization") request ≡ some auth_header
      → parse_basic_auth crypto auth_header ≡ ok pair
      → check_credentials crypto db pair ≡ ok user
      → IsAuthentic request db user
  parsed-IsAuthentic request db user auth_header (username, password) sent parsed h =
      let (given, found, correct, enabled) = checked db username password user h in
      let (listed, named) = find?-Mem (λ u. text_eq u.username username) db.users user found in
      record {
        auth_header = auth_header;
        username = username;
        password = password;
        sent = sent;
        parsed = parsed;
        password_given = given;
        listed = listed;
        named = text_eq_of user.username username named;
        correct = correct;
        enabled = enabled;
      }

  header-IsAuthentic :
      (request : Request) (db : Db) (user : User) (o : Option Text)
      → header (codes "authorization") request ≡ o
      → authenticate_header crypto db o ≡ ok user
      → IsAuthentic request db user
  header-IsAuthentic request db user none sent h = absurd (cc)
  header-IsAuthentic request db user (some auth_header) sent h =
      let (pair, parsed, e) =
        bind-eq-ok (parse_basic_auth crypto auth_header) (check_credentials crypto db) h in
      parsed-IsAuthentic request db user auth_header pair sent parsed e

  -- Whoever is authenticated sent a header with the name and the password of an account that is in
  -- the table, has that password and is not disabled.
  pub authenticate-IsAuthentic :
      (request : Request) (db : Db) (user : User)
      → authenticate crypto request db ≡ ok user
      → IsAuthentic request db user
  unfolding authenticate
  authenticate-IsAuthentic request db user h =
      header-IsAuthentic request db user (header (codes "authorization") request) refl h
