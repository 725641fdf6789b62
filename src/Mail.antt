-- ===== src/Mail.antt =====
-- src/mail.rs: the emails of a user, and the mails that are sent to it.
pub mod Laws
mod Tests
use gitarena.Prelude.{
  ℕ, ◌+◌, ◌-◌, ◌/◌, ◌==◌, ◌&&◌, Bool, true, false, not, Option, none, some, List, [], ◌∷◌, Text,
  codes, ltb, find?, if◌then◌else◌,
}
use gitarena.Error.{Result, ok, err, panic, other, ok_or}
use gitarena.Exec.{◌>>=◌, ◌>>◌, pure, lift, gets}
use gitarena.Database.{User, Email, Db, Handler}
use gitarena.Config.{get_setting, to_string, to_i32, to_bool}

-- `generate_find!`: the field and `find_specific_email`.
unfoldable pub find_specific_email : (Email → Bool) → ℕ → Db → Option Email
find_specific_email field user db = find? (λ e. e.owner == user && field e) db.emails

abbrev pub find_primary_email : ℕ → Db → Option Email
find_primary_email = find_specific_email (λ e. e.primary)

abbrev pub find_commit_email : ℕ → Db → Option Email
find_commit_email = find_specific_email (λ e. e.commit)

abbrev pub find_notification_email : ℕ → Db → Option Email
find_notification_email = find_specific_email (λ e. e.notification)

abbrev pub find_public_email : ℕ → Db → Option Email
find_public_email = find_specific_email (λ e. e.public)

-- The hours are those by which the creation lies ahead of `now`: where it lies behind, the signed
-- number is at most 0, as is the difference here.
abbrev ahead : ℕ → Email → Bool
ahead now email = ltb ((email.created_at - now) / 3600) 24

abbrev is_verified : Email → ℕ → Bool
is_verified email now = elim email.verified_at [ some t ↦ true | none ↦ ahead now email ]

-- The assertion panics.
unfoldable pub is_allowed_login : ℕ → Email → Result Bool
is_allowed_login now email = if email.primary then ok (is_verified email now) else panic

-- The settings of the mail server.
pub record Smtp : Type 0 where
  pub server : Text
  pub username : Text
  pub password : Text
  pub port : Bool × ℕ
  pub tls : Bool

-- A query on another connection of the pool, which sees what is committed.
abbrev pub query_pool : {A : Type 0} → (Db → Result A) → Handler A
query_pool f c = (f c.committed, c)

-- `deliver` is the building and the transport of a message by the crate `lettre`.
module _ (to_lowercase : Text → Text)
    (deliver : Smtp → (from to subject body : Text) → Result (Unit {0})) where
  unfoldable pub get_root_email : Handler Text
  get_root_email = query_pool (get_setting to_string (codes "smtp.address"))

  -- The settings come one after the other.
  unfoldable pub send_mail : (from to subject body : Text) → Handler Unit
  send_mail from to subject body = do
    server ← query_pool (get_setting to_string (codes "smtp.server"))
    username ← query_pool (get_setting to_string (codes "smtp.username"))
    password ← query_pool (get_setting to_string (codes "smtp.password"))
    port ← query_pool (get_setting to_i32 (codes "smtp.port"))
    tls ← query_pool (get_setting (to_bool to_lowercase) (codes "smtp.tls"))
    lift (
        deliver
          (record {
            server = server;
            username = username;
            password = password;
            port = port;
            tls = tls;
          })
          from to subject body)

  unfoldable pub send_user_mail : User → Text → Text → Handler Unit
  unfolding get_root_email send_mail
  send_user_mail user subject body = do
    email ← query_pool (λ db. ok_or other (find_notification_email user.id db))
    from ← get_root_email
    send_mail from email.email subject body
