-- ===== src/Verify.antt =====
-- src/routes/user/user_verify.rs: the link of a verification mail.
mod Laws
mod Tests
use gitarena.Prelude.{
  ℕ, Bool, not, Option, none, some, Text, codes, text_eq, ltb, ◌==◌, ◌&&◌, ◌||◌, all, find?, retain,
  update, length, to_bytes, if◌then◌else◌,
}
use gitarena.Oid.{is_ascii_hexdigit}
use gitarena.Error.{Result, ok, die_message, ok_or, status_message}
use gitarena.Exec.{◌>>=◌, ◌>>◌, pure, lift}
use gitarena.Database.{Email, Verification, Db, Handler, query, execute, begin, commit}

-- `hash = $1 and expires > now()`
abbrev pub is_open : Text → ℕ → Verification → Bool
is_open token now v = text_eq v.hash token && ltb now v.expires

unfoldable pub is_legal : Text → Bool
is_legal token = length (to_bytes token) == 32 && all is_ascii_hexdigit token

unfoldable pub verify_emails : ℕ → ℕ → Db → Db
verify_emails user_id now db = record db {
  emails = update (λ e. e.owner == user_id) (λ e. record e { verified_at = some now }) db.emails;
}

unfoldable pub remove_verification : ℕ → Db → Db
remove_verification row_id db = record db {
  verifications = retain (λ v. not (v.id == row_id)) db.verifications;
}

abbrev pub confirm : ℕ → Verification → Handler Unit
confirm now v = do execute (verify_emails v.user_id now); execute (remove_verification v.id); commit

-- `now` is the time of the database. Success is answered with a fixed object.
unfoldable pub verify : Text → ℕ → Handler Unit
verify token now = do
  lift (if not (is_legal token) then die_message 400 (codes "Token is illegal") else ok tt)
  begin
  option ← query (λ db. find? (is_open token now) db.verifications)
  v ← lift (ok_or (status_message 403 (codes "Token does not exist or has expired")) option)
  confirm now v
