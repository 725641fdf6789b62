-- ===== src/Mail/Laws.antt =====
-- Who is allowed in by the primary email, and what sending a mail leaves as it is.
use gitarena.Prelude.{ℕ, ◌≤◌, ◌≡◌, refl, true, Text, codes, arith, if◌then◌else◌}
use gitarena.Error.{Result, ok, panic, other, ok_or}
use gitarena.Exec.Keeps.{Keeps, Anything, Keeps-any, Keeps-still, Keeps-chain}
use gitarena.Database.{User, Email, Db, Connection}
use gitarena.Config.{get_setting, to_string, to_i32, to_bool}
use gitarena.Mail.{
  Smtp, find_notification_email, is_allowed_login, query_pool, get_root_email, send_mail,
  send_user_mail,
}

-- A primary email that was created before now is allowed a login at any later time, verified or not;
-- one that is not primary makes the check panic.
pub is_allowed_login-late :
    (now : ℕ) (email : Email)
    → email.created_at ≤ now
    → is_allowed_login now email ≡ (if email.primary then ok true else panic)
unfolding is_allowed_login
is_allowed_login-late now email h = ground arith

module _ (I : Connection → Type 0) (to_lowercase : Text → Text)
    (deliver : Smtp → (from to subject body : Text) → Result (Unit {0})) where
  pool-Keeps : {A : Type 0} (f : Db → Result A) → Keeps I (query_pool f) Anything
  pool-Keeps f = Keeps-still I (query_pool f) (λ c. refl)

  send_mail-Keeps :
      (from to subject body : Text)
      → Keeps I (send_mail to_lowercase deliver from to subject body) Anything
  unfolding send_mail
  send_mail-Keeps from to subject body =
      Keeps-chain I _ _ (pool-Keeps (get_setting to_string (codes "smtp.server"))) (λ server.
        Keeps-chain I _ _ (pool-Keeps (get_setting to_string (codes "smtp.username"))) (λ username.
          Keeps-chain I _ _ (pool-Keeps (get_setting to_string (codes "smtp.password")))
            (λ password.
              Keeps-chain I _ _ (pool-Keeps (get_setting to_i32 (codes "smtp.port"))) (λ port.
                Keeps-chain I _ _
                  (pool-Keeps (get_setting (to_bool to_lowercase) (codes "smtp.tls")))
                  (λ tls. Keeps-any I (
                    deliver
                      (record {
                        server = server;
                        username = username;
                        password = password;
                        port = port;
                        tls = tls;
                      })
                      from to subject body))))))

  pub send_user_mail-Keeps :
      (user : User) (subject body : Text)
      → Keeps I (send_user_mail to_lowercase deliver user subject body) Anything
  unfolding send_user_mail get_root_email
  send_user_mail-Keeps user subject body =
      Keeps-chain I _ _ (pool-Keeps (λ db. ok_or other (find_notification_email user.id db)))
        (λ email.
          Keeps-chain I _ _ (pool-Keeps (get_setting to_string (codes "smtp.address")))
            (λ from. send_mail-Keeps from email.email subject body))
