-- ===== src/Register/Steps.antt =====
-- The parts of a registration that insert no user and no email.
use gitarena.Prelude.{ℕ, ◌==◌, ◌||◌, Text, codes, text_eq, any, if◌then◌else◌, ◌++◌}
use gitarena.Error.{ok, err, other, ok_or}
use gitarena.Exec.Keeps.{Keeps, Anything, Keeps-any, Keeps-pure, Keeps-chain}
use gitarena.Database.{User, Connection}
use gitarena.Database.Consistent.{AreConsistent}
use gitarena.Request.{Request}
use gitarena.Config.{get_setting, to_string}
use gitarena.Session.{insert_session, new_session}
use gitarena.Login.{Client, create_session}
use gitarena.Mail.Laws.{send_user_mail-Keeps}
use gitarena.Register.{
  Services, add_verification, insert_verification, send_verification_mail, answer, welcome,
}
use gitarena.Register.Unique.{add_verification-IsConsistent, insert_session-IsConsistent}
use gitarena.Database.Steps.{execute-Keeps, query-Keeps, read-Keeps, begin-Keeps, commit-Keeps}

module _ (lower : Text → Text) where
  abbrev I : Connection → Type 0
  I = AreConsistent lower

  pub create_session-Keeps :
      (client : Client) (user : User) → Keeps I (create_session client user) Anything
  unfolding create_session
  create_session-Keeps client user =
      Keeps-chain I _ _
        (query-Keeps lower (λ db. any (λ s. text_eq s.hash client.hash) db.sessions))
        (λ taken. Keeps-chain I _ _ (Keeps-any I (if taken then err other else ok tt)) (λ free.
          Keeps-chain I _ _
            (execute-Keeps lower
              (insert_session
                (new_session user client.ip_address client.user_agent client.hash client.now))
              (λ db. insert_session-IsConsistent lower _ db))
            (λ done.
              Keeps-pure I
                (new_session user client.ip_address client.user_agent client.hash client.now)
                Anything tt)))

  insert_verification-Keeps :
      (user_id : ℕ) (hash : Text) (now : ℕ)
      → Keeps I (insert_verification user_id hash now) Anything
  unfolding insert_verification
  insert_verification-Keeps user_id hash now =
      Keeps-chain I _ _
        (query-Keeps lower
          (λ db. any (λ v. v.user_id == user_id || text_eq v.hash hash) db.verifications))
        (λ taken. Keeps-chain I _ _ (Keeps-any I (if taken then err other else ok tt)) (λ free.
          execute-Keeps lower (add_verification user_id hash now)
            (add_verification-IsConsistent lower user_id hash now)))

module _ (ext : Services) where
  abbrev J : Connection → Type 0
  J = AreConsistent ext.lower

  send_verification_mail-Keeps :
      (user : User) (hash : Text) (now : ℕ)
      → Keeps J (send_verification_mail ext user hash now) Anything
  unfolding send_verification_mail
  send_verification_mail-Keeps user hash now = Keeps-chain J _ _ (begin-Keeps ext.lower) (λ started.
      Keeps-chain J _ _ (insert_verification-Keeps ext.lower user.id hash now) (λ inserted.
        Keeps-chain J _ _ (read-Keeps ext.lower (get_setting to_string (codes "domain"))) (λ domain.
          Keeps-chain J _ _ (Keeps-any J (ok_or other ext.subject)) (λ subject.
            Keeps-chain J _ _
              (send_user_mail-Keeps J ext.to_lowercase ext.deliver user subject
                (ext.body user.username (domain ++ (codes "/api/verify/" ++ hash))))
              (λ sent. commit-Keeps ext.lower)))))

  pub welcome-Keeps :
      (request : Request) (client : Client) (hash : Text) (user : User)
      → Keeps J (welcome ext request client hash user) Anything
  welcome-Keeps request client hash user = Keeps-chain J _ _ (begin-Keeps ext.lower) (λ started.
      Keeps-chain J _ _ (send_verification_mail-Keeps user hash client.now) (λ sent.
        Keeps-chain J _ _ (begin-Keeps ext.lower) (λ again.
          Keeps-chain J _ _ (create_session-Keeps ext.lower client user) (λ session.
            Keeps-chain J _ _ (commit-Keeps ext.lower)
              (λ done. Keeps-pure J (answer ext request user session) Anything tt)))))
