-- ===== src/Register/Invariant.antt =====
-- The invariant of the tables through a registration.
use gitarena.Prelude.{
  ℕ, ◌≡◌, ◌∙◌, refl, Bool, true, false, not, Option, none, some, Text, codes, text_eq, any, ltb,
  length, to_bytes, if◌then◌else◌,
}
use gitarena.Error.{Result, ok, err, panic, other, die_message}
use gitarena.Exec.{continue, lift}
use gitarena.Exec.Keeps.{Anything, Keeps-pure, Keeps-chain}
use gitarena.Exec.Runs.{
  Runs, Runs-gets, Runs-modify, Runs-pure, Runs-bind, Runs-of_Keeps, Runs-skip, Runs-given,
}
use gitarena.Database.{read, refuse_if, Connection, query, execute, begin}
use gitarena.Database.Consistent.{IsConsistent, AreConsistent}
use gitarena.Request.{Request}
use gitarena.Config.{get_setting, get_optional_setting, to_string, to_bool}
use gitarena.Identifiers.{validate_username, is_username_taken}
use gitarena.Login.{Client}
use gitarena.Register.{
  RegisterRequest, Services, email_exists, new_user, add_user, insert_user, insert_email,
  verify_captcha, solve_captcha, insert_account, with_password, with_username, register,
  post_register, is_email,
}
use gitarena.Register.Unique.{add_user-IsConsistent, add_email-IsConsistent}
use gitarena.Database.Steps.{begin-Keeps, commit-Keeps}
use gitarena.Register.Steps.{welcome-Keeps}

module _ (ext : Services) where
  abbrev J : Connection → Type 0
  J = AreConsistent ext.lower

  module _ (body : RegisterRequest) where
    -- Before a name, or an email as well, is inserted that no row has.
    abbrev FreeName : Connection → Type 0
    FreeName c = J c × (is_username_taken ext.lower body.username c.current ≡ false)

    abbrev Free : Connection → Type 0
    Free c = FreeName c × (email_exists ext.lower body.email c.current ≡ false)

    -- The user is there, and the email is still free.
    abbrev FreeEmail : Connection → Type 0
    FreeEmail c = J c × (email_exists ext.lower body.email c.current ≡ false)

    unless :
        (b : Bool) (code : ℕ) (message : Text) (u : Unit {0})
        → (if b then die_message code message else ok tt) ≡ ok u
        → b ≡ false
    unless true code message u e = absurd (cc)
    unless false code message u e = refl

    refused-still :
        (passed : Result Bool) (c : Connection)
        → (continue
            (λ success. refuse_if (not success) 422 (codes "Captcha verification failed"))
            passed
            c).1
          ≡ c
    refused-still (ok success) c = refl
    refused-still (err e) c = refl
    refused-still panic c = refl

    solve_captcha-still :
        (key response : Option Text) (c : Connection) → (solve_captcha ext key response c).1 ≡ c
    solve_captcha-still none response c = refl
    solve_captcha-still (some key) none c = refl
    solve_captcha-still (some key) (some token) c =
        refused-still (verify_captcha ext token c.current) c

    insert_user-Runs :
        (password : Text) → Runs J Free (insert_user body.username password) (λ user. FreeEmail)
    unfolding insert_user add_user
    insert_user-Runs password =
        Runs-skip J Free _ (λ c p. p.0.0)
          (query (λ db. any (λ u. text_eq u.username body.username) db.users)) _ (λ c. refl)
          (λ taken.
            Runs-skip J Free _ (λ c p. p.0.0) (lift (if taken then err other else ok tt)) _
              (λ c. refl)
              (λ free.
                Runs-skip J Free _ (λ c p. p.0.0) (query (new_user body.username password)) _
                  (λ c. refl)
                  (λ user.
                    Runs-bind J Free (λ a. FreeEmail) (λ user. FreeEmail) _
                      (λ done. Runs-pure J FreeEmail (λ c p. p.0) user)
                      (execute (add_user body.username password))
                      (Runs-modify J Free FreeEmail _
                        (λ c p. (
                          (
                            p.0.0.0,
                            add_user-IsConsistent ext.lower body.username password c.current p.0.1
                                p.0.0.1,
                          ),
                          p.1,
                        ))
                        (λ c p. (
                          p.0.0.0,
                          add_user-IsConsistent ext.lower body.username password c.current p.0.1
                              p.0.0.1,
                        ))))))

    insert_email-Runs :
        (owner now : ℕ) → Runs J FreeEmail (insert_email owner body.email now) (λ u. J)
    unfolding insert_email
    insert_email-Runs owner now =
        Runs-skip J FreeEmail _ (λ c p. p.0)
          (query (λ db. any (λ e. text_eq e.email body.email) db.emails)) _ (λ c. refl)
          (λ taken.
            Runs-skip J FreeEmail _ (λ c p. p.0) (lift (if taken then err other else ok tt)) _
              (λ c. refl)
              (λ free.
                Runs-modify J FreeEmail J _
                  (λ c p. (
                    p.0.0,
                    add_email-IsConsistent ext.lower owner body.email now c.current p.1 p.0.1,
                  ))
                  (λ c p. (
                    p.0.0,
                    add_email-IsConsistent ext.lower owner body.email now c.current p.1 p.0.1,
                  ))))

    insert_account-Runs :
        (now : ℕ) (password : Text) → Runs J Free (insert_account ext body now password) (λ user. J)
    insert_account-Runs now password =
        Runs-bind J Free (λ user. FreeEmail) (λ user. J) _
          (λ user.
            Runs-bind J FreeEmail (λ u. J) (λ user. J) _
              (λ inserted. Runs-of_Keeps J _ (
                Keeps-chain J _ _ (commit-Keeps ext.lower) (λ done. Keeps-pure J user Anything tt)))
              (insert_email user.id body.email now) (insert_email-Runs user.id now))
          (insert_user body.username password) (insert_user-Runs password)

    module _ (request : Request) (client : Client) (hash : Text) where
      with_password-Runs :
          (password : Text)
          → Runs J Free (with_password ext body request client hash password) (λ a. J)
      with_password-Runs password =
          Runs-skip J Free _ (λ c p. p.0.0)
            (read (get_optional_setting to_string (codes "hcaptcha.site_key"))) _ (λ c. refl)
            (λ key.
              Runs-skip J Free _ (λ c p. p.0.0) (solve_captcha ext key body.h_captcha_response) _
                (solve_captcha-still key body.h_captcha_response)
                (λ solved.
                  Runs-bind J Free (λ user. J) (λ a. J) _
                    (λ user. Runs-of_Keeps J _ (welcome-Keeps ext request client hash user))
                    (insert_account ext body client.now password)
                    (insert_account-Runs client.now password)))

      with_username-Runs : Runs J FreeName (with_username ext body request client hash) (λ a. J)
      with_username-Runs =
          Runs-skip J FreeName _ (λ c p. p.0)
            (refuse_if (not (is_email body.email)) 400 (codes "Invalid email address")) _
            (λ c. refl)
            (λ fine.
              Runs-bind J FreeName
                (λ exists c. FreeName c × (email_exists ext.lower body.email c.current ≡ exists))
                (λ a. J) _
                (λ exists.
                  Runs-given J _ Free (λ a. J) (λ c p. p.0.0)
                    (if exists then die_message 409 (codes "Email already in use") else ok tt) _
                    (λ c u p e. (p.0, p.1 ∙ unless exists 409 (codes "Email already in use") u e))
                    (λ unused.
                      Runs-skip J Free _ (λ c p. p.0.0)
                        (refuse_if (ltb (length (to_bytes body.password)) 8) 400
                          (codes "Password must be at least 8 characters"))
                        _ (λ c. refl)
                        (λ long.
                          Runs-skip J Free _ (λ c p. p.0.0) (lift (ext.hash_password body.password))
                            _ (λ c. refl) with_password-Runs)))
                (query (email_exists ext.lower body.email)) (Runs-gets J FreeName (λ c p. p.0) _))

      register-Runs : Runs J J (register ext body request client hash) (λ a. J)
      register-Runs =
          Runs-bind J J (λ u. J) (λ a. J) _
            (λ started.
              Runs-skip J J _ (λ c p. p)
                (read (get_setting (to_bool ext.to_lowercase) (codes "allow_registrations"))) _
                (λ c. refl)
                (λ allowed.
                  Runs-skip J J _ (λ c p. p)
                    (refuse_if (not allowed) 403 (codes "User registrations are disabled")) _
                    (λ c. refl)
                    (λ open_to_all.
                      Runs-skip J J _ (λ c p. p)
                        (lift (validate_username ext.to_lowercase body.username)) _ (λ c. refl)
                        (λ legal.
                          Runs-bind J J
                            (λ taken c.
                              J c × (is_username_taken ext.lower body.username c.current ≡ taken))
                            (λ a. J) _
                            (λ taken.
                              Runs-given J _ FreeName (λ a. J) (λ c p. p.0)
                                (if taken
                                  then die_message 409 (codes "Username already in use")
                                  else ok tt)
                                _
                                (λ c u p e. (
                                  p.0,
                                  p.1 ∙ unless taken 409 (codes "Username already in use") u e,
                                ))
                                (λ free. with_username-Runs))
                            (query (is_username_taken ext.lower body.username))
                            (Runs-gets J J (λ c p. p) _)))))
            begin (Runs-of_Keeps J begin (begin-Keeps ext.lower))

      -- A registration, whatever it holds and however it ends, leaves tables
      -- free of duplicates: the usernames and the emails up to case, the names of repositories for each
      -- owner, and the ids.
      pub post_register-IsConsistent :
          (identity : Option Text) (c : Connection)
          → IsConsistent ext.lower c.committed
          → IsConsistent ext.lower c.current
          → IsConsistent ext.lower
              (post_register ext body identity request client hash c).1.committed
      unfolding post_register
      post_register-IsConsistent (some identity) c h k = h
      post_register-IsConsistent none c h k = (register-Runs.ends c (h, k)).0
