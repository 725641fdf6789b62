-- ===== src/Register/Unique.antt =====
-- A registration keeps the tables free of duplicates.
use gitarena.Prelude.{ℕ, ◌≡◌, false, [], ◌∷◌, Text, All-append, arith}
use gitarena.Database.{Session, Db}
use gitarena.Database.Consistent.{Unique-snoc, below_next, no_id, IsConsistent}
use gitarena.Identifiers.{is_username_taken}
use gitarena.Session.{insert_session}
use gitarena.Register.{email_exists, new_user, add_user, add_email, add_verification}

module _ (lower : Text → Text) where
  pub add_user-IsConsistent :
      (username password : Text) (db : Db)
      → is_username_taken lower username db ≡ false
      → IsConsistent lower db
      → IsConsistent lower (add_user username password db)
  unfolding add_user is_username_taken
  add_user-IsConsistent username password db free c = record {
    usernames = Unique-snoc _ db.users (new_user username password db) c.usernames free;
    emails = c.emails;
    repositories = c.repositories;
    user_ids =
        Unique-snoc _ db.users (new_user username password db) c.user_ids
          (no_id (λ u. u.id) db.users db.next_id c.users_below);
    repository_ids = c.repository_ids;
    users_below =
        All-append _ db.users (new_user username password db ∷ [])
          (below_next (λ u. u.id) db.users db.next_id c.users_below) (omega arith, tt);
    repositories_below = below_next (λ r. r.id) db.repositories db.next_id c.repositories_below;
  }

  pub add_email-IsConsistent :
      (owner : ℕ) (email : Text) (now : ℕ) (db : Db)
      → email_exists lower email db ≡ false
      → IsConsistent lower db
      → IsConsistent lower (add_email owner email now db)
  unfolding add_email
  add_email-IsConsistent owner email now db free c = record {
    usernames = c.usernames;
    emails = Unique-snoc _ db.emails _ c.emails free;
    repositories = c.repositories;
    user_ids = c.user_ids;
    repository_ids = c.repository_ids;
    users_below = c.users_below;
    repositories_below = c.repositories_below;
  }

  pub add_verification-IsConsistent :
      (user_id : ℕ) (hash : Text) (now : ℕ) (db : Db)
      → IsConsistent lower db
      → IsConsistent lower (add_verification user_id hash now db)
  unfolding add_verification
  add_verification-IsConsistent user_id hash now db c = record {
    usernames = c.usernames;
    emails = c.emails;
    repositories = c.repositories;
    user_ids = c.user_ids;
    repository_ids = c.repository_ids;
    users_below = below_next (λ u. u.id) db.users db.next_id c.users_below;
    repositories_below = below_next (λ r. r.id) db.repositories db.next_id c.repositories_below;
  }

  pub insert_session-IsConsistent :
      (session : Session) (db : Db)
      → IsConsistent lower db
      → IsConsistent lower (insert_session session db)
  unfolding insert_session
  insert_session-IsConsistent session db c = record {
    usernames = c.usernames;
    emails = c.emails;
    repositories = c.repositories;
    user_ids = c.user_ids;
    repository_ids = c.repository_ids;
    users_below = c.users_below;
    repositories_below = c.repositories_below;
  }
