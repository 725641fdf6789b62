-- ===== src/Database/Steps.antt =====
-- The steps of a transaction that keep the tables consistent.
use gitarena.Prelude.{refl, Text}
use gitarena.Error.{Result}
use gitarena.Exec.Keeps.{Keeps, Anything, Keeps-modify, Keeps-still}
use gitarena.Database.{read, Db, Connection, query, execute, begin, commit}
use gitarena.Database.Consistent.{IsConsistent, AreConsistent}

module _ (lower : Text → Text) where
  abbrev I : Connection → Type 0
  I = AreConsistent lower

  pub execute-Keeps :
      (f : Db → Db)
      → ((db : Db) → IsConsistent lower db → IsConsistent lower (f db))
      → Keeps I (execute f) Anything
  execute-Keeps f h = Keeps-modify I _ (λ c i. (i.0, h c.current i.1))

  pub query-Keeps : {A : Type 0} (f : Db → A) → Keeps I (query f) Anything
  query-Keeps f = Keeps-still I (query f) (λ c. refl)

  pub read-Keeps : {A : Type 0} (f : Db → Result A) → Keeps I (read f) Anything
  read-Keeps f = Keeps-still I (read f) (λ c. refl)

  pub begin-Keeps : Keeps I begin Anything
  begin-Keeps = Keeps-modify I _ (λ c i. (i.0, i.0))

  pub commit-Keeps : Keeps I commit Anything
  commit-Keeps = Keeps-modify I _ (λ c i. (i.1, i.1))
