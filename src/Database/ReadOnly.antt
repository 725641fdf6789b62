-- ===== src/Database/ReadOnly.antt =====
-- Computations that only read: a transaction that has changed nothing they leave as it is.
use gitarena.Prelude.{◌≡◌, refl}
use gitarena.Error.{Result}
use gitarena.Exec.{◌>>=◌, pure, lift}
use gitarena.Exec.Keeps.{
  Keeps, Anything, Keeps-any, Keeps-pure, Keeps-gets, Keeps-modify, Keeps-bind,
}
use gitarena.Database.{Connection, Db, Handler, query, commit}

-- The state of a transaction that has changed nothing.
abbrev pub fresh : Db → Connection
fresh db = record { committed = db; current = db }

abbrev pub IsFresh : Db → Connection → Type 0
IsFresh db c = c ≡ fresh db

module _ (db : Db) where
  abbrev pub OnlyReads : {A : Type 0} → Handler A → Type 0
  OnlyReads m = Keeps (IsFresh db) m Anything

  pub OnlyReads-lift : {A : Type 0} (r : Result A) → OnlyReads (lift r)
  OnlyReads-lift r = Keeps-any (IsFresh db) r

  pub OnlyReads-pure : {A : Type 0} (a : A) → OnlyReads (pure a)
  OnlyReads-pure a = Keeps-pure (IsFresh db) a _ tt

  pub OnlyReads-query : {A : Type 0} (f : Db → A) → OnlyReads (query f)
  OnlyReads-query f = Keeps-gets (IsFresh db) _ _ (λ s i. tt)

  pub OnlyReads-commit : OnlyReads commit
  OnlyReads-commit = Keeps-modify (IsFresh db) _ (λ s i. rw i refl)

  pub OnlyReads-bind :
      {A B : Type 0} (m : Handler A) (f : A → Handler B)
      → OnlyReads m
      → ((a : A) → OnlyReads (f a))
      → OnlyReads (m >>= f)
  OnlyReads-bind m f h k = Keeps-bind (IsFresh db) f _ _ (λ a p. k a) m h
