-- ===== src/Exec/Runs.antt =====
-- What holds after a computation of what held before it, and a property of the state that it ends
-- in, whether it succeeds or not.
use mathlib.Core.Path.{subst}
use gitarena.Prelude.{◌≡◌, refl, sym}
use gitarena.Error.{Result, ok, err, panic}
use gitarena.Error.Inversion.{ok-injective}
use gitarena.Exec.Keeps.{Keeps, Anything}
use gitarena.Exec.{Exec, continue, ◌>>=◌, pure, lift, gets, modify}

module _ {S : Type 0} (End : S → Type 0) where
  pub record Runs {A : Type 0} (P : S → Type 0) (m : Exec S A) (Q : A → S → Type 0) : Type 0 where
    pub done : (s : S) (a : A) → P s → (m s).0 ≡ ok a → Q a (m s).1
    pub ends : (s : S) → P s → End (m s).1

  module _ (P : S → Type 0) (end : (s : S) → P s → End s) where
    pub Runs-lift : {A : Type 0} (r : Result A) → Runs P (lift r) (λ a s. P s × (r ≡ ok a))
    Runs-lift r = record { done = λ s a p e. (p, e); ends = end }

    pub Runs-gets : {A : Type 0} (f : S → A) → Runs P (gets f) (λ a s. P s × (f s ≡ a))
    Runs-gets f = record { done = λ s a p e. (p, ok-injective e); ends = end }

    pub Runs-pure : {A : Type 0} (a : A) → Runs P (pure a) (λ b. P)
    Runs-pure a = record { done = λ s b p e. p; ends = end }

  pub Runs-modify :
      (P Q : S → Type 0) (f : S → S)
      → ((s : S) → P s → Q (f s))
      → ((s : S) → P s → End (f s))
      → Runs P (modify f) (λ a. Q)
  Runs-modify P Q f h k = record { done = λ s a p e. h s p; ends = k }

  module _ {A B : Type 0} (P : S → Type 0) (Q : A → S → Type 0) (R : B → S → Type 0)
      (f : A → Exec S B) (next : (a : A) → Runs (Q a) (f a) R) where
    continue-done :
        (r : Result A) (s : S) (b : B)
        → ((a : A) → r ≡ ok a → Q a s)
        → (continue f r s).0 ≡ ok b
        → R b (continue f r s).1
    continue-done (ok a) s b h e = (next a).done s b (h a refl) e
    continue-done (err x) s b h e = absurd (cc)
    continue-done panic s b h e = absurd (cc)

    continue-ends :
        (r : Result A) (s : S) → ((a : A) → r ≡ ok a → Q a s) → End s → End (continue f r s).1
    continue-ends (ok a) s h e = (next a).ends s (h a refl)
    continue-ends (err x) s h e = e
    continue-ends panic s h e = e

    pub Runs-bind : (m : Exec S A) → Runs P m Q → Runs P (m >>= f) R
    Runs-bind m k = record {
      done = λ s b p e. continue-done (m s).0 (m s).1 b (λ a q. k.done s a p q) e;
      ends = λ s p. continue-ends (m s).0 (m s).1 (λ a q. k.done s a p q) (k.ends s p);
    }

  -- A computation that leaves every state as it is.
  pub Runs-still :
      {A : Type 0} (P : S → Type 0)
      → ((s : S) → P s → End s)
      → (m : Exec S A) → ((s : S) → (m s).1 ≡ s)
      → Runs P m (λ a. P)
  Runs-still P end m h = record {
    done = λ s a p e. subst P (sym (h s)) p;
    ends = λ s p. subst End (sym (h s)) (end s p);
  }

  pub Runs-of_Keeps : {A : Type 0} (m : Exec S A) → Keeps End m Anything → Runs End m (λ a. End)
  Runs-of_Keeps m k = record { done = λ s a p e. k.kept s p; ends = k.kept }

  -- A step that leaves every state as it is, and the rest.
  pub Runs-skip :
      {A B : Type 0} (P : S → Type 0) (R : B → S → Type 0)
      → ((s : S) → P s → End s)
      → (m : Exec S A) (f : A → Exec S B) → ((s : S) → (m s).1 ≡ s)
      → ((a : A) → Runs P (f a) R)
      → Runs P (m >>= f) R
  Runs-skip P R end m f h next = Runs-bind P (λ a. P) R f next m (Runs-still P end m h)

  -- A test that the rest relies on, between the two.
  pub Runs-given :
      {A B : Type 0} (P Q : S → Type 0) (R : B → S → Type 0)
      → ((s : S) → P s → End s)
      → (r : Result A) (f : A → Exec S B) → ((s : S) (a : A) → P s → r ≡ ok a → Q s)
      → ((a : A) → Runs Q (f a) R)
      → Runs P (lift r >>= f) R
  Runs-given P Q R end r f h next =
      Runs-bind P (λ a. Q) R f next (lift r) (record { done = λ s a p e. h s a p e; ends = end })

  pub Keeps-of_Runs : {A : Type 0} (m : Exec S A) → Runs End m (λ a. End) → Keeps End m Anything
  Keeps-of_Runs m k = record { kept = k.ends; given = λ s a i e. tt }
