-- ===== src/Exec/Keeps.antt =====
-- A property of the state that a computation keeps, however it ends, and one of its result if it
-- succeeds.
use mathlib.Core.Path.{subst}
use gitarena.Prelude.{◌≡◌, refl, sym}
use gitarena.Error.{Result, ok, err, panic}
use gitarena.Error.Inversion.{ok-injective}
use gitarena.Exec.{Exec, continue, ◌>>=◌, pure, lift, gets, modify}

abbrev pub Anything : {A : Type 0} → A → Type 0
Anything a = Unit

module _ {S : Type 0} (I : S → Type 0) where
  pub record Keeps {A : Type 0} (m : Exec S A) (Q : A → Type 0) : Type 0 where
    pub kept : (s : S) → I s → I (m s).1
    pub given : (s : S) (a : A) → I s → (m s).0 ≡ ok a → Q a

  pub Keeps-weaken :
      {A : Type 0} (m : Exec S A) (P Q : A → Type 0) → Keeps m P → ((a : A) → P a → Q a) → Keeps m Q
  Keeps-weaken m P Q k h = record { kept = k.kept; given = λ s a i e. h a (k.given s a i e) }

  pub Keeps-lift :
      {A : Type 0} (r : Result A) (Q : A → Type 0) → ((a : A) → r ≡ ok a → Q a) → Keeps (lift r) Q
  Keeps-lift r Q h = record { kept = λ s i. i; given = λ s a i e. h a e }

  pub Keeps-any : {A : Type 0} (r : Result A) → Keeps (lift r) Anything
  Keeps-any r = record { kept = λ s i. i; given = λ s a i e. tt }

  pub Keeps-pure : {A : Type 0} (a : A) (Q : A → Type 0) → Q a → Keeps (pure a) Q
  Keeps-pure a Q q = record { kept = λ s i. i; given = λ s b i e. subst Q (ok-injective e) q }

  pub Keeps-gets :
      {A : Type 0} (f : S → A) (Q : A → Type 0) → ((s : S) → I s → Q (f s)) → Keeps (gets f) Q
  Keeps-gets f Q h = record { kept = λ s i. i; given = λ s b i e. subst Q (ok-injective e) (h s i) }

  pub Keeps-modify : (f : S → S) → ((s : S) → I s → I (f s)) → Keeps (modify f) Anything
  Keeps-modify f h = record { kept = h; given = λ s a i e. tt }

  module _ {A B : Type 0} (f : A → Exec S B) (P : A → Type 0) (Q : B → Type 0)
      (next : (a : A) → P a → Keeps (f a) Q) where
    continue-kept : (r : Result A) (s : S) → ((a : A) → r ≡ ok a → P a) → I s → I (continue f r s).1
    continue-kept (ok a) s h i = (next a (h a refl)).kept s i
    continue-kept (err e) s h i = i
    continue-kept panic s h i = i

    continue-given :
        (r : Result A) (s : S)
        → ((a : A) → r ≡ ok a → P a)
        → I s
        → (b : B) → (continue f r s).0 ≡ ok b
        → Q b
    continue-given (ok a) s h i b e = (next a (h a refl)).given s b i e
    continue-given (err x) s h i b e = absurd (cc)
    continue-given panic s h i b e = absurd (cc)

    pub Keeps-bind : (m : Exec S A) → Keeps m P → Keeps (m >>= f) Q
    Keeps-bind m k = record {
      kept = λ s i. continue-kept (m s).0 (m s).1 (λ a e. k.given s a i e) (k.kept s i);
      given = λ s b i e. continue-given (m s).0 (m s).1 (λ a e. k.given s a i e) (k.kept s i) b e;
    }

  pub Keeps-chain :
      {A B : Type 0} (m : Exec S A) (f : A → Exec S B)
      → Keeps m Anything
      → ((a : A) → Keeps (f a) Anything)
      → Keeps (m >>= f) Anything
  Keeps-chain m f k h = Keeps-bind f Anything Anything (λ a p. h a) m k

  -- A computation that leaves every state as it is.
  pub Keeps-still : {A : Type 0} (m : Exec S A) → ((s : S) → (m s).1 ≡ s) → Keeps m Anything
  Keeps-still m h = record { kept = λ s i. subst I (sym (h s)) i; given = λ s a i e. tt }
