-- ===== src/Exec.antt =====
-- Code that mutates a state and may fail. What was written before a failure stays written, so the
-- state comes back beside the error too. `x ← m` is `m?` of the source.
pub mod Inversion
pub mod Keeps
pub mod Runs
use gitarena.Error.{Error, Result, ok, err, panic}

abbrev pub Exec {ℓ} : Type ℓ → Type ℓ → Type ℓ
Exec S A = S → Result A × S

module _ {ℓ} {S : Type ℓ} where
  abbrev pub continue : {A B : Type ℓ} → (A → Exec S B) → Result A → S → Result B × S
  continue f (ok a) s = f a s
  continue f (err e) s = (err e, s)
  continue f panic s = (panic, s)

  infixl 5 ◌>>=◌ ◌>>◌
  abbrev pub ◌>>=◌ : {A B : Type ℓ} → Exec S A → (A → Exec S B) → Exec S B
  ◌>>=◌ m f s = let (r, s') = m s in continue f r s'

  abbrev pub ◌>>◌ : {A B : Type ℓ} → Exec S A → Exec S B → Exec S B
  m >> k = m >>= λ _. k

  abbrev pub pure : {A : Type ℓ} → A → Exec S A
  pure a s = (ok a, s)

  abbrev pub lift : {A : Type ℓ} → Result A → Exec S A
  lift r s = (r, s)

  abbrev pub raise : {A : Type ℓ} → Error → Exec S A
  raise e s = (err e, s)

  abbrev pub gets : {A : Type ℓ} → (S → A) → Exec S A
  gets f s = (ok (f s), s)

  abbrev pub modify : (S → S) → Exec S Unit
  modify f s = (ok tt, f s)
