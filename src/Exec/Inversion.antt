-- ===== src/Exec/Inversion.antt =====
-- What a successful computation with a state says of its parts.
use gitarena.Prelude.{◌≡◌, refl}
use gitarena.Error.{Result, ok, err, panic}
use gitarena.Exec.{Exec, continue, ◌>>=◌}

module _ {ℓ} {S A B : Type ℓ} where
  continue-eq-ok :
      (f : A → Exec S B) (r : Result A) (s : S) {b : B} {t : S}
      → continue f r s ≡ (ok b, t)
      → (a : A) × (r ≡ ok a) × (f a s ≡ (ok b, t))
  continue-eq-ok f (ok a) s h = (a, refl, h)
  continue-eq-ok f (err e) s h = absurd (cc)
  continue-eq-ok f panic s h = absurd (cc)

  -- A step that succeeds, and the rest from the state that it leaves.
  pub bind-eq-ok :
      (m : Exec S A) (f : A → Exec S B) (s : S) {b : B} {t : S}
      → (m >>= f) s ≡ (ok b, t)
      → (a : A) × ((m s).0 ≡ ok a) × (f a (m s).1 ≡ (ok b, t))
  bind-eq-ok m f s h = continue-eq-ok f (m s).0 (m s).1 h
