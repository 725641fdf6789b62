-- ===== src/Error/Inversion.antt =====
-- What a successful computation says of its parts.
use gitarena.Prelude.{◌≡◌, refl, Option, none, some}
use gitarena.Error.{Error, Result, ok, err, panic, ◌>>=◌, ok_or}

-- A chain that succeeds: its first part did, and the rest on what that gave.
pub bind-eq-ok {ℓ κ} :
    {T : Type ℓ} {U : Type κ} (first : Result T) (next : T → Result U) {u : U}
    → (first >>= next) ≡ ok u
    → (t : T) × (first ≡ ok t) × (next t ≡ ok u)
bind-eq-ok panic next h = absurd (cc)
bind-eq-ok (err e) next h = absurd (cc)
bind-eq-ok (ok t) next h = (t, refl, h)

pub ok_or-eq-ok {ℓ} :
    {A : Type ℓ} (e : Error) (o : Option A) {a : A} → ok_or e o ≡ ok a → o ≡ some a
ok_or-eq-ok e none h = absurd (cc)
ok_or-eq-ok e (some a) h = cc

pub ok-injective {ℓ} : {A : Type ℓ} {a b : A} → ok a ≡ ok b → a ≡ b
ok-injective h = cc
