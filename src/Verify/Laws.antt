-- ===== src/Verify/Laws.antt =====
-- What a verification changes.
use mathlib.Core.List.{Memᴰ}
use gitarena.Prelude.{
  ℕ, ◌<◌, ◌≡◌, ◌≢◌, ◌⊎◌, inl, inr, Bool-cases, Option-cases, not, some, List, [], ◌∷◌, Text, All,
  find?, find?-Mem, retain, update, text_eq_of, arith, refl, ◌==◌,
}
use gitarena.Error.{ok}
use gitarena.Database.{Email, Verification, Db, serve}
use gitarena.Verify.{is_open, is_legal, verify, verify_emails, remove_verification}

updated :
    (user_id now : ℕ) (es : List Email)
    → All
        (λ e. (e.owner ≢ user_id) ⊎ (e.verified_at ≡ some now))
        (update (λ e. e.owner == user_id) (λ e. record e { verified_at = some now }) es)
updated user_id now [] = tt
updated user_id now (e ∷ es) = elim (Bool-cases (e.owner == user_id)) [
  | inl h ↦ (rw h (inr refl), updated user_id now es)
  | inr h ↦ (rw h (inl (λ o. absurd (ground arith))), updated user_id now es)
]

retained :
    (row_id : ℕ) (vs : List Verification)
    → All (λ v. v.id ≢ row_id) (retain (λ v. not (v.id == row_id)) vs)
retained row_id [] = tt
retained row_id (v ∷ vs) = elim (Bool-cases (v.id == row_id)) [
  | inl h ↦ rw h (retained row_id vs)
  | inr h ↦ rw h ((λ o. absurd (ground arith)), retained row_id vs)
]

-- The verification that was used: it was listed under the token and had not expired; all emails of
-- its user are verified now, and its row is gone.
pub record IsVerified (token : Text) (now : ℕ) (db db' : Db) : Type 0 where
  pub used : Verification
  pub listed : Memᴰ used db.verifications
  pub named : used.hash ≡ token
  pub timely : now < used.expires
  pub emails : All (λ e. (e.owner ≢ used.user_id) ⊎ (e.verified_at ≡ some now)) db'.emails
  pub gone : All (λ v. v.id ≢ used.id) db'.verifications

verified :
    (token : Text) (now : ℕ) (db : Db) (v : Verification)
    → find? (is_open token now) db.verifications ≡ some v
    → IsVerified token now db (remove_verification v.id (verify_emails v.user_id now db))
unfolding remove_verification verify_emails
verified token now db v e =
    let (m, h) = find?-Mem (is_open token now) db.verifications v e in
    record {
      used = v;
      listed = m;
      named = text_eq_of v.hash token (ground arith);
      timely = ground arith;
      emails = updated v.user_id now db.emails;
      gone = retained v.id db.verifications;
    }

-- A request with a token changes nothing, or it has verified the emails of the user of a valid
-- verification with that token, and that verification is gone.
pub verify-IsVerified :
    (token : Text) (now : ℕ) (db : Db)
    → ((serve (verify token now) db).1 ≡ db)
      ⊎ (((serve (verify token now) db).0 ≡ ok tt)
          × IsVerified token now db (serve (verify token now) db).1)
unfolding verify
verify-IsVerified token now db = elim (Bool-cases (is_legal token)) [
  | inr h ↦ inl (rw h refl)
  | inl h ↦ elim (Option-cases (find? (is_open token now) db.verifications)) [
    | inl e ↦ inl (rw (h, e) refl)
    | inr (v, e) ↦ inr (rw (h, e) (refl, verified token now db v e))
  ]
]
