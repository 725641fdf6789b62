-- ===== src/Push/Refs.antt =====
-- The reference of a name in a world, and what leaves it alone.
use gitarena.Prelude.{Bool, Option, none, some, ◌≡◌, ◌∙◌, sym, ap, Text, text_refl, arith}
use gitarena.Error.{Error, ok}
use gitarena.Error.Inversion.{ok-injective}
use gitarena.Git.{Outcome, not_prepared, not_committed, committed}
use gitarena.RefUpdate.{RefUpdate}
use gitarena.World.{Externals, World, put_at}
use gitarena.Push.{settle, assert, check_name, report}

pub settle-eq-ok :
    {Store : Type 0} (map_err : Text → Error) (o : Outcome Store) {s : Store}
    → settle map_err o ≡ ok s
    → o ≡ committed s
settle-eq-ok map_err (not_prepared message) h = absurd (cc)
settle-eq-ok map_err not_committed h = absurd (cc)
settle-eq-ok map_err (committed s) h = ap committed (ok-injective h)

module _ (ext : Externals) where
  -- The reference `target` of the repository at `path`, before and after.
  abbrev pub ref_at : World ext.git → Text → Text → Option (ext.git.ObjectId)
  ref_at w path target = elim (w.disk path) [ none ↦ none | some s ↦ ext.git.resolve s target ]

  pub ref_at-put_at :
      (w : World ext.git) (path target : Text) (s : ext.git.Store)
      → ref_at (put_at ext.git path s w).1 path target ≡ ext.git.resolve s target
  ref_at-put_at w path target s = rw (text_refl path, ref_at)

  pub ref_at-open :
      (w : World ext.git) (path target : Text) (s : ext.git.Store)
      → w.disk path ≡ some s
      → ref_at w path target ≡ ext.git.resolve s target
  ref_at-open w path target s e = rw (e, ref_at)

  pub disk-report : (u : RefUpdate) (w : World ext.git) → (report ext u w).1.disk ≡ w.disk
  disk-report u w = ground arith

  pub world-check_name : (name : Text) (w : World ext.git) → (check_name ext name w).1 ≡ w
  world-check_name name w = ground arith

  pub world-assert : (b : Bool) (w : World ext.git) → (assert ext b w).1 ≡ w
  world-assert b w = ground arith

  pub connection-report :
      (u : RefUpdate) (w : World ext.git) → (report ext u w).1.connection ≡ w.connection
  connection-report u w = ground arith

  pub report-ref_at :
      (u : RefUpdate) (w w' : World ext.git) (path target : Text)
      → report ext u w ≡ (ok tt, w')
      → ref_at w' path target ≡ ref_at w path target
  report-ref_at u w w' path target h =
      ap (λ v. ref_at v path target) (sym (ap (λ p. p.1) h))
      ∙ ap
          (λ (d : Text → Option (ext.git.Store)). elim (d path) [
            | none ↦ none
            | some s ↦ ext.git.resolve s target
          ])
          (disk-report u w)
