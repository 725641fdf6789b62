-- ===== src/Push/Delete.antt =====
-- What a delete command that was carried out did to the reference that it names.
use gitarena.Push.Refs.{
  settle-eq-ok, ref_at, ref_at-put_at, ref_at-open, world-check_name, world-assert, report-ref_at,
}
use gitarena.Prelude.{is_some, is_none, none, some, ◌≡◌, ◌∙◌, Text}
use gitarena.Error.{Result, ok, err, panic, other}
use gitarena.Error.Inversion.{ok_or-eq-ok}
use gitarena.Exec.{lift, ◌>>◌}
use gitarena.Exec.Inversion.{bind-eq-ok}
use gitarena.Database.{Repository}
use gitarena.Git.{must_exist_and_match, delete}
use gitarena.Oid.{from_hex_str}
use gitarena.RefUpdate.{RefUpdate}
use gitarena.World.{Externals, World, get_fs_path, open_at, put_at}
use gitarena.Push.{
  settle, failed, remove_reference, assert, check_name, process_delete, current_path, or_missing,
}

module _ (ext : Externals) where
  -- A reference that was the object that the command names, and is gone.
  pub record IsDeleted (u : RefUpdate) (repo : Repository) (w w' : World ext.git) : Type 0 where
    pub path : Text
    pub old_oid : ext.git.ObjectId
    pub located : get_fs_path repo w.connection.current ≡ ok path
    pub parsed : from_hex_str ext.git.from_hex ext.git.null_id u.old ≡ ok old_oid
    pub was : ref_at ext w path u.target_ref ≡ some old_oid
    pub gone : ref_at ext w' path u.target_ref ≡ none

  or_missing-eq-ok :
      (r : Result (ext.git.ObjectId)) (oid : ext.git.ObjectId)
      → or_missing ext r ≡ ok oid
      → r ≡ ok oid
  or_missing-eq-ok (ok o) oid h = h
  or_missing-eq-ok (err e) oid h = absurd (cc)
  or_missing-eq-ok panic oid h = absurd (cc)

  removed :
      (u : RefUpdate) (repo : Repository) (w w' : World ext.git)
      → remove_reference ext u repo w ≡ (ok tt, w')
      → IsDeleted u repo w w'
  removed u repo w w' h =
      let (path, e₁, h₁) = bind-eq-ok (current_path ext repo) _ w h in
      let (before, e₂, h₂) = bind-eq-ok (open_at ext.git path) _ w h₁ in
      let (oid, e₃, h₃) =
        bind-eq-ok (lift (or_missing ext (from_hex_str ext.git.from_hex ext.git.null_id u.old))) _ w
          h₂ in
      let (checked, e₄, h₄) = bind-eq-ok (check_name ext u.target_ref) _ w h₃ in
      let (edited, e₅, h₅) =
        bind-eq-ok
          (lift (
            settle failed
              (ext.git.transact (delete u.target_ref (must_exist_and_match oid)) before)))
          _ w (rw (world-check_name ext u.target_ref w) at h₄) in
      let w₁ = (put_at ext.git path edited w).1 in
      let there = ok_or-eq-ok other (w.disk path) e₂ in
      let (met, now) =
        ext.git.resolve-delete u.target_ref (must_exist_and_match oid) before edited
          (settle-eq-ok failed _ e₅) in
      record {
        path = path;
        old_oid = oid;
        located = e₁;
        parsed = or_missing-eq-ok _ oid e₃;
        was = ref_at-open ext w path u.target_ref before there ∙ met;
        gone =
            report-ref_at ext u w₁ w' path u.target_ref h₅
            ∙ ref_at-put_at ext w path u.target_ref edited
            ∙ now;
      }

  -- A delete command that is carried out has removed the reference that it names, in the
  -- repository's directory; before that it was the old object that the command names.
  pub process_delete-IsDeleted :
      (u : RefUpdate) (repo : Repository) (w w' : World ext.git)
      → process_delete ext u repo w ≡ (ok tt, w')
      → IsDeleted u repo w w'
  unfolding process_delete
  process_delete-IsDeleted u repo w w' h =
      let (given, e₁, h₁) =
        bind-eq-ok (assert ext (is_some u.old))
          (λ _. assert ext (is_none u.new) >> remove_reference ext u repo) w h in
      let (given', e₂, h₂) =
        bind-eq-ok (assert ext (is_none u.new)) (λ _. remove_reference ext u repo) w
          (rw (world-assert ext (is_some u.old) w) at h₁) in
      removed u repo w w' (rw (world-assert ext (is_none u.new) w) at h₂)
