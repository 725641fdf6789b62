-- ===== src/Push/Update.antt =====
-- What a create or update command that was carried out did to the reference that it names.
use gitarena.Push.Refs.{
  settle-eq-ok, ref_at, ref_at-put_at, ref_at-open, world-check_name, world-assert,
  connection-report, report-ref_at,
}
use gitarena.Prelude.{is_some, Option, none, some, ◌≡◌, ◌⊎◌, ◌∙◌, refl, sym, ap, Text, Bytes}
use mathlib.Core.Path.{subst}
use gitarena.Error.{Result, ok, err, panic, other, ok_or}
use gitarena.Error.Inversion.{ok_or-eq-ok, ok-injective}
use gitarena.Exec.{lift, ◌>>=◌}
use gitarena.Exec.Inversion.{bind-eq-ok}
use gitarena.Database.{Repository}
use gitarena.Git.{PreviousValue, existing_must_match, Meets, update}
use gitarena.Oid.{from_hex_str}
use gitarena.RefUpdate.{RefUpdate}
use gitarena.World.{Externals, World, get_fs_path, open_at, put_at}
use gitarena.Push.{
  settle, carry_out, assert, check_name, existing, previous_value, commit_of, report,
  update_reference, write_objects, process_create_update, committed_path,
}

module _ (ext : Externals) where
  existing-Meets :
      (r : Result (ext.git.ObjectId)) (expected : PreviousValue (ext.git.ObjectId))
      (current : Option (ext.git.ObjectId))
      → existing ext r ≡ ok expected
      → Meets expected current
      → (oid : ext.git.ObjectId) × (r ≡ ok oid) × ((current ≡ none) ⊎ (current ≡ some oid))
  existing-Meets (ok oid) expected current h m =
      let e : existing_must_match oid ≡ expected = cc in (oid, refl, rw (← e) at m)
  existing-Meets (err e) expected current h m = absurd (cc)
  existing-Meets panic expected current h m = absurd (cc)

  -- A reference that was missing, or the old object that the command names, if it names one.
  abbrev pub Expected : Option Text → Option (ext.git.ObjectId) → Type 0
  Expected none current = Unit
  Expected (some old) current =
      (old_oid : ext.git.ObjectId) × (from_hex_str ext.git.from_hex ext.git.null_id (some old)
        ≡ ok old_oid)
      × ((current ≡ none) ⊎ (current ≡ some old_oid))

  previous_value-Expected :
      (old : Option Text) (expected : PreviousValue (ext.git.ObjectId))
      (current : Option (ext.git.ObjectId))
      → previous_value ext old ≡ ok expected
      → Meets expected current
      → Expected old current
  previous_value-Expected none expected current h m = tt
  previous_value-Expected (some o) expected current h m =
      existing-Meets (from_hex_str ext.git.from_hex ext.git.null_id (some o)) expected current h m

  -- The reference `target` of the repository at `path`, in the two worlds.
  pub record IsMoved (u : RefUpdate) (repo : Repository) (new_oid : ext.git.ObjectId)
      (w w' : World ext.git) : Type 0 where
    pub path : Text
    pub located : get_fs_path repo w.connection.committed ≡ ok path
    pub same_connection : w'.connection ≡ w.connection
    pub set : ref_at ext w' path u.target_ref ≡ some new_oid
    pub unmoved : Expected u.old (ref_at ext w path u.target_ref)

  -- From the moment that the name of the reference has been checked.
  checked_name :
      (u : RefUpdate) (repo : Repository) (new_oid : ext.git.ObjectId)
      (previous : PreviousValue (ext.git.ObjectId)) (commit : ext.git.Commit) (w w' : World ext.git)
      → previous_value ext u.old ≡ ok previous
      → (do
        path ← committed_path ext repo
        before ← open_at ext.git path
        edited ← lift (
            settle
              (λ message. other)
              (ext.git.transact (update u.target_ref previous new_oid commit) before))
        put_at ext.git path edited)
          w
        ≡ (ok tt, w')
      → IsMoved u repo new_oid w w'
  checked_name u repo new_oid previous commit w w' meets h =
      let (path, e₁, h₁) = bind-eq-ok (committed_path ext repo) _ w h in
      let (before, e₂, h₂) = bind-eq-ok (open_at ext.git path) _ w h₁ in
      let (edited, e₃, h₃) =
        bind-eq-ok
          (lift (
            settle (λ message. other)
              (ext.git.transact (update u.target_ref previous new_oid commit) before)))
          _ w h₂ in
      let there = ok_or-eq-ok other (w.disk path) e₂ in
      let (met, now) =
        ext.git.resolve-update u.target_ref previous new_oid commit before edited
          (settle-eq-ok _ _ e₃) in
      let w-is = ap (λ p. p.1) h₃ in
      record {
        path = path;
        located = e₁;
        same_connection = ap (λ v. v.connection) (sym w-is);
        set =
            ap (λ v. ref_at ext v path u.target_ref) (sym w-is)
            ∙ ref_at-put_at ext w path u.target_ref edited
            ∙ now;
        unmoved =
            previous_value-Expected u.old previous (ref_at ext w path u.target_ref) meets
              (subst (Meets previous) (sym (ref_at-open ext w path u.target_ref before there)) met);
      }

  update_reference-IsMoved :
      (u : RefUpdate) (repo : Repository) (store : Text) (pack : Option (ext.git.Pack))
      (new_oid : ext.git.ObjectId) (w w' : World ext.git)
      → update_reference ext u repo store pack new_oid w ≡ (ok tt, w')
      → IsMoved u repo new_oid w w'
  unfolding update_reference
  update_reference-IsMoved u repo store pack new_oid w w' h =
      let (objects, e₁, h₁) = bind-eq-ok (open_at ext.git store) _ w h in
      let (commit, e₂, h₂) = bind-eq-ok (lift (commit_of ext objects pack new_oid)) _ w h₁ in
      let (previous, e₃, h₃) = bind-eq-ok (lift (previous_value ext u.old)) _ w h₂ in
      let (checked, e₄, h₄) = bind-eq-ok (check_name ext u.target_ref) _ w h₃ in
      checked_name u repo new_oid previous commit w w' e₃
        (rw (world-check_name ext u.target_ref w) at h₄)

  write_objects-ref_at :
      (repo : Repository) (raw : Bytes) (w w' : World ext.git) (path target : Text)
      → write_objects ext repo raw w ≡ (ok tt, w')
      → get_fs_path repo w.connection.committed ≡ ok path
      → ref_at ext w' path target ≡ ref_at ext w path target
  unfolding write_objects
  write_objects-ref_at repo raw w w' path target h located =
      let (path', e₁, h₁) = bind-eq-ok (committed_path ext repo) _ w h in
      let (opened, e₂, h₂) = bind-eq-ok (open_at ext.git path') _ w h₁ in
      let (written, e₃, h₃) =
        bind-eq-ok (lift (ok_or other (ext.git.write_pack raw opened))) _ w h₂ in
      let there = ok_or-eq-ok other (w.disk path') e₂ in
      let same : path' ≡ path = ok-injective (sym e₁ ∙ located) in
      subst (λ p. ref_at ext w' p target ≡ ref_at ext w p target) same
        (ap (λ v. ref_at ext v path' target) (sym (ap (λ p. p.1) h₃))
          ∙ ref_at-put_at ext w path' target written
          ∙ ext.git.resolve-write_pack raw target opened written (ok_or-eq-ok other _ e₃)
          ∙ sym (ref_at-open ext w path' target opened there))

  connection-write_objects :
      (repo : Repository) (raw : Bytes) (w w' : World ext.git)
      → write_objects ext repo raw w ≡ (ok tt, w')
      → w'.connection ≡ w.connection
  unfolding write_objects
  connection-write_objects repo raw w w' h =
      let (path', e₁, h₁) = bind-eq-ok (committed_path ext repo) _ w h in
      let (opened, e₂, h₂) = bind-eq-ok (open_at ext.git path') _ w h₁ in
      let (written, e₃, h₃) =
        bind-eq-ok (lift (ok_or other (ext.git.write_pack raw opened))) _ w h₂ in
      ap (λ p. p.1.connection) (sym h₃)

  -- Writing the objects and reporting leave the reference where it was put.
  finish :
      (u : RefUpdate) (repo : Repository) (raw : Bytes) (new_oid : ext.git.ObjectId)
      (w w₁ w₂ w' : World ext.git)
      → IsMoved u repo new_oid w w₁
      → write_objects ext repo raw w₁ ≡ (ok tt, w₂)
      → report ext u w₂ ≡ (ok tt, w')
      → IsMoved u repo new_oid w w'
  finish u repo raw new_oid w w₁ w₂ w' m h₂ h₃ = record {
    path = m.path;
    located = m.located;
    same_connection =
        ap (λ p. p.1.connection) (sym h₃)
        ∙ connection-report ext u w₂
        ∙ connection-write_objects repo raw w₁ w₂ h₂
        ∙ m.same_connection;
    set =
        report-ref_at ext u w₂ w' m.path u.target_ref h₃
        ∙ write_objects-ref_at repo raw w₁ w₂ m.path u.target_ref h₂
            (ap (λ c. get_fs_path repo c.committed) m.same_connection ∙ m.located)
        ∙ m.set;
    unmoved = m.unmoved;
  }

  -- A create or update command that is carried out has set the reference that it names, in the
  -- repository's directory, to the new object id; and where the command named an old object id, the
  -- reference was missing before, or was that object.
  pub process_create_update-IsMoved :
      (u : RefUpdate) (repo : Repository) (store : Text) (pack : Option (ext.git.Pack))
      (raw : Bytes) (w w' : World ext.git)
      → process_create_update ext u repo store pack raw w ≡ (ok tt, w')
      → (new_oid : ext.git.ObjectId) × (from_hex_str ext.git.from_hex ext.git.null_id u.new
          ≡ ok new_oid)
        × IsMoved u repo new_oid w w'
  unfolding process_create_update
  process_create_update-IsMoved u repo store pack raw w w' h =
      let (given, e₀, h₀) =
        bind-eq-ok (assert ext (is_some u.new)) (λ _. carry_out ext u repo store pack raw) w h in
      let (new_oid, e₁, h₁) =
        bind-eq-ok (lift (from_hex_str ext.git.from_hex ext.git.null_id u.new)) _ w
          (rw (world-assert ext (is_some u.new) w) at h₀) in
      let (moved, e₂, h₂) = bind-eq-ok (update_reference ext u repo store pack new_oid) _ w h₁ in
      let w₁ = (update_reference ext u repo store pack new_oid w).1 in
      let (put, e₃, h₃) = bind-eq-ok (write_objects ext repo raw) _ w₁ h₂ in
      let w₂ = (write_objects ext repo raw w₁).1 in
      (
        new_oid,
        e₁,
        finish u repo raw new_oid w w₁ w₂ w'
            (update_reference-IsMoved u repo store pack new_oid w w₁ (λ i. (e₂ i, w₁)))
            (λ i. (e₃ i, w₂)) h₃,
      )
