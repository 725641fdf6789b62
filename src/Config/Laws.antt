-- ===== src/Config/Laws.antt =====
-- What a setting reads as after a change.
use gitarena.Prelude.{
  ◌≡◌, refl, Option, none, some, List, [], ◌∷◌, Text, text_eq, find?, update, Bool-cases, inl, inr,
}
use gitarena.Error.{Result}
use gitarena.Database.{Db, Setting}
use gitarena.Config.{find_setting, get_setting, set_setting}

abbrev changed : Text → Option Setting → Option Setting
changed value none = none
changed value (some s) = some (record s { value = some value })

found_same :
    (key value : Text) (settings : List Setting)
    → find?
        (λ s. text_eq s.key key)
        (update (λ s. text_eq s.key key) (λ s. record s { value = some value }) settings)
      ≡ changed value (find? (λ s. text_eq s.key key) settings)
found_same key value [] = refl
found_same key value (s ∷ settings) = elim (Bool-cases (text_eq s.key key)) [
  | inl e ↦ rw (e, e) refl
  | inr e ↦ rw (e, e) (found_same key value settings)
]

pub find_setting-set_setting :
    (key value : Text) (db : Db) (setting : Setting)
    → find_setting key db ≡ some setting
    → find_setting key (set_setting key value db) ≡ some (record setting { value = some value })
unfolding find_setting set_setting
find_setting-set_setting key value db setting h = rw (found_same key value db.settings, h) refl

pub get_setting-changed :
    {T : Type 0} (try_into : Setting → Result T) (key value : Text) (db : Db) (setting : Setting)
    → find_setting key db ≡ some setting
    → get_setting try_into key (set_setting key value db)
      ≡ try_into (record setting { value = some value })
unfolding get_setting find_setting set_setting
get_setting-changed try_into key value db setting h = rw (found_same key value db.settings, h) refl
