-- ===== src/AdminSettings/Tests.antt =====
-- Tests of the change of settings.
use gitarena.Prelude.{
  ◌≢◌, ◌⊎◌, ◌≡◌, refl, true, false, some, [], ◌∷◌, inr, Text, codes, text_eq, All, if◌then◌else◌,
}
use gitarena.Error.{ok, err, other}
use gitarena.Database.{Db, Setting, TypeConstraint, int, string, boolean, Connection, User}
use gitarena.Request.{Request, get_header}
use gitarena.Users.{authenticated, into_user}
use gitarena.Config.{find_setting, to_i32, get_setting, to_string}
use gitarena.AdminSettings.{patch_settings, no_content}
use gitarena.AdminSettings.Readable.{Lowercase, IsReadable}
use gitarena.AdminSettings.Laws.{patch_settings-IsReadable, patch_settings-trigger}
use gitarena.Prelude.Number.{parse_i32, parse_from}
use gitarena.Samples.{sample_db, bob}

abbrev types : Text → TypeConstraint
types key =
    if text_eq key (codes "repositories.base_dir")
    then string
    else if text_eq key (codes "smtp.tls")
    then boolean
    else int

abbrev port : Setting
port = record { key = codes "smtp.port"; value = some (codes "25"); type_constraint = int }

abbrev db : Db
db = record sample_db { settings = port ∷ sample_db.settings }

abbrev connection : Connection
connection = record { committed = db; current = db }

abbrev carol : User
carol = record bob { admin = true }

abbrev triggered : Request
triggered = record { headers = (codes "hx-trigger-name", some (codes "smtp.port")) ∷ [] }

lowercase : Lowercase (λ t. t)
lowercase = record { true_kept = refl; false_kept = refl }

before : All (IsReadable (λ t. t) types) db.settings
unfolding to_i32 to_string text_eq parse_i32 parse_from
before = (
  record { typed = refl; reads = inr ((false, 25), refl) },
  (record { typed = refl; reads = inr (codes "/srv", refl) }, tt),
)

patch_settings-IsReadable_example :
    All
      (IsReadable (λ t. t) types)
      (patch_settings
        ((codes "smtp.port", codes "no") ∷ [])
        (authenticated carol)
        triggered
        connection).1.committed.settings
patch_settings-IsReadable_example =
    patch_settings-IsReadable (λ t. t) types lowercase ((codes "smtp.port", codes "no") ∷ [])
      (authenticated carol) triggered connection refl before before

patch_settings-trigger_example :
    ((patch_settings [] (authenticated carol) triggered connection).0 ≡ ok no_content)
    × (find_setting
          (codes "smtp.port")
          (patch_settings [] (authenticated carol) triggered connection).1.committed
        ≡ some (record port { value = some (codes "false") }))
    × ((port.type_constraint ≢ int)
        ⊎ (get_setting to_i32
              (codes "smtp.port")
              (patch_settings [] (authenticated carol) triggered connection).1.committed
            ≡ err other))
unfolding into_user get_header find_setting text_eq
patch_settings-trigger_example =
    patch_settings-trigger (authenticated carol) carol triggered (codes "smtp.port") connection port
      refl refl refl refl
