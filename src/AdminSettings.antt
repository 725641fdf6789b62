-- ===== src/AdminSettings.antt =====
-- src/routes/admin/settings.rs: the change of settings by an administrator.
pub mod Readable
mod Laws
mod Tests
use gitarena.Prelude.{
  Bool, true, false, not, Option, none, some, List, [], ◌∷◌, ◌++◌, Text, codes, text_eq, is_some,
  ◌||◌, if◌then◌else◌,
}
use gitarena.Prelude.Number.{parse_i32}
use gitarena.Error.{Result, ok, die_message, ok_or, status_message}
use gitarena.Exec.{◌>>=◌, ◌>>◌, pure, lift}
use gitarena.Database.{
  User, Setting, TypeConstraint, boolean, char, int, string, bytes, Handler, query, execute, begin,
  commit,
}
use gitarena.Request.{Request, Response, header}
use gitarena.Users.{WebUser, into_user}
use gitarena.Config.Write.{write_setting}
use gitarena.Config.{find_setting, parse_char}

-- The match on the type constraint; `parse::<bool>()` takes two words only.
unfoldable pub is_valid_value : TypeConstraint → Text → Bool
is_valid_value boolean value = text_eq value (codes "true") || text_eq value (codes "false")
is_valid_value char value = is_some (parse_char value)
is_valid_value int value = is_some (parse_i32 value)
is_valid_value string value = true
is_valid_value bytes value = true

abbrev pub refusal : Text → Text
refusal key = codes "Value for " ++ (key ++ codes " does not follow type constraint")

-- The check of the value for the setting that was found, and the update.
abbrev pub write_valid : Text → Text → Setting → Handler Unit
write_valid key value setting = do
  lift (
      if not (is_valid_value setting.type_constraint value)
      then die_message 400 (refusal key)
      else ok tt)
  write_setting key value

abbrev pub change_found : Text → Text → Option Setting → Handler Unit
change_found key value found =
    lift (ok_or (status_message 400 (codes "Setting not found")) found) >>= write_valid key value

-- One round of the loop, less the flag.
unfoldable pub patch_setting : Text → Text → Handler Unit
patch_setting key value = query (find_setting key) >>= change_found key value

-- The loop over the form's pairs, in the order of the map; the flag is `once.is_completed()`.
unfoldable pub patch_all : List (Text × Text) → Bool → Handler Bool
patch_all [] once = pure once
patch_all ((key, value) ∷ form) once = patch_setting key value >> patch_all form true

-- The branch for a form without data.
unfoldable pub patch_trigger : Request → Handler Bool
patch_trigger request = do
  setting ← lift (
      ok_or (status_message 400 (codes "Setting not found"))
        (header (codes "hx-trigger-name") request))
  write_setting setting (codes "false")
  pure true

abbrev pub no_content : Response
no_content = record { status = 204; headers = []; body = [] }

abbrev pub outcome : Bool → Result Response
outcome completed = if completed then ok no_content else die_message 400 (codes "No data provided")

abbrev pub answer : Bool → Handler Response
answer completed = commit >> lift (outcome completed)

-- What follows the loop.
abbrev pub finish : Request → Bool → Handler Response
finish request once = (if not once then patch_trigger request else pure once) >>= answer

-- The transaction.
abbrev pub change_all : List (Text × Text) → Request → Handler Response
change_all form request = begin >> (patch_all form false >>= finish request)

abbrev pub as_admin : List (Text × Text) → Request → User → Handler Response
as_admin form request user =
    lift (if not user.admin then die_message 403 (codes "Not allowed") else ok tt)
    >> change_all form request

unfoldable pub patch_settings : List (Text × Text) → WebUser → Request → Handler Response
patch_settings form web_user request = lift (into_user web_user) >>= as_admin form request
