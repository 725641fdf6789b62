-- ===== src/Config/Write.antt =====
-- The change of a setting in src/config.rs and src/routes/admin/settings.rs, as the database answers it:
-- the column of a value holds 1024 characters.
use gitarena.Prelude.{Option, Text, ltb, length, is_some, ◌&&◌, if◌then◌else◌}
use gitarena.Error.{Result, ok, err, other}
use gitarena.Exec.{◌>>=◌, ◌>>◌, lift}
use gitarena.Database.{Setting, Handler, query, execute}
use gitarena.Config.{find_setting, set_setting}

-- What the column says of a value, where there is a row.
abbrev pub fits : Text → Option Setting → Result (Unit {0})
fits value row = if is_some row && ltb 1024 (length value) then err other else ok tt

abbrev pub write_checked : Text → Text → Option Setting → Handler Unit
write_checked key value row = lift (fits value row) >> execute (set_setting key value)

-- Where there is a row for the key, a value that is too long for the column is refused.
unfoldable pub write_setting : Text → Text → Handler Unit
write_setting key value = query (find_setting key) >>= write_checked key value
