-- ===== src/Config/Tests.antt =====
-- Tests of the settings.
use gitarena.Prelude.{some, codes}
use gitarena.Database.{Setting, string}

abbrev base_dir : Setting
base_dir = record {
  key = codes "repositories.base_dir";
  value = some (codes "/srv");
  type_constraint = string;
}
