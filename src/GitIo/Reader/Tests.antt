-- ===== src/GitIo/Reader/Tests.antt =====
-- Tests of the reader.
use gitarena.Prelude.{
  ◌≡◌, ◌↔◌, ◌<◌, ◌+◌, ◌++◌, ◌∷◌, [], List, Bytes, codes, length, refl, split_once, cons_first,
  text_eq,
}
use gitarena.Prelude.Utf8.{from_utf8}
use gitarena.Error.{panic}
use gitarena.GitIo.Reader.{read_until_command, command_of}
use gitarena.GitIo.Reader.Command.{read_until_command_panics}

abbrev command : Bytes
command = codes "command=fetch"

abbrev noise : List Bytes
noise = codes "a" ∷ codes "b" ∷ codes "c" ∷ []

read_until_command_panics_example :
    (read_until_command (noise ++ command ∷ []) ≡ panic) ↔ (0 + 2 < length noise)
unfolding command_of from_utf8 split_once cons_first text_eq
read_until_command_panics_example =
    read_until_command_panics noise command [] (codes "fetch") (refl, (refl, (refl, tt))) refl
