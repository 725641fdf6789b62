-- ===== src/GitIo/Reader.antt =====
-- src/git/io/reader.rs: the data lines of a request, and its command.
pub mod Lines
pub mod Command
mod Tests
use gitarena.Prelude.{
  ℕ, zero, suc, ◌+◌, ◌==◌, Bool, Option, none, some, List, [], ◌∷◌, ◌++◌, Text, Bytes, codes,
  text_eq, split_once, if◌then◌else◌,
}
use gitarena.Prelude.Utf8.{from_utf8}
use gitarena.Error.{Result, ok, err, panic, other, ◌>>=◌}
use gitarena.GitIo.PacketLine.{Packet, data_line, ReadLine, line}

-- `data[..data.len() - (data.last() == '\n')]`
unfoldable pub strip_newline : Bytes → Bytes
strip_newline [] = []
strip_newline (b ∷ []) = if b == 10 then [] else b ∷ []
strip_newline (b ∷ c ∷ bs) = b ∷ strip_newline (c ∷ bs)

abbrev pub push_line : ReadLine → List Bytes → List Bytes
push_line (line (data_line [])) rest = rest
push_line (line (data_line (b ∷ bs))) rest = strip_newline (b ∷ bs) ∷ rest
push_line _ rest = rest

-- The argument is what `read_line` gives, call by call.
unfoldable pub read_data_lines : List ReadLine → List Bytes
unfolding strip_newline
read_data_lines [] = []
read_data_lines (l ∷ ls) = push_line l (read_data_lines ls)

-- `body.remove(i)`, which panics out of bounds
unfoldable pub remove : ℕ → List Bytes → Result (List Bytes)
remove i [] = panic
remove zero (l ∷ ls) = ok ls
remove (suc i) (l ∷ ls) = remove i ls >>= λ rest. ok (l ∷ rest)

-- `for i in from..from + rounds { body.remove(i); }`
unfoldable pub remove_each : ℕ → ℕ → List Bytes → Result (List Bytes)
unfolding remove
remove_each zero from body = ok body
remove_each (suc rounds) from body = remove from body >>= remove_each rounds (from + 1)

abbrev value_of : Option (Text × Text) → Option Text
value_of none = none
value_of (some (key, value)) = if text_eq key (codes "command") then some value else none

abbrev command_in : Option Text → Option Text
command_in none = none
command_in (some text) = value_of (split_once b'=' text)

-- The value of a line `command=value`. A line that is no UTF-8, has no `=` or another key has none.
unfoldable pub command_of : Bytes → Option Text
command_of raw_line = command_in (from_utf8 raw_line)

-- The loop over the lines that are left, from `index` on.
unfoldable pub search_command : ℕ → List Bytes → List Bytes → Result (Text × List Bytes)
unfolding remove_each
search_command index [] body = err other
search_command index (l ∷ ls) body =
    let rest = search_command (index + 1) ls body in
    elim (command_of l) [
      | none ↦ rest
      | some value ↦ remove_each index 0 body >>= λ left. ok (value, left)
    ]

unfoldable pub read_until_command : List Bytes → Result (Text × List Bytes)
unfolding search_command
read_until_command body = search_command 0 body body
