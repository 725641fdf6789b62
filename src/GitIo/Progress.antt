-- ===== src/GitIo/Progress.antt =====
-- src/git/io/progress_writer.rs: what the pack builder reports while it works.
pub mod Callbacks
mod Tests
use gitarena.Prelude.{
  ℕ, ◌*◌, ◌/◌, ◌%◌, ◌^◌, ◌==◌, Bool, true, Option, none, some, List, [], ◌∷◌, ◌++◌, Text, codes,
  to_bytes, if◌then◌else◌,
}
use gitarena.Prelude.Decimal.{decimal, pad_three}
use gitarena.Error.{Result, ok, panic}
use gitarena.Exec.{Exec, ◌>>=◌, ◌>>◌}
use gitarena.GitIo.Band
use gitarena.GitIo.PacketLine.{Framing}
use gitarena.GitIo.Writer.{GitWriter, new, write_binary_sideband}

pub record ProgressWriter : Type 0 where
  pub lines : List Text
  pub delta_total : Option ℕ

abbrev pub empty : ProgressWriter
empty = record { lines = []; delta_total = none }

-- `PackBuilderStage` of `git2`
pub data Stage : Type 0 where
  adding_objects deltafication : Stage

unfoldable pub write_text : Text → ProgressWriter → ProgressWriter
write_text text w = record w { lines = w.lines ++ text ∷ [] }

-- `{:>3}% ({}/{}){}`
unfoldable pub describe : Text → ℕ → ℕ → Text
describe stage current total =
    let ending = if current == total then codes ", done.\n" else codes "\r" in
    let percentage = current * 100 % 2 ^ 32 / total in
    stage
    ++ (pad_three (decimal percentage)
        ++ (codes "% ("
            ++ (decimal current ++ (codes "/" ++ (decimal total ++ (codes ")" ++ ending))))))

abbrev pub first_total : Option ℕ → ℕ → Option ℕ
first_total none total = some total
first_total (some t) total = some t

abbrev pub report : Stage → ℕ → ℕ → ProgressWriter → ProgressWriter
report adding_objects current total w = record w {
  lines = w.lines ++ describe (codes "Counting objects: ") current total ∷ [];
}
report deltafication current total w = record {
  lines = w.lines ++ describe (codes "Compressing objects: ") current total ∷ [];
  delta_total = first_total w.delta_total total;
}

-- The closure that `pack_builder_callback` returns. The product of 32-bit integers wraps around, and
-- a division by zero panics.
unfoldable pub callback : Stage → ℕ → ℕ → Exec ProgressWriter Bool
callback stage current total w =
    let total' = if total == 0 then current else total in
    if total' == 0 then (panic, w) else (ok true, report stage current total' w)

module _ (frame : Framing) where
  unfoldable pub write_lines : List Text → Exec GitWriter Unit
  write_lines [] w = (ok tt, w)
  write_lines (line ∷ lines) w =
      (write_binary_sideband frame Band.progress (to_bytes line) >>= λ _. write_lines lines) w

  unfoldable pub to_writer : ProgressWriter → Result (Unit {0}) × GitWriter
  unfolding write_lines
  to_writer w = write_lines w.lines new
