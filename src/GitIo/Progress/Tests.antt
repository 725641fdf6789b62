-- ===== src/GitIo/Progress/Tests.antt =====
-- Tests of the progress lines.
use gitarena.Prelude.{
  zero, ◌≡◌, ◌↔◌, ◌∷◌, [], List, false, some, Bytes, codes, length, to_bytes, map, arith,
}
use gitarena.Error.{ok, panic}
use gitarena.GitIo.PacketLine.{line, data_line}
use gitarena.GitIo.Progress.{
  ProgressWriter, adding_objects, deltafication, callback, empty, to_writer,
}
use gitarena.GitIo.Progress.Callbacks.{Call, run, callback_panics, run-counts, to_writer-reads}
use gitarena.Samples.{sample_framing, sample_hex}

callback_panics_example :
    ((callback deltafication 0 0 empty).0 ≡ panic) ↔ ((zero ≡ zero) × (zero ≡ zero))
callback_panics_example = callback_panics deltafication 0 0 empty

abbrev calls : List Call
calls =
    record { stage = adding_objects; current = 3; total = 0 }
    ∷ record { stage = deltafication; current = 1; total = 4 }
    ∷ []

run-counts_example :
    ((run calls empty).0 ≡ ok tt)
    × (length (run calls empty).1.lines ≡ 2)
    × ((run calls empty).1.delta_total ≡ some 4)
run-counts_example = run-counts calls empty (ground arith)

abbrev two_lines : ProgressWriter
two_lines = record empty { lines = codes "Counting objects: 3, done." ∷ codes "done" ∷ [] }

to_writer-reads_example :
    (bytes : Bytes) × (to_writer sample_framing two_lines
      ≡ (ok tt, record { inner = bytes; binary = false }))
    × (sample_framing.read bytes ≡ map (λ l. line (data_line (2 ∷ to_bytes l))) two_lines.lines)
to_writer-reads_example = to_writer-reads sample_framing sample_hex two_lines (ground arith)
