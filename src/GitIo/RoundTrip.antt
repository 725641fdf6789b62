-- ===== src/GitIo/RoundTrip.antt =====
-- Text lines written by the writer and read by the reader.
use gitarena.Prelude.{
  ◌<◌, ◌≤◌, ◌≡◌, ◌∙◌, refl, ap, List, [], ◌∷◌, ◌++◌, Text, Bytes, map, to_bytes, length, All, false,
}
use mathlib.Core.List.{append-nil}
use gitarena.Error.{ok}
use gitarena.GitIo.PacketLine.{Framing, Hex, line, flush_line}
use gitarena.GitIo.Reader.{read_data_lines}
use gitarena.GitIo.Reader.Lines.{text_line, read_data_lines-text}
use gitarena.GitIo.Writer.{new}
use gitarena.GitIo.Writer.Packets.{Op, text, flushed, perform_all, perform_all-reads, payload, Fits}

module _ (frame : Framing) (hex : Hex) where
  abbrev pub message : List Text → List Op
  message ts = map text ts ++ flushed ∷ []

  abbrev pub IsLine : Text → Type 0
  IsLine t = (0 < length (to_bytes t)) × (length (to_bytes t) ≤ 65515)

  message-Fits : (ts : List Text) → All IsLine ts → All (Fits frame hex) (message ts)
  message-Fits [] h = (tt, tt)
  message-Fits (t ∷ ts) (p, h) = (p, message-Fits ts h)

  payload-message :
      (ts : List Text)
      → map (λ op. line (payload frame hex op)) (message ts)
        ≡ map text_line (map to_bytes ts) ++ line flush_line ∷ []
  payload-message [] = refl
  payload-message (t ∷ ts) = ap (λ l. text_line (to_bytes t) ∷ l) (payload-message ts)

  -- Lines of text, none of them empty and each short enough for a packet, written to a new writer
  -- with a flush behind them, are read back as they were by a reader of the writer's bytes.
  pub read-write_text :
      (ts : List Text)
      → All IsLine ts
      → (bytes : Bytes) × (perform_all frame hex (message ts) new
          ≡ (ok tt, record { inner = bytes; binary = false }))
        × (read_data_lines (frame.read bytes) ≡ map to_bytes ts)
  unfolding read_data_lines
  read-write_text ts h =
      let (bytes, e, r) = perform_all-reads frame hex (message ts) (message-Fits ts h) in
      (
        bytes,
        e,
        ap read_data_lines (r ∙ payload-message ts)
            ∙ read_data_lines-text (map to_bytes ts) (line flush_line ∷ [])
            ∙ append-nil (map to_bytes ts),
      )
