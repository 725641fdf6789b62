-- ===== src/GitIo/Writer/Tests.antt =====
-- Tests of the writer.
use gitarena.Prelude.{◌≡◌, ◌∷◌, [], List, false, Text, Bytes, codes, to_bytes, map, arith}
use gitarena.Error.{ok}
use gitarena.GitIo.Band
use gitarena.GitIo.PacketLine.{line}
use gitarena.GitIo.Reader.{read_data_lines}
use gitarena.GitIo.Writer.{new}
use gitarena.GitIo.Writer.Packets.{
  Op, text, text_sideband_pktline, flushed, perform_all, perform_all-reads, payload,
}
use gitarena.GitIo.RoundTrip.{message, read-write_text}
use gitarena.Samples.{sample_framing, sample_hex}

abbrev ops : List Op
ops = text (codes "ack") ∷ text_sideband_pktline Band.data_band (codes "ok") ∷ flushed ∷ []

perform_all-reads_example :
    (bytes : Bytes) × (perform_all sample_framing sample_hex ops new
      ≡ (ok tt, record { inner = bytes; binary = false }))
    × (sample_framing.read bytes ≡ map (λ op. line (payload sample_framing sample_hex op)) ops)
perform_all-reads_example = perform_all-reads sample_framing sample_hex ops (ground arith)

abbrev texts : List Text
texts = codes "hello" ∷ codes "world" ∷ []

read-write_text_example :
    (bytes : Bytes) × (perform_all sample_framing sample_hex
        (message sample_framing sample_hex texts)
        new
      ≡ (ok tt, record { inner = bytes; binary = false }))
    × (read_data_lines (sample_framing.read bytes) ≡ map to_bytes texts)
read-write_text_example = read-write_text sample_framing sample_hex texts (ground arith)
