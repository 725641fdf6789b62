-- ===== src/GitIo/Writer/Emits.antt =====
-- Computations that write several packets, composed.
use mathlib.Core.List.{append_assoc, append-nil}
use gitarena.Prelude.{false, ◌≡◌, refl, List, [], ◌∷◌, ◌++◌, Bytes, map, ap, ◌∙◌, sym}
use gitarena.Error.{ok}
use gitarena.Exec.{Exec, ◌>>◌, pure}
use gitarena.GitIo.PacketLine.{Framing, Hex, Packet, line, flush_line}
use gitarena.GitIo.Writer.{GitWriter, new, append, write_raw, flush}
use gitarena.GitIo.Writer.Packets.{Op, perform, payload, Fits, perform-Sends}

module _ (frame : Framing) where
  -- In text mode the computation succeeds, adds bytes that read as these packets, and ends in text
  -- mode.
  pub record Emits (m : Exec GitWriter Unit) (ps : List Packet) : Type 0 where
    pub added : Bytes
    pub succeeds :
        (buffer : Bytes)
        → m (record { inner = buffer; binary = false })
          ≡ (ok tt, record { inner = buffer ++ added; binary = false })
    pub reads : (rest : Bytes) → frame.read (added ++ rest) ≡ map line ps ++ frame.read rest

  pub Emits-nothing : Emits (pure tt) []
  Emits-nothing = record { added = []; succeeds = λ buffer. rw append-nil; reads = λ rest. refl }

  pub Emits-perform :
      (hex : Hex) (op : Op)
      → Fits frame hex op
      → Emits (perform frame hex op) (payload frame hex op ∷ [])
  Emits-perform hex op h =
      let sent = perform-Sends frame hex op h in
      record { added = sent.added; succeeds = sent.succeeds; reads = sent.reads }

  pub Emits-flush : Emits (flush frame) (flush_line ∷ [])
  unfolding flush
  Emits-flush = record { added = frame.flush; succeeds = λ buffer. refl; reads = frame.read-flush }

  map-line : (ps qs : List Packet) → map line (ps ++ qs) ≡ map line ps ++ map line qs
  map-line [] qs = refl
  map-line (p ∷ ps) qs = ap (λ t. line p ∷ t) (map-line ps qs)

  joined :
      (ps qs : List Packet) (b c : Bytes)
      → ((rest : Bytes) → frame.read (b ++ rest) ≡ map line ps ++ frame.read rest)
      → ((rest : Bytes) → frame.read (c ++ rest) ≡ map line qs ++ frame.read rest)
      → (rest : Bytes) → frame.read ((b ++ c) ++ rest) ≡ map line (ps ++ qs) ++ frame.read rest
  joined ps qs b c h k rest =
      ap frame.read (append_assoc b c rest)
      ∙ h (c ++ rest)
      ∙ ap (λ t. map line ps ++ t) (k rest)
      ∙ sym (append_assoc (map line ps) (map line qs) (frame.read rest))
      ∙ ap (λ t. t ++ frame.read rest) (sym (map-line ps qs))

  -- One after the other.
  pub Emits-then :
      (m n : Exec GitWriter Unit) (ps qs : List Packet)
      → Emits m ps
      → Emits n qs
      → Emits (m >> n) (ps ++ qs)
  Emits-then m n ps qs h k = record {
    added = h.added ++ k.added;
    succeeds = λ buffer.
        rw (h.succeeds buffer)
          (k.succeeds (buffer ++ h.added) ∙ rw (append_assoc buffer h.added k.added));
    reads = joined ps qs h.added k.added h.reads k.reads;
  }

  -- The writer that the computation leaves behind, if it starts from a new one.
  pub Emits-writer :
      (m : Exec GitWriter Unit) (ps : List Packet)
      → Emits m ps
      → (w : GitWriter) × (m new ≡ (ok tt, w)) × Emits (append frame w) ps
  unfolding append write_raw
  Emits-writer m ps h = (
    record { inner = h.added; binary = false },
    h.succeeds [],
    record { added = h.added; succeeds = λ buffer. refl; reads = h.reads },
  )

  -- What a reader gets from the bytes of a new writer.
  pub Emits-reads :
      (m : Exec GitWriter Unit) (ps : List Packet)
      → Emits m ps
      → (bytes : Bytes) × (m new ≡ (ok tt, record { inner = bytes; binary = false }))
        × (frame.read bytes ≡ map line ps)
  Emits-reads m ps h = (
    h.added,
    h.succeeds [],
    ap frame.read (sym (append-nil h.added))
        ∙ h.reads []
        ∙ ap (λ t. map line ps ++ t) frame.read-nil
        ∙ append-nil (map line ps),
  )
