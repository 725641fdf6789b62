-- ===== src/GitIo/Writer/Packets.antt =====
-- What a client reads from a sequence of writes.
use mathlib.Core.List.{append_assoc, append-nil}
use gitarena.Prelude.{
  ℕ, ◌+◌, ◌/◌, ◌%◌, ◌*◌, ◌^◌, ◌<◌, ◌≤◌, ◌≡◌, refl, false, some, List, [], ◌∷◌, ◌++◌, Text, Bytes,
  codes, to_bytes, length, length-append, All, arith, map, ap, ◌∙◌,
}
use gitarena.Error.{ok}
use gitarena.Exec.{Exec, ◌>>=◌}
use gitarena.GitIo.Band.{Band, serialize}
use gitarena.GitIo.PacketLine.{
  Framing, Hex, Packet, data_line, flush_line, delimiter_line, response_end_line, line,
}
use gitarena.GitIo.Writer.{
  GitWriter, new, u16_to_hex, write_text, write_text_sideband, write_text_sideband_pktline,
  write_text_bytes, write_binary, write_binary_sideband, flush, flush_sideband, delimiter,
  response_end,
}

-- The operations of the writer, less `write_raw` and `append`.
pub data Op : Type 0 where
  text : Text → Op
  text_sideband text_sideband_pktline : Band → Text → Op
  text_bytes binary : Bytes → Op
  binary_sideband : Band → Bytes → Op
  flushed delimited ended : Op
  flushed_sideband : Band → Op

module _ (frame : Framing) (hex : Hex) where
  unfoldable pub perform : Op → Exec GitWriter Unit
  perform (text t) = write_text frame t
  perform (text_sideband band t) = write_text_sideband frame band t
  perform (text_sideband_pktline band t) = write_text_sideband_pktline frame hex band t
  perform (text_bytes t) = write_text_bytes frame t
  perform (binary b) = write_binary frame b
  perform (binary_sideband band b) = write_binary_sideband frame band b
  perform flushed = flush frame
  perform delimited = delimiter frame
  perform ended = response_end frame
  perform (flushed_sideband band) = flush_sideband frame band

  unfoldable pub perform_all : List Op → Exec GitWriter Unit
  perform_all [] w = (ok tt, w)
  perform_all (op ∷ ops) w = (perform op >>= λ _. perform_all ops) w

  -- What an operation hands to the framing, with the newline of text mode.
  abbrev pub payload : Op → Packet
  payload (text t) = data_line (to_bytes t ++ 10 ∷ [])
  payload (text_sideband band t) = data_line ((serialize band ++ to_bytes t) ++ 10 ∷ [])
  payload (text_sideband_pktline band t) = data_line (
      (serialize band ++ (u16_to_hex hex ((length (to_bytes t) + 4 + 1) % 2 ^ 16) ++ to_bytes t))
      ++ 10 ∷ [])
  payload (text_bytes t) = data_line (t ++ 10 ∷ [])
  payload (binary b) = data_line b
  payload (binary_sideband band b) = data_line (serialize band ++ b)
  payload flushed = flush_line
  payload delimited = delimiter_line
  payload ended = response_end_line
  payload (flushed_sideband band) = data_line (serialize band ++ codes "0000")

  -- A line that is not empty and fits in one packet.
  abbrev pub Fits : Op → Type 0
  Fits (text t) = (0 < length (to_bytes t)) × (length (to_bytes t) ≤ 65515)
  Fits (text_sideband band t) = length (to_bytes t) ≤ 65514
  Fits (text_sideband_pktline band t) = length (to_bytes t) ≤ 65510
  Fits (text_bytes t) = (0 < length t) × (length t ≤ 65515)
  Fits (binary b) = (0 < length b) × (length b ≤ 65516)
  Fits (binary_sideband band b) = length b ≤ 65515
  Fits _ = Unit

  -- From text mode the operation succeeds, adds bytes that read as the packet, and ends in text
  -- mode.
  pub record Sends (m : Exec GitWriter Unit) (p : Packet) : Type 0 where
    pub added : Bytes
    pub succeeds :
        (buffer : Bytes)
        → m (record { inner = buffer; binary = false })
          ≡ (ok tt, record { inner = buffer ++ added; binary = false })
    pub reads : (rest : Bytes) → frame.read (added ++ rest) ≡ line p ∷ frame.read rest

  length-serialize : (band : Band) (b : Bytes) → length (serialize band ++ b) ≡ length b + 1
  length-serialize Band.data_band b = omega arith
  length-serialize Band.progress b = omega arith
  length-serialize Band.error b = omega arith

  abbrev prefix : ℕ → Bytes
  prefix n = u16_to_hex hex (n % 2 ^ 16)

  length-prefix : (n : ℕ) → length (prefix n) ≡ 4
  length-prefix n = hex.length-encode (n % 2 ^ 16 / 256 ∷ n % 2 ^ 16 % 256 ∷ [])

  pub perform-Sends : (op : Op) → Fits op → Sends (perform op) (payload op)
  unfolding perform write_text write_text_sideband write_text_sideband_pktline write_text_bytes
      write_binary write_binary_sideband flush flush_sideband delimiter response_end
  perform-Sends (text t) h =
      let (b, e, r) = frame.read-text (to_bytes t) h.0 h.1 in
      record { added = b; succeeds = λ buffer. rw e; reads = r }
  perform-Sends (text_sideband band t) h =
      let n = length-serialize band (to_bytes t) in
      let (b, e, r) = frame.read-text (serialize band ++ to_bytes t) (omega arith) (omega arith) in
      record { added = b; succeeds = λ buffer. rw e; reads = r }
  perform-Sends (text_sideband_pktline band t) h =
      let p = prefix (length (to_bytes t) + 4 + 1) in
      let l = length-prefix (length (to_bytes t) + 4 + 1) in
      let m = length-append p (to_bytes t) in
      let n = length-serialize band (p ++ to_bytes t) in
      let (b, e, r) =
        frame.read-text (serialize band ++ (p ++ to_bytes t)) (omega arith) (omega arith) in
      record { added = b; succeeds = λ buffer. rw e; reads = r }
  perform-Sends (text_bytes t) h =
      let (b, e, r) = frame.read-text t h.0 h.1 in
      record { added = b; succeeds = λ buffer. rw e; reads = r }
  perform-Sends (binary b) h =
      let (b', e, r) = frame.read-binary b h.0 h.1 in
      record { added = b'; succeeds = λ buffer. rw e; reads = r }
  perform-Sends (binary_sideband band b) h =
      let n = length-serialize band b in
      let (b', e, r) = frame.read-binary (serialize band ++ b) (omega arith) (omega arith) in
      record { added = b'; succeeds = λ buffer. rw e; reads = r }
  perform-Sends flushed h = record {
    added = frame.flush;
    succeeds = λ buffer. refl;
    reads = frame.read-flush;
  }
  perform-Sends delimited h = record {
    added = frame.delimiter;
    succeeds = λ buffer. refl;
    reads = frame.read-delimiter;
  }
  perform-Sends ended h = record {
    added = frame.response_end;
    succeeds = λ buffer. refl;
    reads = frame.read-response_end;
  }
  perform-Sends (flushed_sideband band) h =
      let n = length-serialize band (codes "0000") in
      let (b, e, r) =
        frame.read-binary (serialize band ++ codes "0000") (omega arith) (omega arith) in
      record { added = b; succeeds = λ buffer. rw e; reads = r }

  -- The bytes that a list of operations adds.
  abbrev all_added : (ops : List Op) → All Fits ops → Bytes
  all_added [] h = []
  all_added (op ∷ ops) (p, h) = (perform-Sends op p).added ++ all_added ops h

  perform_all-added :
      (ops : List Op) (h : All Fits ops) (buffer : Bytes)
      → perform_all ops (record { inner = buffer; binary = false })
        ≡ (ok tt, record { inner = buffer ++ all_added ops h; binary = false })
  unfolding perform_all
  perform_all-added [] h buffer = rw append-nil
  perform_all-added (op ∷ ops) (p, h) buffer =
      let sent = perform-Sends op p in
      rw (sent.succeeds buffer) (
        perform_all-added ops h (buffer ++ sent.added)
        ∙ rw (append_assoc buffer sent.added (all_added ops h)))

  all_added-reads :
      (ops : List Op) (h : All Fits ops)
      → frame.read (all_added ops h) ≡ map (λ op. line (payload op)) ops
  all_added-reads [] h = frame.read-nil
  all_added-reads (op ∷ ops) (p, h) =
      (perform-Sends op p).reads (all_added ops h)
      ∙ ap (λ t. line (payload op) ∷ t) (all_added-reads ops h)

  -- Whatever operations are made on a new writer, each of which fits in a packet: all succeed, the
  -- writer is left in text mode, and its bytes read as one packet for each operation, in order.
  pub perform_all-reads :
      (ops : List Op)
      → All Fits ops
      → (bytes : Bytes) × (perform_all ops new ≡ (ok tt, record { inner = bytes; binary = false }))
        × (frame.read bytes ≡ map (λ op. line (payload op)) ops)
  perform_all-reads ops h = (all_added ops h, perform_all-added ops h [], all_added-reads ops h)

  -- Of a text of at most 65530 bytes the four hexadecimal digits that precede it in the side band
  -- stand for two bytes, whose big-endian value is the length of the digits, the text and the
  -- newline behind it.
  pub prefix-value :
      (t : Text)
      → length (to_bytes t) ≤ 65530
      → (hi lo : ℕ) × (hex.decode (prefix (length (to_bytes t) + 4 + 1)) ≡ some (hi ∷ lo ∷ []))
        × (hi * 256 + lo ≡ length (prefix (length (to_bytes t) + 4 + 1) ++ (to_bytes t ++ 10 ∷ [])))
  prefix-value t h =
      let n = length (to_bytes t) + 4 + 1 in
      let l = length-prefix n in
      let m = length-append (prefix n) (to_bytes t ++ 10 ∷ []) in
      let k = length-append (to_bytes t) (10 ∷ []) in
      (
        n % 2 ^ 16 / 256,
        n % 2 ^ 16 % 256,
        hex.decode-encode (n % 2 ^ 16 / 256 ∷ n % 2 ^ 16 % 256 ∷ []) (omega arith),
        omega arith,
      )
