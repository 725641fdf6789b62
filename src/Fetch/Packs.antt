-- ===== src/Fetch/Packs.antt =====
-- How a client reads the pack that it wants.
use gitarena.Prelude.{
  ◌≤◌, ◌≡◌, refl, List, [], ◌∷◌, ◌++◌, some, Text, Bytes, codes, to_bytes, length, All, map,
  unwrap_or, arith,
}
use gitarena.Error.{ok}
use gitarena.GitIo.Band
use gitarena.GitIo.PacketLine.{Framing, Hex, Packet, data_line, flush_line, line}
use gitarena.GitIo.Writer.{GitWriter, new}
use gitarena.GitIo.Writer
use gitarena.GitIo.Writer.Packets.{text, text_sideband, binary_sideband, perform}
use gitarena.GitIo.Writer.Emits.{Emits, Emits-nothing, Emits-perform, Emits-then, Emits-writer}
use gitarena.GitIo.Progress.{empty, write_lines, to_writer}
use gitarena.UploadPack.{Refs}
use gitarena.Packing.{Objects, Packer, build_pack}
use gitarena.Fetch.{
  none, Fetch, defaults, read_options, process_haves, process_wants, fetch, enumerating, total_line,
  write_pack,
}
use gitarena.Fetch.Answers.{packet, section-reads}

-- A line of progress in a packet that text mode ends with a newline, and in one as it is.
abbrev pub progress_packet : Text → Packet
progress_packet t = data_line ((2 ∷ to_bytes t) ++ 10 ∷ [])

abbrev pub raw_progress : Text → Packet
raw_progress t = data_line (2 ∷ to_bytes t)

abbrev pub pack_packet : Bytes → Packet
pack_packet pack = data_line (1 ∷ pack)

module _ {ObjectId Commit : Type 0} (objects : Objects ObjectId Commit) where
  -- The last line for a builder.
  abbrev pub totals : Packer ObjectId → Text
  totals builder =
      total_line (objects.object_count builder.inserted) (unwrap_or 0 builder.progress.delta_total)

  -- The pack of these wants is built, and it and each line of progress fit in one packet.
  pub record Builds (wants : List Text) (pack : Bytes) (builder : Packer ObjectId) : Type 0 where
    pub is_built :
        build_pack objects wants (record { inserted = []; progress = empty }) ≡ (ok pack, builder)
    pub pack_fits : length pack ≤ 65515
    pub lines_fit : All (λ l. length (to_bytes l) ≤ 65515) builder.progress.lines
    pub first_fits : length (to_bytes (enumerating (length wants))) ≤ 65514
    pub last_fits : length (to_bytes (totals builder)) ≤ 65514

  -- The packets of a pack.
  abbrev pub pack_packets : Bytes → Packer ObjectId → List Packet
  pack_packets pack builder =
      map raw_progress builder.progress.lines
      ++ (pack_packet pack ∷ progress_packet (totals builder) ∷ [])

module _ (frame : Framing) (hex : Hex) where
  write_lines-Emits :
      (lines : List Text)
      → All (λ l. length (to_bytes l) ≤ 65515) lines
      → Emits frame (write_lines frame lines) (map raw_progress lines)
  unfolding write_lines perform
  write_lines-Emits [] h = Emits-nothing frame
  write_lines-Emits (l ∷ lines) (p, h) =
      Emits-then frame _ _ _ _
        (Emits-perform frame hex (binary_sideband Band.progress (to_bytes l)) p)
        (write_lines-Emits lines h)

  module _ {ObjectId Commit : Type 0} (objects : Objects ObjectId Commit) where
    write_pack-Emits :
        (options : Fetch) (pack : Bytes) (builder : Packer ObjectId)
        → Builds objects options.want pack builder
        → Emits frame (write_pack frame objects options) (pack_packets objects pack builder)
    unfolding to_writer perform
    write_pack-Emits options pack builder b =
        let (w, e, lines) =
          Emits-writer frame _ _ (write_lines-Emits builder.progress.lines b.lines_fit) in
        let all = Emits-then frame _ _ _ _ lines (
          Emits-then frame _ _ _ _
            (Emits-perform frame hex (binary_sideband Band.data_band pack) b.pack_fits)
            (Emits-perform frame hex (text_sideband Band.progress (totals objects builder))
              b.last_fits)) in
        record {
          added = all.added;
          succeeds = λ buffer. rw (b.is_built, e) (all.succeeds buffer);
          reads = all.reads;
        }

    process_wants-Emits :
        (options : Fetch) (pack : Bytes) (builder : Packer ObjectId)
        → Builds objects options.want pack builder
        → (w : GitWriter) × (process_wants frame objects options ≡ ok (some w))
          × Emits frame (Writer.append frame w) (
              packet (codes "packfile")
              ∷ progress_packet (enumerating (length options.want))
              ∷ pack_packets objects pack builder)
    unfolding process_wants perform
    process_wants-Emits options pack builder b =
        let (w, e, emits) = Emits-writer frame _ _ (
          Emits-then frame _ _ _ _
            (Emits-perform frame hex (text (codes "packfile")) (omega arith, omega arith))
            (Emits-then frame _ _ _ _
              (Emits-perform frame hex
                (text_sideband Band.progress (enumerating (length options.want))) b.first_fits)
              (write_pack-Emits options pack builder b))) in
        (w, rw e refl, emits)

    process_haves-none :
        (refs : Refs) (options : Fetch)
        → options.have ≡ []
        → process_haves frame refs options ≡ ok none
    unfolding process_haves
    process_haves-none refs options h = rw h refl

    -- A client that names nothing it has reads the pack of what it wants, if the pack is built, and it
    -- (at most 65515 bytes) and each line of progress fit in one packet: after the name of the section
    -- the number of wanted objects, the builder's progress, the pack in the band for data, the totals,
    -- and a flush.
    pub fetch-pack :
        (refs : Refs) (input : List Bytes) (options : Fetch) (pack : Bytes)
        (builder : Packer ObjectId)
        → read_options input defaults ≡ ok options
        → options.have ≡ []
        → Builds objects options.want pack builder
        → (bytes : Bytes) × (fetch frame objects refs input ≡ ok bytes)
          × (frame.read bytes
              ≡ map line (
                  packet (codes "packfile")
                  ∷ progress_packet (enumerating (length options.want))
                  ∷ (pack_packets objects pack builder ++ flush_line ∷ [])))
    unfolding fetch
    fetch-pack refs input options pack builder asked no_have b =
        let (w, e, emits) = process_wants-Emits options pack builder b in
        let (bytes, f, r) = section-reads frame hex refs objects w _ emits in
        (bytes, rw (asked, process_haves-none refs options no_have, e) f, r)
