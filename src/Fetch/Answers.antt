-- ===== src/Fetch/Answers.antt =====
-- What a client reads from the answer.
use gitarena.Prelude.{
  ◌≡◌, refl, ap, ◌∙◌, Bool, true, false, Option, none, some, List, [], ◌∷◌, ◌++◌, Text, Bytes,
  codes, to_bytes, All, map, is_empty, arith, if◌then◌else◌,
}
use gitarena.Error.{ok}
use gitarena.Exec.{Exec, ◌>>=◌, ◌>>◌, pure}
use gitarena.GitIo.PacketLine.{Framing, Hex, Packet, data_line, flush_line, line}
use gitarena.GitIo.Writer.{GitWriter, new, write_text, flush}
use gitarena.GitIo.Writer
use gitarena.GitIo.Writer.Packets.{text, Fits, perform}
use gitarena.GitIo.Writer.Emits.{
  Emits, Emits-nothing, Emits-perform, Emits-flush, Emits-then, Emits-writer, Emits-reads,
}
use gitarena.UploadPack.{Refs}
use gitarena.Packing.{Objects}
use mathlib.Core.Path.{subst}
use gitarena.Fetch.{
  output, Fetch, acknowledge, defaults, read_options, name_of, write_haves, process_haves, fetch,
  write_section,
}

-- A line of text as a packet.
abbrev pub packet : Text → Packet
packet t = data_line (to_bytes t ++ 10 ∷ [])

abbrev pub ack : Text → Text
ack name = codes "ACK " ++ name

abbrev keep_name : Option Text → List Text → List Text
keep_name none names = names
keep_name (some name) names = name ∷ names

-- The names of the references that are found.
abbrev pub found_names : Refs → List Text → List Text
found_names refs [] = []
found_names refs (have ∷ haves) =
    keep_name (name_of (refs.find_reference have)) (found_names refs haves)

-- The lines that acknowledge these names.
abbrev pub acknowledgments : List Text → List Text
acknowledgments [] = codes "NAK" ∷ []
acknowledgments (name ∷ names) = map ack (name ∷ names)

-- The lines that are still to come for these names; the flag says whether one was written before.
abbrev remaining : List Text → Bool → List Text
remaining (name ∷ names) written_one = map ack (name ∷ names)
remaining [] true = []
remaining [] false = codes "NAK" ∷ []

remaining-false : (names : List Text) → remaining names false ≡ acknowledgments names
remaining-false [] = refl
remaining-false (name ∷ names) = refl

map-ack : (names : List Text) → remaining names true ≡ map ack names
map-ack [] = refl
map-ack (name ∷ names) = refl

module _ (frame : Framing) (hex : Hex) where
  abbrev finish : Bool → Exec GitWriter Unit
  finish written_one = if written_one then pure tt else write_text frame (codes "NAK")

  line-Emits :
      (t : Text) → Fits frame hex (text t) → Emits frame (write_text frame t) (packet t ∷ [])
  unfolding perform
  line-Emits t h = Emits-perform frame hex (text t) h

  module _ (refs : Refs) where
    finish-Emits :
        (written_one : Bool)
        → Emits frame (finish written_one) (map packet (remaining [] written_one))
    finish-Emits true = Emits-nothing frame
    finish-Emits false = line-Emits (codes "NAK") (omega arith, omega arith)

    have-Emits :
        (found : Option Text) (haves names : List Text) (written_one : Bool)
        → All (λ n. Fits frame hex (text (ack n))) (keep_name found names)
        → ((flag : Bool)
            → All (λ n. Fits frame hex (text (ack n))) names
            → Emits frame
                (write_haves frame refs haves flag >>= finish)
                (map packet (remaining names flag)))
        → Emits frame
            ((acknowledge frame refs found written_one >>= write_haves frame refs haves) >>= finish)
            (map packet (remaining (keep_name found names) written_one))
    have-Emits none haves names written_one h run = run written_one h
    have-Emits (some name) haves names written_one (p, h) run =
        let sent = line-Emits (ack name) p in
        let rest =
          subst (λ l. Emits frame (write_haves frame refs haves true >>= finish) (map packet l))
            (map-ack names) (run true h) in
        let both =
          Emits-then frame (write_text frame (ack name))
            (write_haves frame refs haves true >>= finish) (packet (ack name) ∷ [])
            (map packet (map ack names)) sent rest in
        record {
          added = both.added;
          succeeds = λ buffer.
              rw (sent.succeeds buffer) (rw (sent.succeeds buffer) at (both.succeeds buffer));
          reads = both.reads;
        }

    write_haves-Emits :
        (haves : List Text) (written_one : Bool)
        → All (λ n. Fits frame hex (text (ack n))) (found_names refs haves)
        → Emits frame
            (write_haves frame refs haves written_one >>= finish)
            (map packet (remaining (found_names refs haves) written_one))
    unfolding write_haves
    write_haves-Emits [] written_one h = finish-Emits written_one
    write_haves-Emits (have ∷ haves) written_one h =
        have-Emits (name_of (refs.find_reference have)) haves (found_names refs haves) written_one h
          (write_haves-Emits haves)

    process_haves-Emits :
        (options : Fetch)
        → is_empty options.have ≡ false
        → All (λ n. Fits frame hex (text (ack n))) (found_names refs options.have)
        → (w : GitWriter) × (process_haves frame refs options ≡ ok (some w))
          × Emits frame (Writer.append frame w) (
              packet (codes "acknowledgments")
              ∷ map packet (remaining (found_names refs options.have) false))
    unfolding process_haves
    process_haves-Emits options some_have h =
        let all =
          Emits-then frame (write_text frame (codes "acknowledgments"))
            (write_haves frame refs options.have false >>= finish)
            (packet (codes "acknowledgments") ∷ [])
            (map packet (remaining (found_names refs options.have) false))
            (line-Emits (codes "acknowledgments") (omega arith, omega arith))
            (write_haves-Emits options.have false h) in
        let (w, e, emits) = Emits-writer frame _ _ all in (w, rw (some_have, e) refl, emits)

    module _ {ObjectId Commit : Type 0} (objects : Objects ObjectId Commit) where
      -- A section and the flush behind it.
      pub section-reads :
          (w : GitWriter) (ps : List Packet)
          → Emits frame (Writer.append frame w) ps
          → (bytes : Bytes) × (output
                ((write_section frame objects refs (some w) >> flush frame) new)
              ≡ ok bytes)
            × (frame.read bytes ≡ map line (ps ++ flush_line ∷ []))
      section-reads w ps h =
          let (bytes, e, r) = Emits-reads frame _ _ (
            Emits-then frame (Writer.append frame w) (flush frame) ps (flush_line ∷ []) h
              (Emits-flush frame)) in
          (bytes, ap output e, r)

      -- A client that names what it has reads the acknowledgments and a flush: one line for each
      -- reference that is found, in the order of the request, or NAK if none is. It gets no pack in this
      -- answer, whatever it wants.
      pub fetch-acknowledgments :
          (input : List Bytes) (options : Fetch)
          → read_options input defaults ≡ ok options
          → is_empty options.have ≡ false
          → All (λ n. Fits frame hex (text (ack n))) (found_names refs options.have)
          → (bytes : Bytes) × (fetch frame objects refs input ≡ ok bytes)
            × (frame.read bytes
                ≡ map line (
                    packet (codes "acknowledgments")
                    ∷ (map packet (acknowledgments (found_names refs options.have))
                        ++ flush_line ∷ [])))
      unfolding fetch
      fetch-acknowledgments input options asked some_have h =
          let (w, e, emits) = process_haves-Emits options some_have h in
          let (bytes, f, r) = section-reads w _ emits in
          (
            bytes,
            rw (asked, e) f,
            r
                ∙ ap
                    (λ l.
                      map line
                        (packet (codes "acknowledgments") ∷ (map packet l ++ flush_line ∷ [])))
                    (remaining-false (found_names refs options.have)),
          )
