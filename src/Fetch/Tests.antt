-- ===== src/Fetch/Tests.antt =====
-- Tests of a fetch.
use gitarena.Prelude.{
  ℕ, ◌≡◌, refl, some, none, List, [], ◌∷◌, ◌++◌, Bytes, codes, map, text_eq, if◌then◌else◌, arith,
  strip_prefix,
}
use gitarena.Prelude.Utf8.{from_utf8}
use gitarena.Error.{ok}
use gitarena.GitIo.PacketLine.{line, flush_line}
use gitarena.GitIo.Progress.{empty, callback, describe}
use gitarena.UploadPack.{Refs, Reference}
use gitarena.Packing.{
  Packer, build_pack, insert_wanted, insert_commit_with_parents, insert_with, for_each,
}
use gitarena.Fetch.{Fetch, defaults, read_option, read_options, fetch, enumerating, total_line}
use gitarena.Fetch.Options.{Asks, Collected, read_options-Asks}
use gitarena.Fetch.Answers.{packet, acknowledgments, found_names, fetch-acknowledgments}
use gitarena.Fetch.Packs.{pack_packets, progress_packet, fetch-pack}
use gitarena.Prelude.Decimal.{decimal}
use gitarena.Samples.{sample_framing, sample_hex, sample_objects}

abbrev asked : List Bytes
asked = codes "thin-pack" ∷ codes "have main" ∷ codes "done" ∷ (255 ∷ []) ∷ []

asked-Asks : Asks asked (codes "thin-pack" ∷ codes "have main" ∷ codes "done" ∷ [])
unfolding from_utf8 text_eq
asked-Asks = Asks.continued refl refl (Asks.continued refl refl (Asks.finished refl refl))

read_options-Asks_example :
    (o : Fetch) × (read_options asked defaults ≡ ok o)
    × Collected defaults o (codes "thin-pack" ∷ codes "have main" ∷ codes "done" ∷ [])
read_options-Asks_example = read_options-Asks asked _ defaults asked-Asks

abbrev main : Reference
main = record {
  name = some (codes "refs/heads/main");
  target = some (codes "1f");
  symbolic_target = none;
  target_peel = none;
}

abbrev refs : Refs
refs = record {
  find_reference = λ name. if text_eq name (codes "main") then some main else none;
  references_glob = λ glob. none;
  references = some [];
}

abbrev options : Fetch
options = record defaults { have = codes "main" ∷ codes "other" ∷ [] }

fetch-acknowledgments_example :
    (bytes : Bytes) × (fetch sample_framing sample_objects refs
        (codes "have main" ∷ codes "have other" ∷ [])
      ≡ ok bytes)
    × (sample_framing.read bytes
        ≡ map line (
            packet (codes "acknowledgments")
            ∷ (map packet (acknowledgments (found_names refs options.have)) ++ flush_line ∷ [])))
unfolding read_options read_option from_utf8 text_eq strip_prefix
fetch-acknowledgments_example =
    fetch-acknowledgments sample_framing sample_hex refs sample_objects
      (codes "have main" ∷ codes "have other" ∷ []) options refl refl
      ((omega arith, omega arith), tt)

abbrev wants_one : Fetch
wants_one = record defaults { want = codes "1" ∷ [] }

abbrev builder : Packer ℕ
builder = (build_pack sample_objects wants_one.want (record { inserted = []; progress = empty })).1

fetch-pack_example :
    (bytes : Bytes) × (fetch sample_framing sample_objects refs (codes "want 1" ∷ codes "done" ∷ [])
      ≡ ok bytes)
    × (sample_framing.read bytes
        ≡ map line (
            packet (codes "packfile")
            ∷ progress_packet (enumerating 1)
            ∷ (pack_packets sample_objects (2 ∷ []) builder ++ flush_line ∷ [])))
unfolding read_options read_option from_utf8 text_eq strip_prefix build_pack insert_wanted
    insert_commit_with_parents insert_with for_each callback describe decimal total_line
fetch-pack_example =
    fetch-pack sample_framing sample_hex sample_objects refs (codes "want 1" ∷ codes "done" ∷ [])
      wants_one (2 ∷ []) builder refl refl
      (record {
        is_built = refl;
        pack_fits = omega arith;
        lines_fit = (omega arith, (omega arith, tt));
        first_fits = omega arith;
        last_fits = omega arith;
      })
