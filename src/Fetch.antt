-- ===== src/Fetch.antt =====
-- src/git/fetch.rs: the answer to the command `fetch`.
pub mod Options
pub mod Answers
pub mod Packs
mod Tests
use gitarena.Prelude.{
  ℕ, Bool, true, false, Option, none, some, List, [], ◌∷◌, ◌++◌, Text, Bytes, codes, text_eq,
  strip_prefix, is_empty, unwrap_or, length, if◌then◌else◌,
}
use gitarena.Prelude.Decimal.{decimal}
use gitarena.Prelude.Utf8.{from_utf8}
use gitarena.Error.{Result, ok, err, panic, other, ok_or, ◌>>=◌ as then_result}
use gitarena.Exec.{Exec, ◌>>=◌, ◌>>◌, pure, lift}
use gitarena.GitIo.Band
use gitarena.GitIo.PacketLine.{Framing}
use gitarena.GitIo.Progress.{ProgressWriter, empty, to_writer}
use gitarena.GitIo.Writer.{GitWriter, new}
use gitarena.GitIo.Writer
use gitarena.UploadPack.{Refs, Reference, output}
use gitarena.Packing.{Objects, Packer, build_pack}

pub record Fetch : Type 0 where
  pub thin_pack : Bool
  pub no_progress : Bool
  pub include_tag : Bool
  pub ofs_delta : Bool
  pub have : List Text
  pub want : List Text

abbrev pub defaults : Fetch
defaults = record {
  thin_pack = false;
  no_progress = false;
  include_tag = false;
  ofs_delta = false;
  have = [];
  want = [];
}

abbrev pub add_have : Option Text → Fetch → Fetch
add_have none options = options
add_have (some stripped) options = record options { have = options.have ++ stripped ∷ [] }

abbrev pub add_want : Option Text → Fetch → Fetch
add_want none options = options
add_want (some stripped) options = record options { want = options.want ++ stripped ∷ [] }

-- The four tests for a flag.
abbrev pub flagged : Text → Fetch → Fetch
flagged line o =
    let thin = if text_eq line (codes "thin-pack") then record o { thin_pack = true } else o in
    let quiet =
      if text_eq line (codes "no-progress") then record thin { no_progress = true } else thin in
    let tags =
      if text_eq line (codes "include-tag") then record quiet { include_tag = true } else quiet in
    if text_eq line (codes "ofs-delta") then record tags { ofs_delta = true } else tags

-- One round of the loop over the lines, less the test for `done`.
unfoldable pub read_option : Text → Fetch → Fetch
read_option line o =
    let had = add_have (strip_prefix line (codes "have ")) (flagged line o) in
    add_want (strip_prefix line (codes "want ")) had

-- The loop, which the line `done` ends. A line that is no UTF-8 is an error.
unfoldable pub read_options : List Bytes → Fetch → Result Fetch
unfolding read_option
read_options [] options = ok options
read_options (raw_line ∷ input) options =
    let rest = read_options input in
    then_result (ok_or other (from_utf8 raw_line)) (λ line.
      if text_eq line (codes "done")
      then ok (read_option line options)
      else rest (read_option line options))

-- A writer whose operations succeeded.
abbrev pub finished : Result (Unit {0}) × GitWriter → Result GitWriter
finished (ok tt, w) = ok w
finished (err e, w) = err e
finished (panic, w) = panic

-- The bytes of the pack beside what is left of its builder.
abbrev pub built :
    {ObjectId : Type 0} → Result Bytes × Packer ObjectId → Result (Bytes × Packer ObjectId)
built (ok pack, p) = ok (pack, p)
built (err e, p) = err e
built (panic, p) = panic

abbrev pub name_of : Option Reference → Option Text
name_of none = none
name_of (some reference) = reference.name

-- The last line of the progress.
unfoldable pub total_line : ℕ → ℕ → Text
total_line total total_delta =
    codes "Total "
    ++ (decimal total
        ++ (codes " (delta "
            ++ (decimal total_delta ++ codes "), reused 0 (delta 0), pack-reused 0")))

abbrev pub enumerating : ℕ → Text
enumerating n = codes "Enumerating objects: " ++ (decimal n ++ codes ", done.")

module _ (frame : Framing) where
  module _ (refs : Refs) where
    abbrev pub acknowledge : Option Text → Bool → Exec GitWriter Bool
    acknowledge none written_one = pure written_one
    acknowledge (some name) written_one = do
      Writer.write_text frame (codes "ACK " ++ name)
      pure true

    -- The loop over what the client has, with the flag that it sets.
    unfoldable pub write_haves : List Text → Bool → Exec GitWriter Bool
    write_haves [] written_one = pure written_one
    write_haves (have ∷ haves) written_one =
        acknowledge (name_of (refs.find_reference have)) written_one >>= write_haves haves

    unfoldable pub process_haves : Fetch → Result (Option GitWriter)
    unfolding write_haves
    process_haves options =
        if is_empty options.have
        then ok none
        else then_result
            (finished (
              (do
                Writer.write_text frame (codes "acknowledgments")
                written_one ← write_haves options.have false
                (if written_one then pure tt else Writer.write_text frame (codes "NAK")))
                new))
            (λ writer. ok (some writer))

  module _ {ObjectId Commit : Type 0} (objects : Objects ObjectId Commit) where
    abbrev pub write_pack : Fetch → Exec GitWriter Unit
    write_pack options = do
      (buffer, builder) ←
          lift
            (built (build_pack objects options.want (record { inserted = []; progress = empty })))
      progress ← lift (finished (to_writer frame builder.progress))
      Writer.append frame progress
      Writer.write_binary_sideband frame Band.data_band buffer
      Writer.write_text_sideband frame Band.progress (
          total_line (objects.object_count builder.inserted)
            (unwrap_or 0 builder.progress.delta_total))

    unfoldable pub process_wants : Fetch → Result (Option GitWriter)
    process_wants options =
        then_result
          (finished (
            (do
              Writer.write_text frame (codes "packfile")
              Writer.write_text_sideband frame Band.progress (enumerating (length options.want))
              write_pack options)
              new))
          (λ writer. ok (some writer))

    module _ (refs : Refs) where
      abbrev pub write_section : Option GitWriter → Exec GitWriter Unit
      write_section none = pure tt
      write_section (some writer) = Writer.append frame writer

      -- The two branches on what the client has.
      abbrev pub section : Fetch → Option GitWriter → Result (Option GitWriter)
      section options (some acknowledgments) = ok (some acknowledgments)
      section options none = process_wants options

      unfoldable pub fetch : List Bytes → Result Bytes
      fetch input = then_result (read_options input defaults) (λ options.
          then_result (then_result (process_haves refs options) (section options))
            (λ found. output ((write_section found >> Writer.flush frame) new)))
