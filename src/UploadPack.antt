-- ===== src/UploadPack.antt =====
-- src/git/ls_refs.rs and src/git/capabilities.rs: what a server tells about its references.
pub mod Capabilities
pub mod Options
use gitarena.Prelude.{
  ℕ, Bool, true, false, Option, none, some, List, [], ◌∷◌, ◌++◌, Text, Bytes, codes, text_eq,
  strip_prefix, is_empty, unwrap_or, if◌then◌else◌,
}
use gitarena.Prelude.Utf8.{from_utf8}
use gitarena.Oid.{null_oid}
use gitarena.Error.{Result, ok, err, panic, other, ok_or, ◌>>=◌ as then_result}
use gitarena.Exec.{Exec, ◌>>=◌, ◌>>◌, pure, lift}
use gitarena.GitIo.PacketLine.{Framing}
use gitarena.GitIo.Writer.{GitWriter, new, bytes_of, write_text, flush}
use gitarena.GitIo.Writer

-- `LsRefs`
pub record LsRefs : Type 0 where
  pub peel : Bool
  pub symrefs : Bool
  pub prefixes : List Text
  pub unborn : Bool

-- A reference as the crate `git2` gives it: its name if that is UTF-8, the object id that it names
-- directly, the name that it stands for, and the object id of a tag's target.
pub record Reference : Type 0 where
  pub name : Option Text
  pub target : Option Text
  pub symbolic_target : Option Text
  pub target_peel : Option Text

-- The look-ups in a repository; none is an error, which is only logged. `references_glob` and
-- `references` fail as a whole, or for single references.
pub record Refs : Type 0 where
  pub find_reference : Text → Option Reference
  pub references_glob : Text → Option (List (Option Reference))
  pub references : Option (List (Option Reference))

unfoldable pub defaults : LsRefs
defaults = record { peel = false; symrefs = false; prefixes = []; unborn = false }

abbrev pub add_prefix : Option Text → LsRefs → LsRefs
add_prefix none options = options
add_prefix (some stripped) options = record options { prefixes = options.prefixes ++ stripped ∷ [] }

-- One round of the loop over the lines: the four tests, one after the other.
unfoldable pub read_option : Text → LsRefs → LsRefs
read_option line options =
    let peeled = if text_eq line (codes "peel") then record options { peel = true } else options in
    let symbolic =
      if text_eq line (codes "symrefs") then record peeled { symrefs = true } else peeled in
    let prefixed = add_prefix (strip_prefix line (codes "ref-prefix ")) symbolic in
    if text_eq line (codes "unborn") then record prefixed { unborn = true } else prefixed

-- A line that is no UTF-8 is an error.
unfoldable pub read_options : List Bytes → LsRefs → Result LsRefs
unfolding read_option
read_options [] options = ok options
read_options (raw_line ∷ input) options =
    then_result (ok_or other (from_utf8 raw_line))
      (λ line. read_options input (read_option line options))

-- A reference that stands for another one.
abbrev symbolic_line : Bool → Text → Option Reference → Option Text
symbolic_line unborn name none = none
symbolic_line unborn name (some to) = elim to.target [
  | some oid ↦
      some (oid ++ (codes " " ++ (name ++ (codes " symref-target:" ++ unwrap_or [] to.name))))
  | none ↦
      if unborn
      then some (codes "unborn " ++ (name ++ (codes " symref-target:" ++ unwrap_or [] to.name)))
      else none
]

abbrev add_peeled : Bool → Option Text → Option Text → Option Text
add_peeled true (some peel) (some line) = some (line ++ (codes " peeled:" ++ peel))
add_peeled wanted peel line = line

module _ (refs : Refs) where
  -- The first part of a line, by what the reference names.
  unfoldable pub base_line : Reference → LsRefs → Option Text
  base_line reference options =
      let name = unwrap_or [] reference.name in
      elim reference.target [
        | some oid ↦ some (oid ++ (codes " " ++ name))
        | none ↦ elim reference.symbolic_target [
          | some to ↦ symbolic_line options.unborn name (refs.find_reference to)
          | none ↦ if options.unborn then some (codes "unborn " ++ name) else none
        ]
      ]

  unfoldable pub build_ref_line : Option Reference → LsRefs → Option Text
  build_ref_line none options = none
  build_ref_line (some reference) options =
      add_peeled options.peel reference.target_peel (base_line reference options)

  abbrev keep : Option Text → List Text → List Text
  keep none lines = lines
  keep (some line) lines = line ∷ lines

  unfoldable pub build_lines : List (Option Reference) → LsRefs → List Text
  build_lines [] options = []
  build_lines (r ∷ rs) options = keep (build_ref_line r options) (build_lines rs options)

  unfoldable pub build_ref_list : Text → LsRefs → Result (List Text)
  build_ref_list prefix options =
      then_result (ok_or other (refs.references_glob (prefix ++ codes "*")))
        (λ found. ok (build_lines found options))

-- The bytes of a writer whose operations succeeded.
abbrev pub output : Result (Unit {0}) × GitWriter → Result Bytes
output (ok tt, w) = ok (bytes_of w)
output (err e, w) = err e
output (panic, w) = panic

module _ (frame : Framing) (refs : Refs) where
  abbrev write_some : Option Text → Exec GitWriter Unit
  write_some none = pure tt
  write_some (some line) = Writer.write_text frame line

  unfoldable pub write_list : List Text → Exec GitWriter Unit
  write_list [] = pure tt
  write_list (line ∷ lines) =
      (if is_empty line then Writer.flush frame else Writer.write_text frame line)
      >> write_list lines

  abbrev write_prefix : LsRefs → Text → Exec GitWriter Unit
  write_prefix options prefix = do
    (if text_eq prefix (codes "HEAD")
        then write_some (build_ref_line refs (refs.find_reference (codes "HEAD")) options)
        else pure tt)
    lines ← lift (build_ref_list refs prefix options)
    write_list lines

  -- The loop over the prefixes.
  unfoldable pub write_prefixes : LsRefs → List Text → Exec GitWriter Unit
  write_prefixes options [] = pure tt
  write_prefixes options (prefix ∷ prefixes) =
      (if is_empty prefix then pure tt else write_prefix options prefix)
      >> write_prefixes options prefixes

  unfoldable pub ls_refs : List Bytes → Result Bytes
  ls_refs input =
      then_result (read_options input defaults)
        (λ options. output ((write_prefixes options options.prefixes >> Writer.flush frame) new))
