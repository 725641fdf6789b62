-- ===== src/UploadPack/Capabilities.antt =====
-- src/git/capabilities.rs and `ls_refs_all` of src/git/ls_refs.rs: the two advertisements. `version`
-- is that of the package.
use gitarena.Prelude.{
  Bool, true, false, Option, none, some, List, [], ◌∷◌, ◌++◌, Text, Bytes, codes,
}
use gitarena.Oid.{null_oid}
use gitarena.Error.{Result, other, ok_or}
use gitarena.Exec.{Exec, ◌>>=◌, ◌>>◌, pure, lift}
use gitarena.GitIo.PacketLine.{Framing}
use gitarena.GitIo.Writer.{GitWriter, new, write_text, flush}
use gitarena.UploadPack.{Reference, Refs, output}

-- The name and the object id of a reference that has both.
abbrev pub direct : Option Reference → Option (Text × Text)
direct none = none
direct (some reference) = elim reference.name [
  | none ↦ none
  | some name ↦ elim reference.target [ none ↦ none | some oid ↦ some (oid, name) ]
]

module _ (version : Text) where
  unfoldable pub receive_pack_capabilities : Text
  receive_pack_capabilities =
      0
        ∷ codes
            "report-status report-status-v2 delete-refs side-band-64k quiet object-format=sha1 agent=git/gitarena-"
      ++ version

  -- The line of a reference; the flag says whether the capabilities have been sent.
  abbrev pub ref_line : Bool → Text × Text → Text
  ref_line true (oid, name) = oid ++ (codes " " ++ name)
  ref_line false (oid, name) = oid ++ (codes " " ++ (name ++ receive_pack_capabilities))

  abbrev pub keep_ref : Bool → Option (Text × Text) → (Bool → List Text) → List Text
  keep_ref sent none rest = rest sent
  keep_ref sent (some r) rest = ref_line sent r ∷ rest true

  abbrev pub last_line : Bool → List Text
  last_line true = []
  last_line false = (null_oid ++ (codes " capabilities^{}" ++ receive_pack_capabilities)) ∷ []

  -- The lines of all references, and the one that is sent if none carried the capabilities.
  unfoldable pub advertised : List (Option Reference) → Bool → List Text
  advertised [] sent = last_line sent
  advertised (r ∷ rs) sent = keep_ref sent (direct r) (advertised rs)

module _ (frame : Framing) (version : Text) where
  unfoldable pub capabilities : Text → Result Bytes
  capabilities service = output (
      (do
        write_text frame (codes "# service=" ++ service)
        flush frame
        write_text frame (codes "version 2")
        write_text frame (codes "agent=git/gitarena-" ++ version)
        write_text frame (codes "ls-refs")
        write_text frame (codes "unborn")
        write_text frame (codes "fetch")
        write_text frame (codes "server-option")
        write_text frame (codes "object-format=sha1")
        flush frame)
        new)

  unfoldable pub write_all : List Text → Exec GitWriter Unit
  write_all [] = pure tt
  write_all (line ∷ lines) = write_text frame line >> write_all lines

  unfoldable pub ls_refs_all : Refs → Result Bytes
  ls_refs_all refs = output (
      (do
        write_text frame (codes "# service=git-receive-pack")
        flush frame
        found ← lift (ok_or other refs.references)
        write_all (advertised version found false)
        flush frame)
        new)
