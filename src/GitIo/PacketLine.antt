-- ===== src/GitIo/PacketLine.antt =====
-- The packet lines of the crate `git_repository`, which frames and unframes them: an interface with
-- the documented behaviour that the program relies on.
use gitarena.Prelude.{◌<◌, ◌≤◌, ◌≡◌, Option, some, List, [], ◌∷◌, ◌++◌, Bytes, length, All, ◌*◌}

-- `PacketLineRef`
pub data Packet : Type 0 where
  data_line : Bytes → Packet
  flush_line delimiter_line response_end_line : Packet

-- What one call of `read_line` gives: a line, or one of the two errors that the program logs.
pub data ReadLine : Type 0 where
  line : Packet → ReadLine
  malformed broken : ReadLine

-- `text` and `binary` give the bytes that `Writer::write` puts out in either mode, or none where it
-- fails; `read` gives what a reader gets from bytes. A line holds at most 65516 bytes, with the
-- newline that text mode adds.
pub record Framing : Type 0 where
  pub text : Bytes → Option Bytes
  pub binary : Bytes → Option Bytes
  pub flush : Bytes
  pub delimiter : Bytes
  pub response_end : Bytes
  pub read : Bytes → List ReadLine
  pub read-nil : read [] ≡ []
  pub read-text :
      (d : Bytes)
      → 0 < length d
      → length d ≤ 65515
      → (b : Bytes) × (text d ≡ some b)
        × ((rest : Bytes) → read (b ++ rest) ≡ line (data_line (d ++ 10 ∷ [])) ∷ read rest)
  pub read-binary :
      (d : Bytes)
      → 0 < length d
      → length d ≤ 65516
      → (b : Bytes) × (binary d ≡ some b)
        × ((rest : Bytes) → read (b ++ rest) ≡ line (data_line d) ∷ read rest)
  pub read-flush : (rest : Bytes) → read (flush ++ rest) ≡ line flush_line ∷ read rest
  pub read-delimiter : (rest : Bytes) → read (delimiter ++ rest) ≡ line delimiter_line ∷ read rest
  pub read-response_end :
      (rest : Bytes) → read (response_end ++ rest) ≡ line response_end_line ∷ read rest

-- The hexadecimal digits of the crate `hex`, lower case, and their inverse.
pub record Hex : Type 0 where
  pub encode : Bytes → Bytes
  pub decode : Bytes → Option Bytes
  pub decode-encode : (bs : Bytes) → All (λ b. b < 256) bs → decode (encode bs) ≡ some bs
  pub length-encode : (bs : Bytes) → length (encode bs) ≡ 2 * length bs
