-- ===== src/GitIo/Writer.antt =====
-- src/git/io/writer.rs: the writer of packet lines. The `PacketlineWriter` inside is its buffer and
-- its mode; a call of its `write` that fails has written nothing.
pub mod Packets
pub mod Emits
mod Tests
use gitarena.Prelude.{
  ℕ, ◌+◌, ◌/◌, ◌%◌, ◌^◌, Bool, true, false, Option, none, some, [], ◌∷◌, ◌++◌, Text, Bytes, codes,
  to_bytes, length, if◌then◌else◌,
}
use gitarena.Error.{Result, ok, err, other}
use gitarena.Exec.{Exec, ◌>>=◌, ◌>>◌, modify}
use gitarena.GitIo.Band.{Band, serialize}
use gitarena.GitIo.PacketLine.{Framing, Hex}

pub record GitWriter : Type 0 where
  pub inner : Bytes
  pub binary : Bool

abbrev pub new : GitWriter
new = record { inner = []; binary = false }

abbrev pub put : Bytes → Exec GitWriter Unit
put b = modify (λ w. record w { inner = w.inner ++ b })

abbrev set_binary : Bool → Exec GitWriter Unit
set_binary mode = modify (λ w. record w { binary = mode })

abbrev put_line : Option Bytes → Exec GitWriter Unit
put_line none w = (err other, w)
put_line (some b) w = put b w

-- The bytes that the writer holds.
abbrev pub bytes_of : GitWriter → Bytes
bytes_of w = w.inner

-- `(value as u16).to_be_bytes()` in hexadecimal
abbrev pub u16_to_hex : Hex → ℕ → Bytes
u16_to_hex hex value = hex.encode (value / 256 ∷ value % 256 ∷ [])

module _ (frame : Framing) where
  -- `self.inner.write(..)`
  abbrev write : Bytes → Exec GitWriter Unit
  write d w = put_line (if w.binary then frame.binary d else frame.text d) w

  unfoldable pub write_text : Text → Exec GitWriter Unit
  write_text text = write (to_bytes text)

  unfoldable pub write_text_sideband : Band → Text → Exec GitWriter Unit
  write_text_sideband band text = write (serialize band ++ to_bytes text)

  unfoldable pub write_text_sideband_pktline : Hex → Band → Text → Exec GitWriter Unit
  write_text_sideband_pktline hex band text =
      let prefix = u16_to_hex hex ((length (to_bytes text) + 4 + 1) % 2 ^ 16) in
      write (serialize band ++ (prefix ++ to_bytes text))

  unfoldable pub write_text_bytes : Bytes → Exec GitWriter Unit
  write_text_bytes text = write text

  unfoldable pub write_binary : Bytes → Exec GitWriter Unit
  write_binary binary = do set_binary true; write binary; set_binary false

  unfoldable pub write_binary_sideband : Band → Bytes → Exec GitWriter Unit
  write_binary_sideband band binary = do
    set_binary true
    write (serialize band ++ binary)
    set_binary false

  unfoldable pub write_raw : Bytes → Exec GitWriter Unit
  write_raw binary = put binary

  unfoldable pub flush : Exec GitWriter Unit
  flush = put frame.flush

  unfoldable pub flush_sideband : Band → Exec GitWriter Unit
  flush_sideband band = do set_binary true; write (serialize band ++ codes "0000"); set_binary false

  unfoldable pub delimiter : Exec GitWriter Unit
  delimiter = put frame.delimiter

  unfoldable pub response_end : Exec GitWriter Unit
  response_end = put frame.response_end

  unfoldable pub append : GitWriter → Exec GitWriter Unit
  unfolding write_raw
  append writer = write_raw (bytes_of writer)
