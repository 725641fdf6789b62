-- ===== src/World.antt =====
-- What a Git request works on, and what it takes from outside.
mod Paths
unfoldable pub use Paths.{get_fs_path}
use gitarena.Prelude.{ℕ, Option, none, some, List, Text, Bytes, text_eq, if◌then◌else◌}
use gitarena.Error.{Result, ok, other, ok_or}
use gitarena.Exec.{Exec}
use gitarena.Database.{Connection, Db}
use gitarena.Git.{Git}
use gitarena.GitIo.PacketLine.{Framing, Hex, ReadLine}
use gitarena.GitIo.Writer.{GitWriter}
use gitarena.BasicAuth.{Crypto}

-- `lower` is that of the database, `request_lines` the iterator over a request's packet lines up to
-- the first flush, `search_in` the first position of a pattern in
-- bytes, `lowercase` that of a file name's bytes.
pub record Externals : Type 1 where
  pub git : Git
  pub frame : Framing
  pub hex : Hex
  pub crypto : Crypto
  pub lower : Text → Text
  pub request_lines : Bytes → List ReadLine
  pub search_in : Bytes → Bytes → Option ℕ
  pub lowercase : Bytes → Bytes

-- The connection of the request, the repositories by their path, and the response that is written.
pub record World (git : Git) : Type 0 where
  pub connection : Connection
  pub disk : Text → Option (git.Store)
  pub writer : GitWriter

module _ (git : Git) where
  abbrev with_new_writer : {A : Type 0} → World git → Result A × GitWriter → Result A × World git
  with_new_writer w (r, writer) = (r, record w { writer = writer })

  -- An operation of the writer.
  abbrev pub on_writer : {A : Type 0} → Exec GitWriter A → Exec (World git) A
  on_writer m w = with_new_writer w (m w.writer)

  abbrev with_connection : {A : Type 0} → World git → Result A × Connection → Result A × World git
  with_connection w (r, connection) = (r, record w { connection = connection })

  -- An operation of the database connection.
  abbrev pub on_connection : {A : Type 0} → Exec Connection A → Exec (World git) A
  on_connection m w = with_connection w (m w.connection)

  -- A read of the database that may fail.
  abbrev pub reads : {A : Type 0} → (Db → Result A) → Exec (World git) A
  reads f w = (f w.connection.current, w)

  -- Opening the repository at a path.
  abbrev pub open_at : Text → Exec (World git) (git.Store)
  open_at path w = (ok_or other (w.disk path), w)

  abbrev pub put_at : Text → git.Store → Exec (World git) Unit
  put_at path s w = (ok tt, record w { disk = λ p. if text_eq p path then some s else w.disk p })
