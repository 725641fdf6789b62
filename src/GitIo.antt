-- ===== src/GitIo.antt =====
-- src/git/io: packet lines read from a client and written to it.
pub mod Band
pub mod PacketLine
pub mod Reader
pub mod Writer
pub mod Progress
pub mod RoundTrip
