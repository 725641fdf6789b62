-- ===== src/GitIo/Band.antt =====
-- src/git/io/band.rs: the side bands.
use gitarena.Prelude.{[], ◌∷◌, Bytes}

pub data Band : Type 0 where
  data_band progress error : Band

abbrev pub serialize : Band → Bytes
serialize data_band = 1 ∷ []
serialize progress = 2 ∷ []
serialize error = 3 ∷ []
