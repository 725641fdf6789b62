-- ===== src/GitIo/Reader/Lines.antt =====
-- Which lines of a request are read.
use gitarena.Prelude.{◌∙◌, ◌≡◌, refl, List, [], ◌∷◌, ◌++◌, map, Bytes, ap}
use gitarena.GitIo.PacketLine.{data_line, ReadLine, line}
use gitarena.GitIo.Reader.{strip_newline, push_line, read_data_lines}

pub strip_newline-append : (b : Bytes) → strip_newline (b ++ 10 ∷ []) ≡ b
unfolding strip_newline
strip_newline-append [] = refl
strip_newline-append (b ∷ []) = refl
strip_newline-append (b ∷ c ∷ bs) = ap (λ t. b ∷ t) (strip_newline-append (c ∷ bs))

-- A line as text mode frames it.
abbrev pub text_line : Bytes → ReadLine
text_line d = line (data_line (d ++ 10 ∷ []))

push-text_line : (d : Bytes) (rest : List Bytes) → push_line (text_line d) rest ≡ d ∷ rest
push-text_line [] rest = unfold strip_newline in refl
push-text_line (b ∷ bs) rest = ap (λ t. t ∷ rest) (strip_newline-append (b ∷ bs))

-- Lines that were sent as text are read as they were, empty ones too, whatever comes behind them.
pub read_data_lines-text :
    (ds : List Bytes) (more : List ReadLine)
    → read_data_lines (map text_line ds ++ more) ≡ ds ++ read_data_lines more
unfolding read_data_lines
read_data_lines-text [] more = refl
read_data_lines-text (d ∷ ds) more =
    push-text_line d (read_data_lines (map text_line ds ++ more))
    ∙ ap (λ t. d ∷ t) (read_data_lines-text ds more)
