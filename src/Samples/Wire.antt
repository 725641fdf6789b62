-- ===== src/Samples/Wire.antt =====
-- Framings for the tests: a byte of a data line is written four higher, behind a 3 that opens the
-- line; and hexadecimal digits.
use gitarena.Prelude.{
  ℕ, zero, suc, ◌+◌, ◌*◌, ◌/◌, ◌%◌, ◌-◌, ◌<◌, ◌≡◌, refl, ap, ◌∙◌, Option, none, some, List, [], ◌∷◌,
  ◌++◌, Bytes, length, All, ltb, arith, if◌then◌else◌,
}
use gitarena.GitIo.PacketLine.{
  Framing, Hex, data_line, flush_line, delimiter_line, response_end_line, ReadLine, line,
}

abbrev prepend : ℕ → List ReadLine → List ReadLine
prepend b (line (data_line d) ∷ ls) = line (data_line (b ∷ d)) ∷ ls
prepend b ls = ls

abbrev read_code : ℕ → List ReadLine → List ReadLine
read_code zero ls = line flush_line ∷ ls
read_code (suc zero) ls = line delimiter_line ∷ ls
read_code (suc (suc zero)) ls = line response_end_line ∷ ls
read_code (suc (suc (suc zero))) ls = line (data_line []) ∷ ls
read_code (suc (suc (suc (suc b)))) ls = prepend b ls

-- The codes of a line come last byte first.
abbrev read_codes : Bytes → List ReadLine
read_codes [] = []
read_codes (c ∷ cs) = read_code c (read_codes cs)

abbrev shift : Bytes → Bytes
shift [] = 3 ∷ []
shift (b ∷ bs) = suc (suc (suc (suc b))) ∷ shift bs

pub read_codes-shift :
    (d rest : Bytes) → read_codes (shift d ++ rest) ≡ line (data_line d) ∷ read_codes rest
read_codes-shift [] rest = refl
read_codes-shift (b ∷ d) rest = ap (prepend b) (read_codes-shift d rest)

abbrev pub sample_framing : Framing
sample_framing = record {
  text = λ d. some (shift (d ++ 10 ∷ []));
  binary = λ d. some (shift d);
  flush = 0 ∷ [];
  delimiter = 1 ∷ [];
  response_end = 2 ∷ [];
  read = read_codes;
  read-nil = refl;
  read-text = λ d p q. (shift (d ++ 10 ∷ []), refl, read_codes-shift (d ++ 10 ∷ []));
  read-binary = λ d p q. (shift d, refl, read_codes-shift d);
  read-flush = λ rest. refl;
  read-delimiter = λ rest. refl;
  read-response_end = λ rest. refl;
}

abbrev digit : ℕ → ℕ
digit d = if ltb d 10 then 48 + d else 87 + d

abbrev value : ℕ → ℕ
value c = if ltb c 58 then c - 48 else c - 87

abbrev digits : Bytes → Bytes
digits [] = []
digits (b ∷ bs) = digit (b / 16) ∷ digit (b % 16) ∷ digits bs

abbrev cons_some : ℕ → Option Bytes → Option Bytes
cons_some b none = none
cons_some b (some bs) = some (b ∷ bs)

abbrev values : Bytes → Option Bytes
values [] = some []
values (h ∷ []) = none
values (h ∷ l ∷ rest) = cons_some (value h * 16 + value l) (values rest)

value-digits : (b : ℕ) → value (digit (b / 16)) * 16 + value (digit (b % 16)) ≡ b
value-digits b = ground arith

pub values-digits : (bs : Bytes) → All (λ b. b < 256) bs → values (digits bs) ≡ some bs
values-digits [] h = refl
values-digits (b ∷ bs) (p, h) =
    ap (λ n. cons_some n (values (digits bs))) (value-digits b)
    ∙ ap (cons_some b) (values-digits bs h)

pub length-digits : (bs : Bytes) → length (digits bs) ≡ 2 * length bs
length-digits [] = refl
length-digits (b ∷ bs) = ground (arith, length-digits bs)

abbrev pub sample_hex : Hex
sample_hex = record {
  encode = digits;
  decode = values;
  decode-encode = values-digits;
  length-encode = length-digits;
}
