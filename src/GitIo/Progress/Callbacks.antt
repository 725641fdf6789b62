-- ===== src/GitIo/Progress/Callbacks.antt =====
-- What a run of callbacks leaves behind.
use mathlib.Core.Path.{fun_ext}
use gitarena.Prelude.{
  false, ℕ, ◌+◌, ◌<◌, ◌≤◌, ◌≡◌, ◌↔◌, refl, ◌==◌, true, Option, none, some, List, [], ◌∷◌, Text,
  length, length-append, arith, map, to_bytes, All, ap, Bytes, ◌∙◌, if◌then◌else◌,
}
use gitarena.Error.{ok, panic}
use gitarena.Exec.{Exec, ◌>>=◌}
use gitarena.GitIo.Band
use gitarena.GitIo.PacketLine.{Framing, Hex, line, data_line}
use gitarena.GitIo.Writer.{GitWriter, new, write_binary_sideband}
use gitarena.GitIo.Writer.Packets.{
  Fits, Op, binary_sideband, perform, perform_all, perform_all-reads, payload,
}
use gitarena.GitIo.Progress.{
  report, ProgressWriter, Stage, adding_objects, deltafication, callback, write_lines, to_writer,
}

-- A callback panics exactly if both numbers that it is given are zero.
pub callback_panics :
    (stage : Stage) (current total : ℕ) (w : ProgressWriter)
    → ((callback stage current total w).0 ≡ panic) ↔ ((current ≡ 0) × (total ≡ 0))
unfolding callback
callback_panics adding_objects current total w = ground arith
callback_panics deltafication current total w = ground arith

-- The arguments of a callback.
pub record Call : Type 0 where
  pub stage : Stage
  pub current : ℕ
  pub total : ℕ

abbrev pub run : List Call → Exec ProgressWriter Unit
run [] w = (ok tt, w)
run (c ∷ cs) w = (callback c.stage c.current c.total >>= λ _. run cs) w

-- The total that a call is taken to have.
abbrev pub effective : Call → ℕ
effective c = if c.total == 0 then c.current else c.total

abbrev pub first_delta : Option ℕ → List Call → Option ℕ
first_delta (some t) cs = some t
first_delta none [] = none
first_delta none (c ∷ cs) = elim c.stage [
  | adding_objects ↦ first_delta none cs
  | deltafication ↦ some (effective c)
]

pub callback_ok :
    (c : Call) (w : ProgressWriter)
    → 0 < c.current + c.total
    → callback c.stage c.current c.total w ≡ (ok true, report c.stage c.current (effective c) w)
unfolding callback
callback_ok c w h = ground arith

length-report :
    (s : Stage) (current total : ℕ) (w : ProgressWriter)
    → length (report s current total w).lines ≡ length w.lines + 1
length-report adding_objects current total w = length-append w.lines _
length-report deltafication current total w = length-append w.lines _

run-lines :
    (c : Call) (cs : List Call) (w : ProgressWriter)
    → length (run cs (report c.stage c.current (effective c) w)).1.lines
      ≡ length (report c.stage c.current (effective c) w).lines + length cs
    → length (run cs (report c.stage c.current (effective c) w)).1.lines
      ≡ length w.lines + length (c ∷ cs)
run-lines c cs w e = omega (arith, length-report c.stage c.current (effective c) w)

delta-report :
    (s : Stage) (c : Call) (cs : List Call) (w : ProgressWriter)
    → c.stage ≡ s
    → first_delta (report s c.current (effective c) w).delta_total cs
      ≡ first_delta w.delta_total (c ∷ cs)
delta-report adding_objects c cs w e = ground arith
delta-report deltafication c cs w e = ground arith

run-total :
    (c : Call) (cs : List Call) (w : ProgressWriter)
    → (run cs (report c.stage c.current (effective c) w)).1.delta_total
      ≡ first_delta (report c.stage c.current (effective c) w).delta_total cs
    → (run cs (report c.stage c.current (effective c) w)).1.delta_total
      ≡ first_delta w.delta_total (c ∷ cs)
run-total c cs w e = e ∙ delta-report c.stage c cs w refl

-- Calls none of which has two zeros all succeed, add one line each, and leave as the total of the
-- deltas that of the first call in the stage of deltas, if it was not set before.
pub run-counts :
    (cs : List Call) (w : ProgressWriter)
    → All (λ c. 0 < c.current + c.total) cs
    → ((run cs w).0 ≡ ok tt)
      × (length (run cs w).1.lines ≡ length w.lines + length cs)
      × ((run cs w).1.delta_total ≡ first_delta w.delta_total cs)
run-counts [] w h = ground arith
run-counts (c ∷ cs) w (p, h) =
    let w' = report c.stage c.current (effective c) w in
    let (a, b, d) = run-counts cs w' h in
    rw (callback_ok c w p) (a, run-lines c cs w b, run-total c cs w d)

module _ (frame : Framing) (hex : Hex) where
  abbrev as_op : Text → Op
  as_op text = binary_sideband Band.progress (to_bytes text)

  write_lines-perform :
      (lines : List Text) (w : GitWriter)
      → write_lines frame lines w ≡ perform_all frame hex (map as_op lines) w
  unfolding write_lines perform_all perform
  write_lines-perform [] w = refl
  write_lines-perform (l ∷ lines) w =
      ap (λ k. (write_binary_sideband frame Band.progress (to_bytes l) >>= λ _. k) w)
        (fun_ext (write_lines-perform lines))

  lines-Fits :
      (lines : List Text)
      → All (λ l. length (to_bytes l) ≤ 65515) lines
      → All (Fits frame hex) (map as_op lines)
  lines-Fits [] h = tt
  lines-Fits (l ∷ lines) (p, h) = (p, lines-Fits lines h)

  payload-lines :
      (lines : List Text)
      → map (λ op. line (payload frame hex op)) (map as_op lines)
        ≡ map (λ l. line (data_line (2 ∷ to_bytes l))) lines
  payload-lines [] = refl
  payload-lines (l ∷ lines) = ap (λ t. line (data_line (2 ∷ to_bytes l)) ∷ t) (payload-lines lines)

  -- Progress lines that fit in a packet are read by the client as one packet of the progress band
  -- each, in order.
  pub to_writer-reads :
      (w : ProgressWriter)
      → All (λ l. length (to_bytes l) ≤ 65515) w.lines
      → (bytes : Bytes) × (to_writer frame w ≡ (ok tt, record { inner = bytes; binary = false }))
        × (frame.read bytes ≡ map (λ l. line (data_line (2 ∷ to_bytes l))) w.lines)
  unfolding to_writer
  to_writer-reads w h =
      let (bytes, e, r) = perform_all-reads frame hex (map as_op w.lines) (lines-Fits w.lines h) in
      (bytes, write_lines-perform w.lines new ∙ e, r ∙ payload-lines w.lines)
