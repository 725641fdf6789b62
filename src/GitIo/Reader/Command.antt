-- ===== src/GitIo/Reader/Command.antt =====
-- Finding the command of a request.
use mathlib.Core.List.{append_assoc}
use gitarena.Prelude.{
  ℕ, zero, suc, ◌+◌, ◌<◌, ◌≤◌, ◌≡◌, ◌∙◌, sym, ◌↔◌, refl, none, some, List, [], ◌∷◌, ◌++◌, Text,
  Bytes, length, length-append, All, arith, ap,
}
use gitarena.Error.{Result, ok, err, panic, other, ◌>>=◌}
use gitarena.GitIo.Reader.{command_of, remove, remove_each, search_command, read_until_command}

-- What removing at 0, at 1 and so on leaves: every other line goes.
abbrev pub thin : ℕ → List Bytes → Result (List Bytes)
thin zero ls = ok ls
thin (suc k) [] = panic
thin (suc zero) (x ∷ ls) = ok ls
thin (suc (suc k)) (x ∷ []) = panic
thin (suc (suc k)) (x ∷ y ∷ ls) = thin (suc k) ls >>= λ rest. ok (y ∷ rest)

abbrev behind : List Bytes → Result (List Bytes) → Result (List Bytes)
behind kept r = r >>= λ rest. ok (kept ++ rest)

remove-append :
    (kept : List Bytes) (x : Bytes) (ls : List Bytes)
    → remove (length kept) (kept ++ x ∷ ls) ≡ ok (kept ++ ls)
unfolding remove
remove-append [] x ls = refl
remove-append (y ∷ kept) x ls = rw (remove-append kept x ls)

remove-end : (i : ℕ) (ls : List Bytes) → length ls ≤ i → remove i ls ≡ panic
unfolding remove
remove-end i [] h = refl
remove-end zero (l ∷ ls) h = absurd (omega arith)
remove-end (suc i) (l ∷ ls) h = rw (remove-end i ls (omega arith))

behind-cons :
    (kept : List Bytes) (y : Bytes) (r : Result (List Bytes))
    → behind (kept ++ y ∷ []) r ≡ behind kept (r >>= λ rest. ok (y ∷ rest))
behind-cons kept y (ok rest) = ap ok (append_assoc kept (y ∷ []) rest)
behind-cons kept y (err e) = refl
behind-cons kept y panic = refl

remove_each-suc :
    (k from : ℕ) (ls : List Bytes)
    → remove_each (suc k) from ls ≡ (remove from ls >>= remove_each k (from + 1))
unfolding remove_each
remove_each-suc k from ls = refl

remove_each-zero : (from : ℕ) (ls : List Bytes) → remove_each zero from ls ≡ ok ls
unfolding remove_each
remove_each-zero from ls = refl

-- Behind lines that stay, removing continues as from the start.
remove_each-thin :
    (k : ℕ) (kept ls : List Bytes)
    → remove_each k (length kept) (kept ++ ls) ≡ behind kept (thin k ls)
remove_each-thin zero kept ls = remove_each-zero (length kept) (kept ++ ls)
remove_each-thin (suc k) kept [] =
    rw (
      remove_each-suc,
      remove-end (length kept) (kept ++ []) (omega (arith, length-append kept [])),
    )
remove_each-thin (suc zero) kept (x ∷ ls) =
    rw (remove_each-suc, remove-append) (remove_each-zero (length kept + 1) (kept ++ ls))
remove_each-thin (suc (suc k)) kept (x ∷ []) = rw (
  remove_each-suc (suc k),
  remove-append,
  remove_each-suc k,
  remove-end (length kept + 1) (kept ++ []) (omega (arith, length-append kept [])),
)
remove_each-thin (suc (suc k)) kept (x ∷ y ∷ ls) =
    let ih = remove_each-thin (suc k) (kept ++ y ∷ []) ls in
    rw (remove_each-suc (suc k), remove-append)
      (rw (length-append kept (y ∷ []), append_assoc kept (y ∷ []) ls) at ih
        ∙ behind-cons kept y (thin (suc k) ls))

behind-nil : (r : Result (List Bytes)) → behind [] r ≡ r
behind-nil (ok rest) = refl
behind-nil (err e) = refl
behind-nil panic = refl

with_value : Text → Result (List Bytes) → Result (Text × List Bytes)
with_value value r = r >>= λ left. ok (value, left)

-- The loop stops at the first line with a command.
search_command_at :
    (index : ℕ) (before : List Bytes) (found : Bytes) (after body : List Bytes) (value : Text)
    → All (λ l. command_of l ≡ none) before
    → command_of found ≡ some value
    → search_command index (before ++ found ∷ after) body
      ≡ with_value value (remove_each (length before + index) 0 body)
unfolding search_command with_value
search_command_at index [] found after body value h e =
    let same : length {A = Bytes} [] + index ≡ index = omega arith in
    rw (e, search_command) (rw same)
search_command_at index (l ∷ before) found after body value (p, h) e =
    let same : length (l ∷ before) + index ≡ length before + (index + 1) = omega arith in
    rw (p, search_command)
      (rw same (search_command_at (index + 1) before found after body value h e))

-- The first line with a command decides the result: its value, and what is left of the body after
-- one removal at 0, one at 1 and so on, as many as there are lines before it.
command_found :
    (before : List Bytes) (found : Bytes) (after : List Bytes) (value : Text)
    → All (λ l. command_of l ≡ none) before
    → command_of found ≡ some value
    → read_until_command (before ++ found ∷ after)
      ≡ with_value value (thin (length before) (before ++ found ∷ after))
unfolding read_until_command
command_found before found after value h e =
    search_command_at 0 before found after (before ++ found ∷ after) value h e
    ∙ ap (λ k. with_value value (remove_each k 0 (before ++ found ∷ after))) (omega arith)
    ∙ ap (with_value value)
        (remove_each-thin (length before) [] (before ++ found ∷ after) ∙ behind-nil _)

thin_panics : (k : ℕ) (ls : List Bytes) → (thin k ls ≡ panic) ↔ (length ls + 1 < k + k)
thin_panics zero ls = ground arith
thin_panics (suc k) [] = ground arith
thin_panics (suc zero) (x ∷ ls) = ground arith
thin_panics (suc (suc k)) (x ∷ []) = ground arith
thin_panics (suc (suc k)) (x ∷ y ∷ ls) = ground (arith, thin_panics (suc k) ls)

with_value_panics :
    (value : Text) (r : Result (List Bytes)) → (with_value value r ≡ panic) ↔ (r ≡ panic)
unfolding with_value
with_value_panics value r = ground arith

-- With at most one line before the first command line, the command's value is returned with the
-- body from the command line on.
pub read_until_command_near :
    (before : List Bytes) (found : Bytes) (after : List Bytes) (value : Text)
    → All (λ l. command_of l ≡ none) before
    → command_of found ≡ some value
    → length before ≤ 1
    → read_until_command (before ++ found ∷ after) ≡ ok (value, found ∷ after)
unfolding with_value
read_until_command_near [] found after value h e n = command_found [] found after value h e
read_until_command_near (x ∷ []) found after value h e n =
    command_found (x ∷ []) found after value h e
read_until_command_near (x ∷ y ∷ before) found after value h e n = absurd (omega arith)

-- Reading a request panics exactly when the lines before the first command line outnumber those
-- behind it by more than two.
pub read_until_command_panics :
    (before : List Bytes) (found : Bytes) (after : List Bytes) (value : Text)
    → All (λ l. command_of l ≡ none) before
    → command_of found ≡ some value
    → (read_until_command (before ++ found ∷ after) ≡ panic) ↔ (length after + 2 < length before)
read_until_command_panics before found after value h e =
    let (to, from) = thin_panics (length before) (before ++ found ∷ after) in
    let (to', from') = with_value_panics value (thin (length before) (before ++ found ∷ after)) in
    let n = length-append before (found ∷ after) in
    rw (command_found before found after value h e)
      (λ p. let q = to (to' p) in omega arith, λ p. from' (from (omega arith)))

first_kept :
    (value v : Text) (y : Bytes) (r : Result (List Bytes)) (left : List Bytes)
    → with_value value (r >>= λ rest. ok (y ∷ rest)) ≡ ok (v, left)
    → (v ≡ value) × (rest : List Bytes) × (left ≡ y ∷ rest)
unfolding with_value
first_kept value v y (ok rest) left h = (ground arith, rest, ground arith)
first_kept value v y (err e) left h = absurd (cc)
first_kept value v y panic left h = absurd (cc)

-- With two or more lines before the first command line, the body that is returned begins with the
-- second of them, if reading does not panic.
pub read_until_command_far :
    (x y : Bytes) (before : List Bytes) (found : Bytes) (after : List Bytes) (value v : Text)
    (left : List Bytes)
    → All (λ l. command_of l ≡ none) (x ∷ y ∷ before)
    → command_of found ≡ some value
    → read_until_command (x ∷ y ∷ before ++ found ∷ after) ≡ ok (v, left)
    → (v ≡ value) × (rest : List Bytes) × (left ≡ y ∷ rest)
read_until_command_far x y before found after value v left h e r =
    first_kept value v y (thin (suc (length before)) (before ++ found ∷ after)) left
      (sym (command_found (x ∷ y ∷ before) found after value h e) ∙ r)

search_command_missing :
    (index : ℕ) (ls body : List Bytes)
    → All (λ l. command_of l ≡ none) ls
    → search_command index ls body ≡ err other
unfolding search_command
search_command_missing index [] body h = refl
search_command_missing index (l ∷ ls) body (p, h) =
    rw (p, search_command) (search_command_missing (index + 1) ls body h)

-- A body without a command line is refused.
pub read_until_command_missing :
    (body : List Bytes) → All (λ l. command_of l ≡ none) body → read_until_command body ≡ err other
unfolding read_until_command
read_until_command_missing body h = search_command_missing 0 body body h
