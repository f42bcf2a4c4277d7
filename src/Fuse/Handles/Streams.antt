-- ===== src/Fuse/Handles/Streams.antt =====
-- The calls on a `StreamBuffer` in any order, and the bytes that `read` delivers.
use mathlib.Core.List.{append_assoc, append-nil}
use eventfs.Prelude.{
  ℕ, zero, suc, ◌≤◌, ◌<◌, ◌≡◌, refl, sym, ap, ◌∙◌, min, inl, inr, Bool, true, Option, none, some,
  List, [], ◌∷◌, ◌++◌, Text, ◌==◌, nat_ord, length, length-append, take, if◌then◌else◌, Result, ok,
  err, Bool-cases, arith,
}
use eventfs.Prelude.Words.{u64_max, sat_add64}
use eventfs.Fuse.Handles.{StreamBuffer, WriteError, empty_stream, push, read, close, drop}

pub data Call : Type 0 where
  push_call : Text → Call
  read_call : ℕ → ℕ → Call
  close_call : Call

-- The bytes in an answer of `read`.
abbrev pub delivered : Result WriteError (Option Text) → Text
delivered (ok (some bytes)) = bytes
delivered (ok none) = []
delivered (err e) = []

unfoldable pub step : StreamBuffer → Call → StreamBuffer × Text
unfolding push read
step s (push_call frame) = (push s frame, [])
step s (read_call offset size) =
    let (after, answer) = read s offset size in (after, delivered answer)
step s close_call = (close s, [])

unfoldable pub run : StreamBuffer → List Call → StreamBuffer × Text
unfolding step
run s [] = (s, [])
run s (call ∷ calls) =
    let (after, now) = step s call in let (last, later) = run after calls in (last, now ++ later)

-- The frames that are pushed before the first `close`.
unfoldable pub produced : List Call → Text
produced [] = []
produced (push_call frame ∷ calls) = frame ++ produced calls
produced (read_call offset size ∷ calls) = produced calls
produced (close_call ∷ calls) = []

-- What is still to come of a buffer.
abbrev pub coming : StreamBuffer → List Call → Text
coming s calls = s.bytes ++ (if s.closed then [] else produced calls)

take-drop : (n : ℕ) (bytes : Text) → take n bytes ++ drop n bytes ≡ bytes
take-drop zero bytes = refl
take-drop (suc n) [] = refl
take-drop (suc n) (c ∷ bytes) = ap (λ z. c ∷ z) (take-drop n bytes)

-- A read moves bytes from the buffer's front to its answer.
read_lem :
    (s : StreamBuffer) (offset size : ℕ)
    → (s.bytes ≡ delivered (read s offset size).1 ++ (read s offset size).0.bytes)
      × ((read s offset size).0.closed ≡ s.closed)
unfolding read
read_lem s offset size = elim (Bool-cases (offset == s.consumed)) [
  | inr elsewhere ↦ rw elsewhere (refl, refl)
  | inl here ↦ elim (Bool-cases (length s.bytes == 0)) [
    | inl empty ↦ elim (Bool-cases s.closed) [
      | inl ended ↦ ground (arith, here, empty, ended)
      | inr open_end ↦ ground (arith, here, empty, open_end)
    ]
    | inr full ↦ rw (here, full) (sym (take-drop (min (length s.bytes) size) s.bytes), refl)
  ]
]

read-consumed :
    (s : StreamBuffer) (offset size : ℕ)
    → s.consumed ≤ u64_max
    → (read s offset size).0.consumed
      ≡ sat_add64 s.consumed (length (delivered (read s offset size).1))
unfolding read
read-consumed s offset size h = elim (Bool-cases (offset == s.consumed)) [
  | inr elsewhere ↦ rw elsewhere (omega (arith, h))
  | inl here ↦ elim (Bool-cases (length s.bytes == 0)) [
    | inl empty ↦ ground (arith, here, empty)
    | inr full ↦ rw (here, full) refl
  ]
]

-- A step passes on a part of what is to come.
step_lem :
    (s : StreamBuffer) (call : Call) (calls : List Call)
    → coming s (call ∷ calls) ≡ (step s call).1 ++ coming (step s call).0 calls
unfolding step push produced
step_lem s (push_call frame) calls = elim (Bool-cases s.closed) [
  | inl ended ↦ ground (arith, ended)
  | inr open_end ↦ ground (arith, open_end, append_assoc s.bytes frame (produced calls))
]
step_lem s (read_call offset size) calls =
    let (moved, same) = read_lem s offset size in
    let bytes = delivered (read s offset size).1 in
    let left = (read s offset size).0.bytes in
    let rest : Bool → Text = λ ended. if ended then [] else produced calls in
    ap (λ z. z ++ rest s.closed) moved
    ∙ append_assoc bytes left (rest s.closed)
    ∙ ap (λ c. bytes ++ (left ++ rest c)) (sym same)
step_lem s close_call calls = elim (Bool-cases s.closed) [
  | inl ended ↦ ground (arith, ended)
  | inr open_end ↦ ground (arith, open_end)
]

step-consumed :
    (s : StreamBuffer) (call : Call)
    → s.consumed ≤ u64_max
    → (step s call).0.consumed ≡ sat_add64 s.consumed (length (step s call).1)
unfolding step push
step-consumed s (push_call frame) h = ground (arith, h)
step-consumed s (read_call offset size) h = read-consumed s offset size h
step-consumed s close_call h = omega (arith, h)

run_lem :
    (s : StreamBuffer) (calls : List Call)
    → coming s calls ≡ (run s calls).1 ++ (run s calls).0.bytes
unfolding run produced
run_lem s [] = elim (Bool-cases s.closed) [
  | inl ended ↦ ground (arith, ended, append-nil s.bytes)
  | inr open_end ↦ ground (arith, open_end, append-nil s.bytes)
]
run_lem s (call ∷ calls) =
    let (after, now) = step s call in
    step_lem s call calls
    ∙ ap (λ z. now ++ z) (run_lem after calls)
    ∙ sym (append_assoc now (run after calls).1 (run after calls).0.bytes)

run-consumed :
    (s : StreamBuffer) (calls : List Call)
    → s.consumed ≤ u64_max
    → (run s calls).0.consumed ≡ sat_add64 s.consumed (length (run s calls).1)
unfolding run
run-consumed s [] h = omega (arith, h)
run-consumed s (call ∷ calls) h =
    let (after, now) = step s call in
    let here = step-consumed s call h in
    let below = run-consumed after calls (omega (arith, here)) in
    omega (arith, here, below, length-append now (run after calls).1)

-- Over any calls on a new buffer, what `read` has delivered and what the buffer still holds make up
-- the frames pushed before the first `close`, in their order, and the offset that `read` expects is
-- the number of the bytes delivered, while these fit a `u64`.
pub run-empty_stream :
    (calls : List Call)
    → length (produced calls) ≤ u64_max
    → ((run empty_stream calls).1 ++ (run empty_stream calls).0.bytes ≡ produced calls)
      × ((run empty_stream calls).0.consumed ≡ length (run empty_stream calls).1)
run-empty_stream calls h =
    let whole = sym (run_lem empty_stream calls) in
    let count = run-consumed empty_stream calls (omega arith) in
    (
      whole,
      omega (
        arith,
        h,
        count,
        ap (length {A = ℕ}) whole,
        length-append (run empty_stream calls).1 (run empty_stream calls).0.bytes,
      ),
    )

take-nonempty : (n : ℕ) (bytes : Text) → take n bytes ≡ [] → 0 < n → bytes ≡ []
take-nonempty zero bytes e h = absurd (omega (arith, h))
take-nonempty (suc n) [] e h = refl
take-nonempty (suc n) (c ∷ bytes) e h = absurd (ground (arith, e))

read-at_end :
    (s : StreamBuffer) (offset size : ℕ)
    → 0 < size
    → (read s offset size).1 ≡ ok (some [])
    → (s.bytes ≡ []) × (s.closed ≡ true)
unfolding read
read-at_end s offset size h e = elim (Bool-cases (offset == s.consumed)) [
  | inr elsewhere ↦ absurd (ground (arith, elsewhere))
  | inl here ↦ elim (Bool-cases (length s.bytes == 0)) [
    | inl empty ↦ elim (Bool-cases s.closed) [
      | inl ended ↦ (no_bytes s.bytes (ground (arith, empty)), ended)
      | inr open_end ↦ absurd (ground (arith, here, empty, open_end))
    ]
    | inr full ↦
        absurd (ground (arith, here, full, take-nonempty (min (length s.bytes) size) s.bytes))
  ]
]
  where
    no_bytes : (bytes : Text) → length bytes ≡ 0 → bytes ≡ []
    no_bytes [] k = refl
    no_bytes (c ∷ bytes) k = absurd (ground (arith, k))

-- When `read` of at least one byte answers with an end of file, the buffer was closed and everything
-- that was pushed before is delivered.
pub run-at_end :
    (calls : List Call) (offset size : ℕ)
    → 0 < size
    → (read (run empty_stream calls).0 offset size).1 ≡ ok (some [])
    → ((run empty_stream calls).1 ≡ produced calls) × ((run empty_stream calls).0.closed ≡ true)
run-at_end calls offset size h e =
    let (nothing_left, ended) = read-at_end (run empty_stream calls).0 offset size h e in
    let all_delivered =
      sym (append-nil (run empty_stream calls).1)
      ∙ ap (λ z. (run empty_stream calls).1 ++ z) (sym nothing_left) in
    (all_delivered ∙ sym (run_lem empty_stream calls), ended)
