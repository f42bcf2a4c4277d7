-- ===== src/Fuse/Handles/Commits.antt =====
-- The calls on a `BufferedWrite` in any order, and the requests that `begin` hands out.
use eventfs.Prelude.{
  ℕ, ◌≤◌, ◌<◌, ◌≡◌, ◌∙◌, ◌⊎◌, inl, inr, refl, ap, Bool, true, false, Option, none, some, List, [],
  ◌∷◌, ◌++◌, Text, nat_ord, length, length-append, Result, ok, err, Result-value, Bool-cases, arith,
}
use eventfs.Prelude.Words.{u64_max}
use eventfs.Fuse.Handles.{
  BufferedWrite, CommitState, opened, committing, committed, busy, BeginError, write_error,
  prepare_error, new, is_committing, write, finish, begin, prepared_or,
}

pub data Call (T E : Type 0) : Type 0 where
  write_call : ℕ → Text → Call T E
  begin_call : (Text → Result E T) → Call T E
  finish_call : Bool → Call T E

module _ {T : Type 0} where
  -- Every request of a list is the same one.
  abbrev pub OnlyOf : T → List T → Type 0
  OnlyOf r [] = Unit
  OnlyOf r (request ∷ requests) = (request ≡ r) × OnlyOf r requests

  -- With a request prepared, the state holds no other, and the bytes stay.
  record IsPrepared (r : T) (h : BufferedWrite T) : Type 0 where
    ready : h.prepared ≡ some r
    same : (request : T) → h.commit_state ≡ committing request → request ≡ r

  state-cases :
      (s : CommitState T) → (s ≡ opened) ⊎ ((r : T) × (s ≡ committing r)) ⊎ (s ≡ committed)
  state-cases opened = inl refl
  state-cases (committing r) = inr (inl (r, refl))
  state-cases committed = inr (inr refl)

  write-IsPrepared :
      (r : T) (h : BufferedWrite T) (offset : ℕ) (bytes : Text)
      → h.prepared ≡ some r
      → write h offset bytes ≡ (h, err busy)
  unfolding write
  write-IsPrepared r h offset bytes p = ground (arith, p)

  finish-IsPrepared :
      (r : T) (h : BufferedWrite T) (success : Bool)
      → IsPrepared r h
      → IsPrepared r (finish h success) × ((finish h success).bytes ≡ h.bytes)
  unfolding finish
  finish-IsPrepared r h success p = elim (Bool-cases (is_committing h.commit_state)) [
    | inl underway ↦
        rw underway
          (record { ready = p.ready; same = λ request e. absurd (ground (arith, e)) }, refl)
    | inr resting ↦ rw resting (p, refl)
  ]

  OnlyOf-append :
      (r : T) (now later : List T) → OnlyOf r now → OnlyOf r later → OnlyOf r (now ++ later)
  OnlyOf-append r [] later a b = b
  OnlyOf-append r (x ∷ now) later (e, a) b = (e, OnlyOf-append r now later a b)

  -- Before a request is prepared.
  record IsFilling (max : ℕ) (h : BufferedWrite T) : Type 0 where
    bounded : length h.bytes ≤ max
    same_max : h.max_bytes ≡ max
    unprepared : h.prepared ≡ none
    open_state : h.commit_state ≡ opened

  write-IsFilling :
      (max : ℕ) (h : BufferedWrite T) (offset : ℕ) (bytes : Text)
      → max < u64_max
      → IsFilling max h
      → IsFilling max (write h offset bytes).0
  unfolding write
  write-IsFilling max h offset bytes limit f = record {
    bounded = ground (arith, f.bounded, f.same_max, length-append h.bytes bytes);
    same_max = ground (arith, f.same_max);
    unprepared = ground (arith, f.unprepared);
    open_state = ground (arith, f.open_state);
  }

  finish-IsFilling :
      (h : BufferedWrite T) (success : Bool) → h.commit_state ≡ opened → finish h success ≡ h
  unfolding finish
  finish-IsFilling h success e = ground (arith, e)

module _ {T E : Type 0} where
  -- The request that an answer of `begin` hands out.
  abbrev pub handed_out : Result (BeginError E) (Option T) → List T
  handed_out (ok (some request)) = request ∷ []
  handed_out (ok none) = []
  handed_out (err e) = []

  unfoldable pub step : BufferedWrite T → Call T E → BufferedWrite T × List T
  unfolding write begin finish
  step h (write_call offset bytes) = ((write h offset bytes).0, [])
  step h (begin_call prepare) = let (after, answer) = begin h prepare in (after, handed_out answer)
  step h (finish_call success) = (finish h success, [])

  unfoldable pub run : BufferedWrite T → List (Call T E) → BufferedWrite T × List T
  unfolding step
  run h [] = (h, [])
  run h (call ∷ calls) =
      let (after, now) = step h call in let (last, later) = run after calls in (last, now ++ later)

  -- A `begin` among the calls prepares the request from the bytes.
  abbrev pub PreparedBy : List (Call T E) → Text → T → Type 0
  PreparedBy [] bytes r = ⊥
  PreparedBy (begin_call prepare ∷ calls) bytes r =
      (prepare bytes ≡ ok r) ⊎ PreparedBy calls bytes r
  PreparedBy (write_call offset more ∷ calls) bytes r = PreparedBy calls bytes r
  PreparedBy (finish_call success ∷ calls) bytes r = PreparedBy calls bytes r

  begin-IsPrepared :
      (r : T) (h : BufferedWrite T) (prepare : Text → Result E T)
      → IsPrepared r h
      → IsPrepared r (begin h prepare).0
        × ((begin h prepare).0.bytes ≡ h.bytes)
        × OnlyOf r (handed_out (begin h prepare).1)
  unfolding begin
  begin-IsPrepared r h prepare p = elim (state-cases h.commit_state) [
    | inl is_open ↦
        rw (is_open, p.ready, prepared_or)
          (record { ready = refl; same = λ other e. ground (arith, e) }, refl, (refl, tt))
    | inr (inl (request, is_underway)) ↦
        let busy_answer : begin h prepare ≡ (h, err (write_error busy)) =
          ground (arith, is_underway) in
        rw busy_answer (p, refl, tt)
    | inr (inr is_done) ↦
        let no_answer : begin h prepare ≡ (h, ok none) = ground (arith, is_done) in
        rw no_answer (p, refl, tt)
  ]

  step-IsPrepared :
      (r : T) (h : BufferedWrite T) (call : Call T E)
      → IsPrepared r h
      → IsPrepared r (step h call).0 × ((step h call).0.bytes ≡ h.bytes) × OnlyOf r (step h call).1
  unfolding step
  step-IsPrepared r h (write_call offset bytes) p =
      rw (write-IsPrepared r h offset bytes p.ready) (p, refl, tt)
  step-IsPrepared r h (begin_call prepare) p = begin-IsPrepared r h prepare p
  step-IsPrepared r h (finish_call success) p =
      let (q, same_bytes) = finish-IsPrepared r h success p in (q, same_bytes, tt)

  run-IsPrepared :
      (r : T) (h : BufferedWrite T) (calls : List (Call T E))
      → IsPrepared r h
      → IsPrepared r (run h calls).0 × ((run h calls).0.bytes ≡ h.bytes) × OnlyOf r (run h calls).1
  unfolding run
  run-IsPrepared r h [] p = (p, refl, tt)
  run-IsPrepared r h (call ∷ calls) p =
      let (q, here, now) = step-IsPrepared r h call p in
      let (last, below, later) = run-IsPrepared r (step h call).0 calls q in
      (last, below ∙ here, OnlyOf-append r (step h call).1 (run (step h call).0 calls).1 now later)

  -- Nothing was handed out yet, or one request was prepared and only that was.
  abbrev pub Handed : List (Call T E) → ℕ → BufferedWrite T × List T → Type 0
  Handed calls max (h, requests) =
      (length h.bytes ≤ max)
      × ((requests ≡ []) ⊎ ((r : T) × PreparedBy calls h.bytes r × OnlyOf r requests))

  begin-IsFilling :
      (max : ℕ) (h : BufferedWrite T) (prepare : Text → Result E T)
      → IsFilling max h
      → ((e : E) × (begin h prepare ≡ (h, err (prepare_error e))))
        ⊎ ((r : T) × (prepare h.bytes ≡ ok r)
            × (begin h prepare
                ≡ (record h { prepared = some r; commit_state = committing r }, ok (some r))))
  unfolding begin
  begin-IsFilling max h prepare f = elim (Result-value (prepare h.bytes)) [
    | inl (e, refused) ↦ inl (e, ground (arith, f.unprepared, f.open_state, refused))
    | inr (r, made) ↦ inr (r, made, ground (arith, f.unprepared, f.open_state, made))
  ]

  run-IsFilling :
      (max : ℕ) (h : BufferedWrite T) (calls : List (Call T E))
      → max < u64_max
      → IsFilling max h
      → Handed calls max (run h calls)
  unfolding run step
  run-IsFilling max h [] limit f = (f.bounded, inl refl)
  run-IsFilling max h (write_call offset bytes ∷ calls) limit f =
      run-IsFilling max (write h offset bytes).0 calls limit
        (write-IsFilling max h offset bytes limit f)
  run-IsFilling max h (finish_call success ∷ calls) limit f =
      rw (finish-IsFilling h success f.open_state) (run-IsFilling max h calls limit f)
  run-IsFilling max h (begin_call prepare ∷ calls) limit f =
      elim (begin-IsFilling max h prepare f) [
        | inl (e, refused) ↦
            let (bounded, rest) = run-IsFilling max h calls limit f in
            rw refused (
              bounded,
              elim rest [ inl silent ↦ inl silent | inr (r, by, only) ↦ inr (r, inr by, only) ],
            )
        | inr (r, made, answer) ↦
            let h' : BufferedWrite T = record h {
              prepared = some r;
              commit_state = committing r;
            } in
            let (q, same_bytes, only) =
              run-IsPrepared r h' calls
                (record { ready = refl; same = λ other e. ground (arith, e) }) in
            rw answer (
              ground (arith, ap (length {A = ℕ}) same_bytes, f.bounded),
              inr (r, inl (ap prepare same_bytes ∙ made), (refl, only)),
            )
      ]

  -- Over any calls on a new handle whose maximum `max` of bytes is below the last `u64`, the buffer
  -- holds at most `max` bytes, and the requests that `begin` hands out are all one request, which the
  -- `prepare` of one of the calls made from the bytes that the handle then keeps.
  pub run-new-Handed :
      (max : ℕ) (calls : List (Call T E)) → max < u64_max → Handed calls max (run (new max) calls)
  run-new-Handed max calls limit =
      run-IsFilling max (new max) calls limit
        (record { bounded = omega arith; same_max = refl; unprepared = refl; open_state = refl })

  step-is_committed :
      (h : BufferedWrite T) (call : Call T E) → h.commit_state ≡ committed → step h call ≡ (h, [])
  unfolding step write begin finish
  step-is_committed h (write_call offset bytes) c = ground (arith, c)
  step-is_committed h (begin_call prepare) c = ground (arith, c)
  step-is_committed h (finish_call success) c = ground (arith, c)

  run-is_committed :
      (h : BufferedWrite T) (calls : List (Call T E))
      → h.commit_state ≡ committed
      → run h calls ≡ (h, [])
  unfolding run
  run-is_committed h [] c = refl
  run-is_committed h (call ∷ calls) c =
      rw (step-is_committed h call c, run-is_committed h calls c) refl

  begun :
      (h after : BufferedWrite T) (prepare : Text → Result E T) (r : T)
      → begin h prepare ≡ (after, ok (some r))
      → (after.prepared ≡ some r) × (after.commit_state ≡ committing r)
  unfolding begin
  begun h after prepare r e = elim (state-cases h.commit_state) [
    | inl is_open ↦ elim (Result-value (prepared_or h.prepared prepare h.bytes)) [
      | inl (refusal, refused) ↦ absurd (ground (arith, is_open, refused))
      | inr (request, made) ↦ ground (arith, is_open, made)
    ]
    | inr (inl (request, is_underway)) ↦ absurd (ground (arith, is_underway))
    | inr (inr is_done) ↦ absurd (ground (arith, is_done))
  ]

  -- After `begin` has handed out a request, a failed attempt leaves the handle such that `begin` hands
  -- out the same request again, whatever it is to prepare; after a successful attempt no calls
  -- change the handle, and `begin` hands out nothing.
  pub begin-finish :
      (h after : BufferedWrite T) (prepare again : Text → Result E T) (r : T)
      (calls : List (Call T E))
      → begin h prepare ≡ (after, ok (some r))
      → (begin (finish after false) again ≡ (after, ok (some r)))
        × (run (finish after true) calls ≡ (finish after true, []))
  unfolding begin finish
  begin-finish h after prepare again r calls e =
      let (ready, underway) = begun h after prepare r e in
      (
        ground (arith, ready, underway),
        run-is_committed (finish after true) calls (ground (arith, underway)),
      )
