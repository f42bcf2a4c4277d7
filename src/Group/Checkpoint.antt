-- ===== src/Group/Checkpoint.antt =====
-- The checkpoint of a partition: which positions are settled, and how `resolve` moves it.
use eventfs.Prelude.{
  ℕ, zero, suc, ◌≤◌, ◌<◌, ◌≡◌, ◌≢◌, refl, Bool, true, false, ◌||◌, ◌==◌, nat_ord, ltb, [], ◌∷◌,
  length, if◌then◌else◌, arith, Bool-cases, inl, inr,
}
use eventfs.Prelude.Words.{u64_max, sat_add64}
use eventfs.BTreeMap.{BTreeSet, get, insert, remove, contains_key}
use eventfs.BTreeMap.Laws.{get-insert, get-remove, length-remove_present}
use eventfs.Group.{AggregateGroupPartition}
use eventfs.Group.Progress.{advance, resolve}

contains-remove :
    (j k : ℕ) (gaps : BTreeSet ℕ)
    → contains_key j (remove k gaps) ≡ (if j == k then false else contains_key j gaps)
contains-remove j k gaps = ground (arith, get-remove j k gaps)

contains-insert :
    (j k : ℕ) (gaps : BTreeSet ℕ)
    → contains_key j (insert k tt gaps) ≡ (if j == k then true else contains_key j gaps)
contains-insert j k gaps = ground (arith, get-insert j k tt gaps)

shrinks :
    (k : ℕ) (gaps : BTreeSet ℕ) → contains_key k gaps ≡ true → length (remove k gaps) < length gaps
shrinks k gaps h = ground (arith, length-remove_present k tt gaps)

-- A position that is neither behind the checkpoint nor a gap is still neither after the loop.
advance-open :
    (fuel : ℕ) (gaps : BTreeSet ℕ) (next q : ℕ)
    → next ≤ q
    → contains_key q gaps ≡ false
    → ((advance fuel gaps next).1 ≤ q) × (contains_key q (advance fuel gaps next).0 ≡ false)
unfolding advance
advance-open zero gaps next q h e = (h, e)
advance-open (suc fuel) gaps next q h e =
    ground (
      arith,
      advance-open fuel (remove next gaps) (sat_add64 next 1) q,
      contains-remove q next gaps,
    )

advance-ge :
    (fuel : ℕ) (gaps : BTreeSet ℕ) (next : ℕ)
    → next ≤ u64_max
    → (next ≤ (advance fuel gaps next).1) × ((advance fuel gaps next).1 ≤ u64_max)
unfolding advance
advance-ge zero gaps next h = ground arith
advance-ge (suc fuel) gaps next h =
    ground (arith, advance-ge fuel (remove next gaps) (sat_add64 next 1))

-- The loop of `resolve` ends by its own test: as many rounds as there are gaps are enough.
advance-stops :
    (fuel : ℕ) (gaps : BTreeSet ℕ) (next : ℕ)
    → length gaps ≤ fuel
    → contains_key (advance fuel gaps next).1 (advance fuel gaps next).0 ≡ false
unfolding advance
advance-stops zero [] next h = unfold get in refl
advance-stops zero (x ∷ gaps) next h = absurd (omega arith)
advance-stops (suc fuel) gaps next h =
    ground (arith, advance-stops fuel (remove next gaps) (sat_add64 next 1), shrinks next gaps)

advance-ahead :
    (fuel : ℕ) (gaps : BTreeSet ℕ) (next : ℕ)
    → ((x : ℕ) → contains_key x gaps ≡ true → next ≤ x)
    → (x : ℕ) → contains_key x (advance fuel gaps next).0 ≡ true
    → (advance fuel gaps next).1 ≤ x
unfolding advance
advance-ahead zero gaps next ahead x = ahead x
advance-ahead (suc fuel) gaps next ahead x = elim (Bool-cases (contains_key next gaps)) [
  | inl here ↦ rw here (
      advance-ahead fuel (remove next gaps) (sat_add64 next 1)
        (λ y k. ground (arith, ahead y, contains-remove y next gaps)) x)
  | inr gone ↦ rw gone (ahead x)
]

-- Behind the checkpoint, or a gap ahead of it.
abbrev pub is_settled : ℕ → BTreeSet ℕ → ℕ → Bool
is_settled x gaps next = ltb x next || contains_key x gaps

advance-is_settled :
    (fuel : ℕ) (gaps : BTreeSet ℕ) (next : ℕ)
    → ((x : ℕ) → contains_key x gaps ≡ true → x < u64_max)
    → (x : ℕ)
    → is_settled x (advance fuel gaps next).0 (advance fuel gaps next).1 ≡ is_settled x gaps next
unfolding advance
advance-is_settled zero gaps next below x = refl
advance-is_settled (suc fuel) gaps next below x = ground (
  arith,
  advance-is_settled fuel (remove next gaps) (sat_add64 next 1)
      (λ y k. ground (arith, below y, contains-remove y next gaps)) x,
  contains-remove x next gaps,
  below next,
)

-- The checkpoint is a `u64`, and the gaps lie ahead of it.
pub record IsCheckpoint (p : AggregateGroupPartition) : Type 0 where
  pub in_range : p.next_position ≤ u64_max
  pub ahead : (x : ℕ) → contains_key x p.resolved_gaps ≡ true → p.next_position < x

-- The stored positions are those that a partition can assign: the last one stays free.
abbrev pub GapsInRange : AggregateGroupPartition → Type 0
GapsInRange p = (x : ℕ) → contains_key x p.resolved_gaps ≡ true → x < u64_max

abbrev pub settled : AggregateGroupPartition → ℕ → Bool
settled p x = is_settled x p.resolved_gaps p.next_position

-- Not settled, stated by its parts.
abbrev pub IsOpen : AggregateGroupPartition → ℕ → Type 0
IsOpen p x = (p.next_position ≤ x) × (contains_key x p.resolved_gaps ≡ false)

module _ (position : ℕ) (p : AggregateGroupPartition) where
  pub resolve-IsOpen : (q : ℕ) → IsOpen p q → q ≢ position → IsOpen (resolve position p) q
  unfolding resolve
  resolve-IsOpen q o n = ground (
    arith,
    advance-open (length (insert position tt p.resolved_gaps)) (insert position tt p.resolved_gaps)
        p.next_position q,
    contains-insert q position p.resolved_gaps,
  )

  pub next_position-resolve : IsCheckpoint p → p.next_position ≤ (resolve position p).next_position
  unfolding resolve
  next_position-resolve v = ground (
    arith,
    advance-ge (length (insert position tt p.resolved_gaps)) (insert position tt p.resolved_gaps)
        p.next_position,
  )

  ahead-resolve :
      IsCheckpoint p
      → (x : ℕ) → contains_key x (resolve position p).resolved_gaps ≡ true
      → (resolve position p).next_position < x
  unfolding resolve
  ahead-resolve v x = elim (Bool-cases (ltb position p.next_position)) [
    | inl behind ↦ rw behind (v.ahead x)
    | inr fresh ↦
        let gaps = insert position tt p.resolved_gaps in
        rw fresh λ h. ground (
          arith,
          advance-ahead (length gaps) gaps p.next_position
              (λ y k. ground (arith, v.ahead y, contains-insert y position p.resolved_gaps)) x h,
          advance-stops (length gaps) gaps p.next_position (omega arith),
        )
  ]

  pub resolve-IsCheckpoint : IsCheckpoint p → IsCheckpoint (resolve position p)
  unfolding resolve
  resolve-IsCheckpoint v = record {
    in_range = ground (
      arith,
      advance-ge (length (insert position tt p.resolved_gaps)) (insert position tt p.resolved_gaps)
          p.next_position,
    );
    ahead = ahead-resolve v;
  }

  -- If the position and the gaps are below the last `u64`, then after `resolve` exactly the position
  -- and what was settled before are settled: behind the checkpoint or a gap.
  pub settled-resolve :
      position < u64_max
      → GapsInRange p
      → (x : ℕ) → settled (resolve position p) x ≡ (x == position || settled p x)
  unfolding resolve
  settled-resolve small below x = elim (Bool-cases (ltb position p.next_position)) [
    | inl behind ↦ rw behind (ground arith)
    | inr fresh ↦
        let gaps = insert position tt p.resolved_gaps in
        rw fresh (
          ground (
            arith,
            advance-is_settled (length gaps) gaps p.next_position
                (λ y k. ground (arith, below y, contains-insert y position p.resolved_gaps)) x,
            contains-insert x position p.resolved_gaps,
          ))
  ]
