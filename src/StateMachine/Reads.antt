-- ===== src/StateMachine/Reads.antt =====
-- `read_aggregate_partition_events` of es-storage/src/state_machine.rs on the stored tables.
pub mod Documents
use eventfs.Prelude.{
  ℕ, zero, suc, ◌+◌, ◌≤◌, ◌<◌, ◌≡◌, refl, sym, ap, ◌∙◌, Option, none, some, List, [], ◌∷◌, Text,
  ◌==◌, eq_iff, eq_refl, Result-value, nat_ord, list_ord, pair_ord, Bool, true, false, not, ◌&&◌,
  ◌||◌, if◌then◌else◌, leb, take, get_elem?, Bool-cases, Option-cases, inl, inr, Result, ok, err,
  ◌>>=◌, ◌>>◌, arith,
}
use eventfs.BTreeMap.{BTreeMap, get, retain, values}
use eventfs.BTreeMap.Laws.{get-retain, IsUnique, retain-IsUnique}
use eventfs.Identifier.{type_id_ord}
use eventfs.StateMachine.{AggregateEvent, PartitionKey, NumberKey, EventKey, Storage}
use eventfs.StateMachine.Batch.{read_partition_head}
use eventfs.StateMachine.Consistency.{at_position, in_partition, IsConsistent}

pub data ReadError : Type 0 where
  missing_event : ReadError

-- The index keys of a partition from a position on.
abbrev pub is_indexed : PartitionKey → ℕ → NumberKey → Bool
is_indexed k from_position key = key.0 == k.0 && (key.1.0 == k.1 && leb from_position key.1.1)

-- As many values as the limit says, or all of them where it is 0.
unfoldable pub up_to_limit {ℓ} : {A : Type ℓ} → ℕ → List A → List A
up_to_limit limit xs = if limit == 0 then xs else take limit xs

unfoldable pub resolve_pointers :
    Storage → PartitionKey → List (Text × ℕ) → Result ReadError (List AggregateEvent)
resolve_pointers s k [] = ok []
resolve_pointers s k ((aggregate_id, aggregate_version) ∷ pointers) =
    let rest = resolve_pointers s k pointers in
    elim (get (in_partition k aggregate_id, aggregate_version) s.events) [
      | none ↦ err missing_event
      | some event ↦ do events ← rest; ok (event ∷ events)
    ]

unfoldable pub read_partition_events :
    Storage → PartitionKey → ℕ → ℕ → Result ReadError (List AggregateEvent)
read_partition_events s k from_position limit =
    resolve_pointers s k
      (up_to_limit limit (values (retain (is_indexed k from_position) s.partition_index)))

resolve_pointers-take :
    (s : Storage) (k : PartitionKey) (n : ℕ) (pointers : List (Text × ℕ))
    (events : List AggregateEvent)
    → resolve_pointers s k pointers ≡ ok events
    → resolve_pointers s k (take n pointers) ≡ ok (take n events)
unfolding resolve_pointers
resolve_pointers-take s k zero pointers events h = refl
resolve_pointers-take s k (suc n) [] events h = ground arith
resolve_pointers-take s k (suc n) ((a, v) ∷ pointers) events h =
    elim (Result-value (resolve_pointers s k pointers)) [
      | inl (e, stop) ↦ ground arith
      | inr (rest, found) ↦ ground (arith, resolve_pointers-take s k n pointers rest found)
    ]

resolve_cons :
    (s : Storage) (k : PartitionKey) (p : Text × ℕ) (pointers : List (Text × ℕ))
    (e : AggregateEvent)
    → (events : List AggregateEvent) → get (in_partition k p.0, p.1) s.events ≡ some e
    → resolve_pointers s k pointers ≡ ok events
    → resolve_pointers s k (p ∷ pointers) ≡ ok (e ∷ events)
unfolding resolve_pointers
resolve_cons s k (a, v) pointers e events found rest = ground (arith, found, rest)

-- A pointer that is in the range leads to the event of its position.
leads_lem :
    (s : Storage) (k : PartitionKey) (from_position : ℕ) (key : NumberKey) (pointer : Text × ℕ)
    → IsConsistent s
    → get key (retain (is_indexed k from_position) s.partition_index) ≡ some pointer
    → (e : AggregateEvent) × (get (in_partition k pointer.0, pointer.1) s.events ≡ some e)
      × (e.partition_position ≡ key.1.1)
leads_lem s k from_position key pointer w h =
    let kept = get-retain key (is_indexed k from_position) s.partition_index in
    let in_type : key.0 ≡ k.0 = ground (arith, kept, h, eq_iff key.0 k.0) in
    let in_partition_id : key.1.0 ≡ k.1 = ground (arith, kept, h, eq_iff key.1.0 k.1) in
    let stored : get key s.partition_index ≡ some pointer = ground (arith, kept, h) in
    let same : key ≡ at_position k key.1.1 = ground (arith, in_type, in_partition_id) in
    (w.pointed k key.1.1 pointer.0 pointer.1
      (ap (λ z. get z s.partition_index) (sym same) ∙ stored)).1

-- Where every pointer leads to the event of its position, the events of all of them are returned.
resolve_lem :
    (s : Storage) (k : PartitionKey) (index : BTreeMap NumberKey (Text × ℕ))
    → IsUnique index
    → ((key : NumberKey) (pointer : Text × ℕ)
        → get key index ≡ some pointer
        → (e : AggregateEvent) × (get (in_partition k pointer.0, pointer.1) s.events ≡ some e)
          × (e.partition_position ≡ key.1.1))
    → (events : List AggregateEvent) × (resolve_pointers s k (values index) ≡ ok events)
      × ((key : NumberKey) (pointer : Text × ℕ)
          → get key index ≡ some pointer
          → (i : ℕ) × (e : AggregateEvent) × (get_elem? events i ≡ some e)
            × (e.partition_position ≡ key.1.1))
unfolding resolve_pointers get IsUnique
resolve_lem s k [] u leads = ([], refl, λ key pointer h. absurd (ground arith))
resolve_lem s k ((j, p) ∷ index) (fresh, u) leads =
    let (e, found, at) = leads j p (rw (eq_refl j) refl) in
    let (events, resolved, rest) =
      resolve_lem s k index u
        (λ key pointer h. leads key pointer (ground (arith, h, eq_iff key j, fresh))) in
    (
      e ∷ events,
      resolve_cons s k p (values index) e events found resolved,
      λ key pointer h. elim (Bool-cases (key == j)) [
        | inl same ↦ (0, e, refl, ground (arith, at, eq_iff key j, same))
        | inr other ↦
            let (i, e', there, at') = rest key pointer (ground (arith, h, other)) in
            (suc i, e', there, at')
      ],
    )

-- Reading a partition of consistent event tables succeeds with any limit: it returns the first events,
-- as many as the limit says, of those that it returns without a limit, and among these is one for each
-- position from the given one on and below the head. Every key of the index stands once.
pub read_partition_events_lem :
    (s : Storage) (k : PartitionKey) (from_position limit n : ℕ)
    → IsConsistent s
    → IsUnique s.partition_index
    → from_position ≤ n
    → n < read_partition_head s k
    → (events : List AggregateEvent) × (read_partition_events s k from_position 0 ≡ ok events)
      × (read_partition_events s k from_position limit ≡ ok (up_to_limit limit events))
      × (i : ℕ) × (e : AggregateEvent) × (get_elem? events i ≡ some e)
      × (e.partition_position ≡ n)
unfolding read_partition_events up_to_limit
read_partition_events_lem s k from_position limit n w unique from_here below =
    let index = retain (is_indexed k from_position) s.partition_index in
    let (pointer, stored) = w.full k n below in
    let key = at_position k n in
    let kept : get key index ≡ some pointer = ground (
      arith,
      get-retain key (is_indexed k from_position) s.partition_index,
      stored,
      eq_refl k.0,
      eq_refl k.1,
    ) in
    let (events, resolved, covered) =
      resolve_lem s k index (retain-IsUnique (is_indexed k from_position) s.partition_index unique)
        (λ key pointer h. leads_lem s k from_position key pointer w h) in
    let (i, e, there, at) = covered key pointer kept in
    (
      events,
      resolved,
      elim (Bool-cases (limit == 0)) [
        | inl all ↦ rw all resolved
        | inr some_of ↦ rw some_of (resolve_pointers-take s k limit (values index) events resolved)
      ],
      i,
      e,
      there,
      at,
    )
