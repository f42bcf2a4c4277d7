-- ===== src/StateMachine/Consistency/Append.antt =====
-- An append keeps the event tables consistent: each clause of the invariant.
use eventfs.Prelude.{
  ℕ, ◌+◌, ◌≤◌, ◌<◌, ◌≡◌, ◌≢◌, sym, ap, ◌∙◌, some, Text, ◌==◌, eq_iff, nat_ord, list_ord, pair_ord,
  if◌then◌else◌, Bool-cases, Option-cases, inl, inr, arith,
}
use eventfs.Prelude.Words.{u64_max, checked_suc64}
use eventfs.BTreeMap.{get}
use eventfs.BTreeMap.Laws.{get-insert}
use eventfs.Identifier.{type_id_ord}
use eventfs.Catalog.{Xxh3}
use eventfs.StateMachine.{
  AggregateEvent, PartitionKey, InstanceKey, NumberKey, EventKey, Storage, put_next_position, write,
  write_all, AppendRequest,
}
use eventfs.StateMachine.Batch.{read_partition_head}
use eventfs.StateMachine.Append.{partition_of, instance_of, stored_event, next_version, event_ops}
use eventfs.StateMachine.Consistency.{at_position, in_partition, IsConsistent}

module _ (x : Xxh3) (r : AppendRequest) (s : Storage) (w : IsConsistent s)
    (version next_position : ℕ)
    (is_next : next_version (get (instance_of r) s.metas) ≡ some version)
    (has_room : checked_suc64 (read_partition_head s (partition_of r)) ≡ some next_position) where
  abbrev pub head : ℕ
  head = read_partition_head s (partition_of r)

  abbrev pub after : Storage
  after =
      write (put_next_position (partition_of r) next_position)
        (write_all (event_ops x s r version head) s)

  -- No event of the instance has the new version.
  new_version : (e : AggregateEvent) → get (instance_of r, version) s.events ≡ some e → ⊥
  new_version e h = let (current, known, le) = w.bounded (instance_of r) version e h in ground arith

  -- No pointer stands at the head.
  new_pointer :
      (a : Text) (v : ℕ)
      → get (at_position (partition_of r) head) s.partition_index ≡ some (a, v)
      → ⊥
  new_pointer a v h = omega (arith, (w.pointed (partition_of r) head a v h).0)

  abbrev new_key : EventKey
  new_key = (instance_of r, version)

  abbrev new_position : NumberKey
  new_position = at_position (partition_of r) head

  abbrev new_event : AggregateEvent
  new_event = stored_event r version head

  get_event :
      (key : EventKey)
      → get key after.events ≡ (if key == new_key then some new_event else get key s.events)
  unfolding write write_all
  get_event key = get-insert key new_key new_event s.events

  get_meta :
      (k : InstanceKey)
      → get k after.metas ≡ (if k == instance_of r then some version else get k s.metas)
  unfolding write write_all
  get_meta k = get-insert k (instance_of r) version s.metas

  get_pointer :
      (key : NumberKey)
      → get key after.partition_index ≡ (
          if key == new_position then some (r.aggregate_id, version) else get key s.partition_index)
  unfolding write write_all
  get_pointer key = get-insert key new_position (r.aggregate_id, version) s.partition_index

  get_head :
      (k : PartitionKey)
      → read_partition_head after k
        ≡ (if k == partition_of r then next_position else read_partition_head s k)
  unfolding write write_all
  get_head k = ground (arith, get-insert k (partition_of r) next_position s.next_positions)

  bounded_after :
      (k : InstanceKey) (v : ℕ) (e : AggregateEvent)
      → get (k, v) after.events ≡ some e
      → (current : ℕ) × (get k after.metas ≡ some current) × (v ≤ current)
  bounded_after k v e h =
      let key : EventKey = (k, v) in
      let stored = get_event key in
      let meta = get_meta k in
      let same_key = eq_iff key new_key in
      let same_instance = eq_iff k (instance_of r) in
      elim (Bool-cases (key == new_key)) [
        | inl same ↦
            let e : key ≡ new_key = same_key.0 same in
            (
              version,
              ground (arith, ap (λ z. z.0) e, meta, same_instance),
              ground (arith, ap (λ z. z.1) e),
            )
        | inr other ↦
            let old : get key s.events ≡ some e = ground (arith, stored) in
            let (current, known, le) = w.bounded k v e old in
            elim (Bool-cases (k == instance_of r)) [
              | inl here ↦
                  let i : k ≡ instance_of r = same_instance.0 here in
                  (version, ground (arith, meta), ground (arith, ap (λ z. get z s.metas) i))
              | inr there ↦ (current, ground (arith, meta), le)
            ]
      ]

  next_lem : (next_position ≡ head + 1) × (head < u64_max)
  next_lem = (ground arith, ground arith)

  placed_after :
      (k : PartitionKey) (a : Text) (v : ℕ) (e : AggregateEvent)
      → get (in_partition k a, v) after.events ≡ some e
      → (e.aggregate_type ≡ k.0)
        × (e.partition_id ≡ k.1)
        × (e.aggregate_id ≡ a)
        × (e.aggregate_version ≡ v)
        × (get (at_position k e.partition_position) after.partition_index ≡ some (a, v))
  placed_after k a v e h =
      let key : EventKey = (in_partition k a, v) in
      let stored = get_event key in
      elim (Bool-cases (key == new_key)) [
        | inl same ↦
            let i : key ≡ new_key = (eq_iff key new_key).0 same in
            let new : e ≡ new_event = ground (arith, stored) in
            let t : k.0 ≡ r.aggregate_type = ap (λ z. z.0.0) i in
            let p : k.1 ≡ r.partition_id = ap (λ z. z.0.1.0) i in
            let id : a ≡ r.aggregate_id = ap (λ z. z.0.1.1) i in
            let number : v ≡ version = ap (λ z. z.1) i in
            let at : at_position k e.partition_position ≡ new_position =
              cc (t, p, ap (λ z. z.partition_position) new) in
            (
              ap (λ z. z.aggregate_type) new ∙ sym t,
              ap (λ z. z.partition_id) new ∙ sym p,
              ap (λ z. z.aggregate_id) new ∙ sym id,
              ap (λ z. z.aggregate_version) new ∙ sym number,
              ground (
                arith,
                get_pointer (at_position k e.partition_position),
                (eq_iff (at_position k e.partition_position) new_position).1 at,
                id,
                number,
              ),
            )
        | inr other ↦
            let old : get key s.events ≡ some e = ground (arith, stored) in
            let (t, p, id, number, pointer) = w.placed k a v e old in
            let position = at_position k e.partition_position in
            (
              t,
              p,
              id,
              number,
              elim (Bool-cases (position == new_position)) [
                | inl taken ↦ absurd (
                    new_pointer a v (
                      ap (λ z. get z s.partition_index)
                        (sym ((eq_iff position new_position).0 taken))
                      ∙ pointer))
                | inr free ↦ ground (arith, get_pointer position, pointer)
              ],
            )
      ]

  pointed_after :
      (k : PartitionKey) (n : ℕ) (a : Text) (v : ℕ)
      → get (at_position k n) after.partition_index ≡ some (a, v)
      → (n < read_partition_head after k)
        × ((e : AggregateEvent) × (get (in_partition k a, v) after.events ≡ some e)
            × (e.partition_position ≡ n))
  pointed_after k n a v h =
      let position = at_position k n in
      let key : EventKey = (in_partition k a, v) in
      let stored = get_event key in
      let pointer = get_pointer position in
      let heads = get_head k in
      let (succ, room) = next_lem in
      elim (Bool-cases (position == new_position)) [
        | inl taken ↦
            let i : position ≡ new_position = (eq_iff position new_position).0 taken in
            let here : k ≡ partition_of r = cc i in
            let number : n ≡ head = ap (λ z. z.1.1) i in
            let id : a ≡ r.aggregate_id = ground (arith, pointer) in
            let v_new : v ≡ version = ground (arith, pointer) in
            let same : key ≡ new_key = cc (here, id, v_new) in
            (
              ground (arith, heads, (eq_iff k (partition_of r)).1 here),
              (new_event, ground (arith, stored, (eq_iff key new_key).1 same), sym number),
            )
        | inr other ↦
            let old : get position s.partition_index ≡ some (a, v) = ground (arith, pointer) in
            let (below, (e, found, number)) = w.pointed k n a v old in
            (
              ground (
                arith,
                heads,
                eq_iff k (partition_of r),
                λ (q : k ≡ partition_of r). ap (read_partition_head s) q,
              ),
              (
                e,
                elim (Bool-cases (key == new_key)) [
                  | inl same ↦ absurd (
                      new_version e
                        (ap (λ z. get z s.events) (sym ((eq_iff key new_key).0 same)) ∙ found))
                  | inr apart ↦ ground (arith, stored, found)
                ],
                number,
              ),
            )
      ]

  full_after :
      (k : PartitionKey) (n : ℕ)
      → n < read_partition_head after k
      → (pointer : Text × ℕ) × (get (at_position k n) after.partition_index ≡ some pointer)
  full_after k n h =
      let position = at_position k n in
      let pointer = get_pointer position in
      let heads = get_head k in
      let (succ, room) = next_lem in
      elim (Bool-cases (position == new_position)) [
        | inl taken ↦ ((r.aggregate_id, version), ground (arith, pointer))
        | inr other ↦
            let old : n < read_partition_head s k = elim (Bool-cases (k == partition_of r)) [
              | inr apart ↦ ground (arith, heads)
              | inl here ↦
                  let i : k ≡ partition_of r = (eq_iff k (partition_of r)).0 here in
                  let heads_same : read_partition_head s k ≡ head = ap (read_partition_head s) i in
                  elim (Bool-cases (n == head)) [
                    | inr less ↦ ground (arith, heads, heads_same)
                    | inl last ↦
                        let q : n ≡ head = (eq_iff n head).0 last in
                        let e : position ≡ new_position = cc (i, q) in
                        absurd (ground (arith, (eq_iff position new_position).1 e))
                  ]
            ] in
            let (found, e) = w.full k n old in (found, ground (arith, pointer, e))
      ]

  versioned_after :
      (k : InstanceKey) (current v : ℕ)
      → get k after.metas ≡ some current
      → v ≤ current
      → (e : AggregateEvent) × (get (k, v) after.events ≡ some e)
  versioned_after k current v h le =
      let key : EventKey = (k, v) in
      let stored = get_event key in
      let meta = get_meta k in
      elim (Bool-cases (key == new_key)) [
        | inl same ↦ (new_event, ground (arith, stored))
        | inr other ↦ elim (Bool-cases (k == instance_of r)) [
          | inr apart ↦
              let (e, found) = w.versioned k current v (ground (arith, meta)) le in
              (e, ground (arith, stored, found))
          | inl here ↦
              let i : k ≡ instance_of r = (eq_iff k (instance_of r)).0 here in
              let newest : current ≡ version = ground (arith, meta) in
              let apart : v ≢ version =
                λ q. absurd (ground (arith, (eq_iff key new_key).1 (cc (i, q)))) in
              elim (Option-cases (get k s.metas)) [
                | inl none_yet ↦ absurd (ground (arith, ap (λ z. get z s.metas) i))
                | inr (cur, known) ↦
                    let (e, found) =
                      w.versioned k cur v known (ground (arith, ap (λ z. get z s.metas) i)) in
                    (e, ground (arith, stored, found))
              ]
        ]
      ]

  pub IsConsistent-after : IsConsistent after
  IsConsistent-after = record {
    placed = placed_after;
    pointed = pointed_after;
    full = full_after;
    bounded = bounded_after;
    versioned = versioned_after;
  }
