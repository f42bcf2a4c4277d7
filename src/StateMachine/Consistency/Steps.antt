-- ===== src/StateMachine/Consistency/Steps.antt =====
-- The event tables through requests and transactions.
use eventfs.Prelude.{
  ℕ, ◌+◌, ◌≤◌, ◌≡◌, ap, Option, some, List, [], ◌∷◌, length, ◌==◌, nat_ord, list_ord, pair_ord,
  Bool-cases, Option-cases, Result-cases, inl, inr, arith,
}
use eventfs.Prelude.Words.{u64_max, checked_suc64}
use eventfs.BTreeMap.{get}
use eventfs.Identifier
use eventfs.Identifier.{type_id_ord, validate_aggregate_identifier}
use eventfs.Catalog.{Xxh3}
use eventfs.Append.{check_expected_aggregate_version}
use eventfs.StateMachine.{
  Storage, write, AppendRequest, EsRequest, aggregate_append, put_aggregate_state,
  install_partition_fence, commit_catalog, commit_group_catalog, group_partition,
}
use eventfs.StateMachine.Batch.{read_fence, read_group_catalog, read_partition_head}
use eventfs.StateMachine.Append.{partition_of, instance_of, identity_of, next_version}
use eventfs.StateMachine.Apply
use eventfs.StateMachine.Apply.{EntryPayload, blank, normal, membership, Entry, Machine}
use eventfs.StateMachine.Reference
use eventfs.StateMachine.Reference.{append, step, run_payload, run_entries}
use eventfs.StateMachine.Refinement.Transactions.{Same-refl}
use eventfs.StateMachine.Refinement.Machine.{apply-run_entries}
use eventfs.StateMachine.Consistency.{IsConsistent}
use eventfs.StateMachine.Consistency.Append.{IsConsistent-after}

-- Only the event tables matter.
same_tables :
    (s m : Storage)
    → m.events ≡ s.events
    → m.metas ≡ s.metas
    → m.partition_index ≡ s.partition_index
    → ((k : _) → read_partition_head m k ≡ read_partition_head s k)
    → IsConsistent s
    → IsConsistent m
same_tables s m events metas index heads w = record {
  placed = λ k a v e h. ground (arith, w.placed k a v e, events, index);
  pointed = λ k n a v h. ground (arith, w.pointed k n a v, events, index, heads k);
  full = λ k n h. ground (arith, w.full k n, index, heads k);
  bounded = λ k v e h. ground (arith, w.bounded k v e, events, metas);
  versioned = λ k c v h le. ground (arith, w.versioned k c v, events, metas);
}

module _ (x : Xxh3) (r : AppendRequest) (s : Storage) (w : IsConsistent s) where
  append_at-IsConsistent :
      (version : ℕ)
      → next_version (get (instance_of r) s.metas) ≡ some version
      → IsConsistent (Reference.append_at x r version s).0
  unfolding Reference.append_at
  append_at-IsConsistent version h =
      elim (Option-cases (checked_suc64 (read_partition_head s (partition_of r)))) [
        | inl full ↦ rw (full, Reference.append_at) w
        | inr (n, room) ↦
            rw (room, Reference.append_at) (IsConsistent-after x r s w version n h room)
      ]

  append_versioned-IsConsistent : IsConsistent (Reference.append_versioned x r s).0
  unfolding Reference.append_versioned
  append_versioned-IsConsistent =
      let current = get (instance_of r) s.metas in
      elim (Bool-cases (check_expected_aggregate_version r.expected_version current)) [
        | inr conflict ↦ rw conflict w
        | inl expected ↦ elim (Option-cases (next_version current)) [
          | inl spent ↦ rw (expected, spent, Reference.append_versioned) w
          | inr (version, h) ↦
              rw (expected, h, Reference.append_versioned) (append_at-IsConsistent version h)
        ]
      ]

  append_validated-IsConsistent : IsConsistent (Reference.append_validated x r s).0
  unfolding Reference.append_validated
  append_validated-IsConsistent = elim (Option-cases (get (identity_of r) s.idempotency)) [
    | inr (existing, h) ↦ rw (h, Reference.append_validated) w
    | inl h ↦
        rw (h, Reference.append_validated)
          (elim (Bool-cases (read_fence s (partition_of r) == r.partition_generation)) [
            | inl same ↦ rw same append_versioned-IsConsistent
            | inr other ↦ rw other w
          ])
  ]

  append-IsConsistent : IsConsistent (append x r s).0
  unfolding append
  append-IsConsistent = elim (Result-cases (Identifier.validate r.aggregate_type)) [
    | inl (e, h) ↦ rw (h, append) w
    | inr h ↦
        rw (h, append)
          (elim (Result-cases (validate_aggregate_identifier r.aggregate_id)) [
            | inl (e, k) ↦ rw (k, append) w
            | inr k ↦
                rw (k, append)
                  (elim (Bool-cases (length r.event.event_type == 0)) [
                    | inl empty ↦ rw empty w
                    | inr named ↦ rw named append_validated-IsConsistent
                  ])
          ])
  ]

module _ (x : Xxh3) where
  step-IsConsistent :
      (request : EsRequest) (s : Storage) → IsConsistent s → IsConsistent (step x request s).0
  unfolding step
  step-IsConsistent (aggregate_append r) s w = append-IsConsistent x r s w
  step-IsConsistent (put_aggregate_state r) s w =
      unfold Reference.put Reference.put_fenced Reference.put_compared write in
      same_tables s _ (ground arith) (ground arith) (ground arith) (λ k. ground arith) w
  step-IsConsistent (install_partition_fence t p g) s w =
      unfold Reference.install_fence write in
      same_tables s _ (ground arith) (ground arith) (ground arith) (λ k. ground arith) w
  step-IsConsistent (commit_catalog command) s w =
      unfold Reference.run_catalog write in
      same_tables s _ (ground arith) (ground arith) (ground arith) (λ k. ground arith) w
  step-IsConsistent (commit_group_catalog command) s w =
      unfold Reference.run_group_catalog write in
      same_tables s _ (ground arith) (ground arith) (ground arith) (λ k. ground arith) w
  step-IsConsistent (group_partition r) s w =
      unfold Reference.run_group Reference.run_fenced write in
      same_tables s _ (ground arith) (ground arith) (ground arith) (λ k. ground arith) w

  pub run_payload-IsConsistent :
      {Membership : Type 0} (p : EntryPayload Membership) (s : Storage)
      → IsConsistent s
      → IsConsistent (run_payload x p s).0
  unfolding run_payload
  run_payload-IsConsistent blank s w = w
  run_payload-IsConsistent (normal request) s w = step-IsConsistent request s w
  run_payload-IsConsistent (membership mem) s w = w

  run_entries-IsConsistent :
      {LogId Membership : Type 0} (entries : List (Entry LogId Membership)) (s : Storage)
      → IsConsistent s
      → IsConsistent (run_entries x entries s).0
  unfolding run_entries
  run_entries-IsConsistent [] s w = w
  run_entries-IsConsistent (entry ∷ entries) s w =
      run_entries-IsConsistent entries (run_payload x entry.payload s).0
        (run_payload-IsConsistent entry.payload s w)

-- A transaction keeps the event tables consistent: positions and versions have no gaps, no event is
-- without a pointer and no pointer without its event, if the revision of the group catalog does not
-- reach the last `u64`.
pub apply-IsConsistent :
    {LogId Membership Stored : Type 0} (stored_membership : Option LogId → Membership → Stored)
    → (x : Xxh3) (entries : List (Entry LogId Membership)) (m : Machine LogId Stored)
    → (read_group_catalog m.storage).revision + length entries ≤ u64_max
    → IsConsistent m.storage
    → IsConsistent (Apply.apply stored_membership x entries m).0.storage
apply-IsConsistent stored_membership x entries m h w =
    let s = (run_entries x entries m.storage).0 in
    let stored = (Apply.apply stored_membership x entries m).0.storage in
    let (answers, same) =
      apply-run_entries stored_membership x entries m m.storage h (Same-refl m.storage) in
    same_tables s stored (ap (λ z. z.events) same.tables) (ap (λ z. z.metas) same.tables)
      (ap (λ z. z.partition_index) same.tables) same.heads
      (run_entries-IsConsistent x entries m.storage w)
