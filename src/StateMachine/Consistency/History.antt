-- ===== src/StateMachine/Consistency/History.antt =====
-- Stored events through requests and transactions.
use eventfs.Prelude.{
  ℕ, ◌+◌, ◌≤◌, ◌≡◌, ap, ◌∙◌, Option, some, List, [], ◌∷◌, length, ◌==◌, eq_iff, nat_ord, list_ord,
  pair_ord, Bool-cases, Option-cases, inl, inr, arith,
}
use eventfs.Prelude.Words.{u64_max}
use eventfs.BTreeMap.{get}
use eventfs.BTreeMap.Laws.{get-insert}
use eventfs.Identifier.{type_id_ord}
use eventfs.Catalog.{Xxh3}
use eventfs.StateMachine.{
  AggregateEvent, EventKey, Storage, write, write_all, AppendRequest, EsRequest, aggregate_append,
  put_aggregate_state, install_partition_fence, commit_catalog, commit_group_catalog,
  group_partition,
}
use eventfs.StateMachine.Batch.{read_group_catalog, read_partition_head}
use eventfs.StateMachine.Append
use eventfs.StateMachine.Append.{instance_of, next_version, stored_event}
use eventfs.StateMachine.Apply
use eventfs.StateMachine.Apply.{EntryPayload, blank, normal, membership, Entry, Machine}
use eventfs.StateMachine.Reference
use eventfs.StateMachine.Reference.{append, step, run_payload, run_entries}
use eventfs.StateMachine.Refinement.Transactions.{Same-refl}
use eventfs.StateMachine.Refinement.Machine.{apply-run_entries}
use eventfs.StateMachine.Consistency.{IsConsistent}
use eventfs.StateMachine.Consistency.Steps.{run_payload-IsConsistent}

module _ (x : Xxh3) (key : EventKey) (e : AggregateEvent) where
  -- The new event stands at a key of its own.
  kept_at :
      (r : AppendRequest) (version : ℕ) (s : Storage)
      → IsConsistent s
      → next_version (get (instance_of r) s.metas) ≡ some version
      → get key s.events ≡ some e
      → get key (Reference.append_at x r version s).0.events ≡ some e
  unfolding Reference.append_at write write_all
  kept_at r version s w next h =
      let new_key : EventKey = (instance_of r, version) in
      let head = read_partition_head s (Append.partition_of r) in
      let (current, known, le) = w.bounded key.0 key.1 e h in
      elim (Bool-cases (key == new_key)) [
        | inl same ↦
            let meets : key ≡ new_key = (eq_iff key new_key).0 same in
            ground (
              arith,
              ap (λ (z : EventKey). get z.0 s.metas) meets,
              ap (λ (z : EventKey). z.1) meets,
            )
        | inr other ↦ ground (arith, get-insert key new_key (stored_event r version head) s.events)
      ]

  kept_append :
      (r : AppendRequest) (s : Storage)
      → IsConsistent s
      → get key s.events ≡ some e
      → get key (append x r s).0.events ≡ some e
  unfolding append Reference.append_validated Reference.append_versioned
  kept_append r s w h = elim (Option-cases (next_version (get (instance_of r) s.metas))) [
    | inl spent ↦ ground arith
    | inr (version, next) ↦ ground (arith, kept_at r version s w)
  ]

  kept_step :
      (request : EsRequest) (s : Storage)
      → IsConsistent s
      → get key s.events ≡ some e
      → get key (step x request s).0.events ≡ some e
  unfolding step
  kept_step (aggregate_append r) s w h = kept_append r s w h
  kept_step (put_aggregate_state r) s w h =
      unfold Reference.put Reference.put_fenced Reference.put_compared write in ground arith
  kept_step (install_partition_fence t p g) s w h =
      unfold Reference.install_fence write in ground arith
  kept_step (commit_catalog command) s w h = unfold Reference.run_catalog write in ground arith
  kept_step (commit_group_catalog command) s w h =
      unfold Reference.run_group_catalog write in ground arith
  kept_step (group_partition r) s w h =
      unfold Reference.run_group Reference.run_fenced write in ground arith

  kept_payload :
      {Membership : Type 0} (p : EntryPayload Membership) (s : Storage)
      → IsConsistent s
      → get key s.events ≡ some e
      → get key (run_payload x p s).0.events ≡ some e
  unfolding run_payload
  kept_payload blank s w h = h
  kept_payload (normal request) s w h = kept_step request s w h
  kept_payload (membership mem) s w h = h

  kept_entries :
      {LogId Membership : Type 0} (entries : List (Entry LogId Membership)) (s : Storage)
      → IsConsistent s
      → get key s.events ≡ some e
      → get key (run_entries x entries s).0.events ≡ some e
  unfolding run_entries
  kept_entries [] s w h = h
  kept_entries (entry ∷ entries) s w h =
      kept_entries entries (run_payload x entry.payload s).0
        (run_payload-IsConsistent x entry.payload s w) (kept_payload entry.payload s w h)

-- An event that is stored stays stored as it is: where the event tables are consistent, no
-- transaction changes or removes it, if the revision of the group catalog does not reach the last
-- `u64`.
pub apply-keeps_events :
    {LogId Membership Stored : Type 0} (stored_membership : Option LogId → Membership → Stored)
    → (x : Xxh3) (entries : List (Entry LogId Membership)) (m : Machine LogId Stored)
    → (read_group_catalog m.storage).revision + length entries ≤ u64_max
    → IsConsistent m.storage
    → (key : EventKey) (e : AggregateEvent) → get key m.storage.events ≡ some e
    → get key (Apply.apply stored_membership x entries m).0.storage.events ≡ some e
apply-keeps_events stored_membership x entries m room w key e h =
    let (answers, same) =
      apply-run_entries stored_membership x entries m m.storage room (Same-refl m.storage) in
    ap (λ s. get key s.events) same.tables ∙ kept_entries x key e entries m.storage w h
