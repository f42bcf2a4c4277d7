-- ===== src/StateMachine/Monotone.antt =====
-- What never goes back: the fences of the partitions and the revisions of the documents.
use eventfs.Prelude.{
  ℕ, ◌+◌, ◌≤◌, ◌≡◌, ap, max, Option, none, some, List, [], ◌∷◌, ◌==◌, eq_iff, nat_ord, list_ord,
  pair_ord, Bool-cases, Option-cases, inl, inr, arith,
}
use eventfs.BTreeMap.{get}
use eventfs.BTreeMap.Laws.{get-insert}
use eventfs.Identifier.{type_id_ord}
use eventfs.Catalog.{Xxh3}
use eventfs.StateMachine.{
  AggregateState, PartitionKey, InstanceKey, Storage, write, write_all, AppendRequest,
  PutStateRequest, GroupPartitionRequest, EsRequest, aggregate_append, put_aggregate_state,
  install_partition_fence, commit_catalog, commit_group_catalog, group_partition,
}
use eventfs.StateMachine.Batch.{unwrap_or, read_fence}
use eventfs.StateMachine.Commands.{new_state, next_revision, document_of}
use eventfs.StateMachine.Apply.{EntryPayload, blank, normal, membership, Entry}
use eventfs.StateMachine.Reference
use eventfs.StateMachine.Reference.{
  append, put, install_fence, run_catalog, run_group_catalog, run_group, step, run_payload,
  run_entries,
}

-- An append leaves fences and documents alone.
append_rest :
    (x : Xxh3) (r : AppendRequest) (s : Storage)
    → ((append x r s).0.partition_fences ≡ s.partition_fences)
      × ((append x r s).0.states ≡ s.states)
unfolding append Reference.append_validated Reference.append_versioned Reference.append_at write
    write_all
append_rest x r s = (ground arith, ground arith)

put_fences : (r : PutStateRequest) (s : Storage) → (put r s).0.partition_fences ≡ s.partition_fences
unfolding put Reference.put_fenced Reference.put_compared write
put_fences r s = ground arith

group_rest :
    (r : GroupPartitionRequest) (s : Storage)
    → ((run_group r s).0.partition_fences ≡ s.partition_fences)
      × ((run_group r s).0.states ≡ s.states)
unfolding run_group Reference.run_fenced write
group_rest r s = (ground arith, ground arith)

-- The revision of a document, and no document below all of them.
abbrev pub revision_rank : Option AggregateState → ℕ
revision_rank none = 0
revision_rank (some state) = state.revision + 1

compared_rank :
    (k : InstanceKey) (r : PutStateRequest) (s : Storage)
    → revision_rank (get k s.states) ≤ revision_rank (get k (Reference.put_compared r s).0.states)
unfolding Reference.put_compared write
compared_rank k r s = elim (Option-cases (next_revision (get (document_of r) s.states))) [
  | inl e ↦ ground arith
  | inr (v, e) ↦
      let key = eq_iff k (document_of r) in
      elim (Bool-cases (k == document_of r)) [
        | inl same ↦ ground (
          arith,
          get-insert k (document_of r) (new_state r v) s.states,
          ap (λ z. get z s.states) (key.0 same),
        )
        | inr other ↦ ground (arith, get-insert k (document_of r) (new_state r v) s.states)
      ]
]

put_rank :
    (k : InstanceKey) (r : PutStateRequest) (s : Storage)
    → revision_rank (get k s.states) ≤ revision_rank (get k (put r s).0.states)
unfolding put Reference.put_fenced
put_rank k r s = ground (arith, compared_rank k r s)

module _ (x : Xxh3) where
  fence_step :
      (k : PartitionKey) (request : EsRequest) (s : Storage)
      → read_fence s k ≤ read_fence (step x request s).0 k
  unfolding step
  fence_step k (aggregate_append r) s =
      omega (arith, ap (λ z. unwrap_or 0 (get k z)) (append_rest x r s).0)
  fence_step k (put_aggregate_state r) s =
      omega (arith, ap (λ z. unwrap_or 0 (get k z)) (put_fences r s))
  fence_step k (install_partition_fence t p g) s =
      let key : PartitionKey = (t, p) in
      unfold install_fence write in
      ground (
        arith,
        get-insert k key (max (read_fence s key) g) s.partition_fences,
        λ (e : k ≡ key). ap (read_fence s) e,
        eq_iff k key,
      )
  fence_step k (commit_catalog command) s = unfold run_catalog write in ground arith
  fence_step k (commit_group_catalog command) s = unfold run_group_catalog write in ground arith
  fence_step k (group_partition r) s =
      omega (arith, ap (λ z. unwrap_or 0 (get k z)) (group_rest r s).0)

  revision_step :
      (k : InstanceKey) (request : EsRequest) (s : Storage)
      → revision_rank (get k s.states) ≤ revision_rank (get k (step x request s).0.states)
  unfolding step
  revision_step k (aggregate_append r) s =
      omega (arith, ap (λ z. revision_rank (get k z)) (append_rest x r s).1)
  revision_step k (put_aggregate_state r) s = put_rank k r s
  revision_step k (install_partition_fence t p g) s = unfold install_fence write in ground arith
  revision_step k (commit_catalog command) s = unfold run_catalog write in ground arith
  revision_step k (commit_group_catalog command) s = unfold run_group_catalog write in ground arith
  revision_step k (group_partition r) s =
      omega (arith, ap (λ z. revision_rank (get k z)) (group_rest r s).1)

-- What no request lowers, no sequence of entries lowers.
module _ (x : Xxh3) (measure : Storage → ℕ)
    (keep : (request : EsRequest) (s : Storage) → measure s ≤ measure (step x request s).0) where
  measure_payload :
      {Membership : Type 0} (p : EntryPayload Membership) (s : Storage)
      → measure s ≤ measure (run_payload x p s).0
  unfolding run_payload
  measure_payload blank s = omega arith
  measure_payload (normal request) s = keep request s
  measure_payload (membership mem) s = omega arith

  measure_entries :
      {LogId Membership : Type 0} (entries : List (Entry LogId Membership)) (s : Storage)
      → measure s ≤ measure (run_entries x entries s).0
  unfolding run_entries
  measure_entries [] s = omega arith
  measure_entries (entry ∷ entries) s = omega (
    arith,
    measure_payload entry.payload s,
    measure_entries entries (run_payload x entry.payload s).0,
  )

module _ {LogId Membership : Type 0} (x : Xxh3) (entries : List (Entry LogId Membership))
    (s : Storage) where
  pub fence-run_entries :
      (k : PartitionKey) → read_fence s k ≤ read_fence (run_entries x entries s).0 k
  fence-run_entries k = measure_entries x (λ z. read_fence z k) (fence_step x k) entries s

  pub revision-run_entries :
      (k : InstanceKey)
      → revision_rank (get k s.states) ≤ revision_rank (get k (run_entries x entries s).0.states)
  revision-run_entries k =
      measure_entries x (λ z. revision_rank (get k z.states)) (revision_step x k) entries s
