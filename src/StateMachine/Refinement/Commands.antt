-- ===== src/StateMachine/Refinement/Commands.antt =====
-- Documents, fences, catalogs and groups on a batch and on the stored maps.
use eventfs.Prelude.{
  ℕ, ◌≡◌, refl, some, [], ◌∷◌, ◌++◌, ◌==◌, nat_ord, list_ord, pair_ord, Option-cases, Bool-cases,
  inl, inr, Result-cases, arith,
}
use eventfs.BTreeMap.{get, insert}
use eventfs.BTreeMap.Laws.{get-insert}
use eventfs.Identifier
use eventfs.Identifier.{AggregateTypeId, type_id_ord, validate_aggregate_identifier}
use eventfs.Catalog.{AggregateCatalog}
use eventfs.Group.{AggregateGroupPartition}
use eventfs.GroupCatalog.{AggregateGroupCatalog}
use eventfs.StateMachine.{
  PartitionKey, Storage, put_state, put_state_modified, put_partition_fence, put_catalog,
  put_group_catalog, put_group_partition, write, write_all, PutStateRequest, GroupPartitionRequest,
  ApplyBatch,
}
use eventfs.StateMachine.Batch.{
  read_fence, read_catalog, read_group_catalog, batch_aggregate_version, batch_aggregate_state,
  batch_partition_fence,
}
use eventfs.StateMachine.Commands
use eventfs.StateMachine.Commands.{
  check_expected_revision, next_revision, new_state, document_of, group_of, current_progress,
  store_state, put_existing, apply_put_aggregate_state, raise_fence, apply_partition_fence,
  apply_catalog_command, apply_group_catalog_command, store_progress, run_group_fenced,
  apply_group_partition,
}
use eventfs.StateMachine.Reference
use eventfs.StateMachine.Reference.{read_progress}
use eventfs.StateMachine.Tracking.{Tracks, version_lem, state_lem, fence_lem}
use eventfs.StateMachine.Writes.{is_plain, Written-append, Written-group}
use eventfs.StateMachine.Refinement.Append.{Agrees}

module _ (s : Storage) (r : PutStateRequest) where
  Tracks-store_state :
      (revision : ℕ) (b : ApplyBatch) (m : Storage)
      → Tracks s b m
      → Tracks s (store_state s r revision b) (
          write
            (put_state_modified (document_of r) r.hlc)
            (write (put_state (document_of r) (new_state r revision)) m))
  unfolding store_state write write_all is_plain
  Tracks-store_state revision b m t = record {
    written =
        Written-append
          (put_state (document_of r) (new_state r revision)
            ∷ put_state_modified (document_of r) r.hlc
            ∷ [])
          b.ops s m refl t.written;
    versions = t.versions;
    heads = t.heads;
    states = λ j. ground (
      arith,
      get-insert j (document_of r) (some (new_state r revision)) b.aggregate_states,
      get-insert j (document_of r) (new_state r revision) m.states,
      t.states j,
    );
    identities = t.identities;
    fences = t.fences;
    catalog = t.catalog;
    group_catalog = t.group_catalog;
    groups = t.groups;
  }

  Agrees-put_compared :
      (b : ApplyBatch) (m : Storage)
      → Tracks s b m
      → Agrees s (Commands.put_compared s r b) (Reference.put_compared r m)
  unfolding Commands.put_compared Reference.put_compared
  Agrees-put_compared b m t =
      let (read, t') = state_lem s (document_of r) b m t in
      let current = get (document_of r) m.states in
      let b' = (batch_aggregate_state s (document_of r) b).0 in
      elim (Bool-cases (check_expected_revision r.expected_revision current)) [
        | inr conflict ↦ rw (read, conflict) (refl, t')
        | inl expected ↦ elim (Option-cases (next_revision current)) [
          | inl e ↦ rw (read, expected, e, Commands.put_compared, Reference.put_compared) (refl, t')
          | inr (v, e) ↦
              rw (read, expected, e, Commands.put_compared, Reference.put_compared)
                (refl, Tracks-store_state v b' m t')
        ]
      ]

  Agrees-put_fenced :
      (b : ApplyBatch) (m : Storage)
      → Tracks s b m
      → Agrees s (Commands.put_fenced s r b) (Reference.put_fenced r m)
  unfolding Commands.put_fenced Reference.put_fenced put_existing
  Agrees-put_fenced b m t =
      let key : PartitionKey = (r.aggregate_type, r.partition_id) in
      let (fence, t1) = fence_lem s key b m t in
      let b1 = (batch_partition_fence s key b).0 in
      let (read, t2) = version_lem s (document_of r) b1 m t1 in
      let b2 = (batch_aggregate_version s (document_of r) b1).0 in
      rw fence (elim (Bool-cases (read_fence m key == r.partition_generation)) [
        | inr other ↦ rw other (refl, t1)
        | inl same ↦ rw same (elim (Option-cases (get (document_of r) m.metas)) [
          | inl e ↦ rw (read, e, put_existing, Reference.put_fenced) (refl, t2)
          | inr (v, e) ↦
              rw (read, e, put_existing, Reference.put_fenced) (Agrees-put_compared b2 m t2)
        ])
      ])

  pub Agrees-put :
      (b : ApplyBatch) (m : Storage)
      → Tracks s b m
      → Agrees s (apply_put_aggregate_state s r b) (Reference.put r m)
  unfolding apply_put_aggregate_state Reference.put
  Agrees-put b m t = elim (Result-cases (Identifier.validate r.aggregate_type)) [
    | inl (e, h) ↦ rw (h, apply_put_aggregate_state, Reference.put) (refl, t)
    | inr h ↦
        rw (h, apply_put_aggregate_state, Reference.put)
          (elim (Result-cases (validate_aggregate_identifier r.aggregate_id)) [
            | inl (e, k) ↦ rw (k, apply_put_aggregate_state, Reference.put) (refl, t)
            | inr k ↦ rw (k, apply_put_aggregate_state, Reference.put) (Agrees-put_fenced b m t)
          ])
  ]

module _ (s : Storage) (b : ApplyBatch) (m : Storage) (t : Tracks s b m) where
  pub Tracks-fence :
      (k : PartitionKey) (generation : ℕ)
      → Tracks s
          (record b {
            ops = b.ops ++ put_partition_fence k generation ∷ [];
            aggregate_partition_fences = insert k generation b.aggregate_partition_fences;
          })
          (write (put_partition_fence k generation) m)
  unfolding write write_all is_plain
  Tracks-fence k generation = record {
    written = Written-append (put_partition_fence k generation ∷ []) b.ops s m refl t.written;
    versions = t.versions;
    heads = t.heads;
    states = t.states;
    identities = t.identities;
    fences = λ j. ground (
      arith,
      get-insert j k generation b.aggregate_partition_fences,
      get-insert j k generation m.partition_fences,
      t.fences j,
    );
    catalog = t.catalog;
    group_catalog = t.group_catalog;
    groups = t.groups;
  }

  pub Tracks-catalog :
      (c : AggregateCatalog)
      → Tracks s
          (record b { ops = b.ops ++ put_catalog c ∷ []; aggregate_catalog = some c })
          (write (put_catalog c) m)
  unfolding write write_all is_plain
  Tracks-catalog c = record {
    written = Written-append (put_catalog c ∷ []) b.ops s m refl t.written;
    versions = t.versions;
    heads = t.heads;
    states = t.states;
    identities = t.identities;
    fences = t.fences;
    catalog = refl;
    group_catalog = t.group_catalog;
    groups = t.groups;
  }

  pub Tracks-group_catalog :
      (c : AggregateGroupCatalog)
      → Tracks s
          (record b { ops = b.ops ++ put_group_catalog c ∷ []; aggregate_group_catalog = some c })
          (write (put_group_catalog c) m)
  unfolding write write_all is_plain
  Tracks-group_catalog c = record {
    written = Written-append (put_group_catalog c ∷ []) b.ops s m refl t.written;
    versions = t.versions;
    heads = t.heads;
    states = t.states;
    identities = t.identities;
    fences = t.fences;
    catalog = t.catalog;
    group_catalog = refl;
    groups = t.groups;
  }

  pub Tracks-store_progress :
      (r : GroupPartitionRequest) (v : AggregateGroupPartition)
      → Tracks s (store_progress s r v b) (write (put_group_partition (group_of r) v) m)
  unfolding store_progress write
  Tracks-store_progress r v = record {
    written = Written-group (group_of r) v b.ops s m t.written;
    versions = t.versions;
    heads = t.heads;
    states = t.states;
    identities = t.identities;
    fences = t.fences;
    catalog = t.catalog;
    group_catalog = t.group_catalog;
    groups = λ j. ground (
      arith,
      get-insert j (group_of r) v b.aggregate_group_partitions,
      get-insert j (group_of r) v m.group_partitions,
      t.groups j,
    );
  }

  -- A read of the catalog remembers it.
  pub Tracks-read_catalog :
      (c : AggregateCatalog)
      → c ≡ read_catalog m
      → Tracks s (record b { aggregate_catalog = some c }) m
  Tracks-read_catalog c e = record {
    written = t.written;
    versions = t.versions;
    heads = t.heads;
    states = t.states;
    identities = t.identities;
    fences = t.fences;
    catalog = e;
    group_catalog = t.group_catalog;
    groups = t.groups;
  }

  pub Tracks-read_group_catalog :
      (c : AggregateGroupCatalog)
      → c ≡ read_group_catalog m
      → Tracks s (record b { aggregate_group_catalog = some c }) m
  Tracks-read_group_catalog c e = record {
    written = t.written;
    versions = t.versions;
    heads = t.heads;
    states = t.states;
    identities = t.identities;
    fences = t.fences;
    catalog = t.catalog;
    group_catalog = e;
    groups = t.groups;
  }
