-- ===== src/StateMachine/Tracking.antt =====
-- How a batch stands for a storage: its writes and its caches, over the storage that it began with.
use eventfs.Prelude.{
  ℕ, ◌≡◌, Option, none, some, List, [], eq_iff, nat_ord, list_ord, pair_ord, Option-cases, inl, inr,
  arith,
}
use eventfs.BTreeMap.{get}
use eventfs.BTreeMap.Laws.{get-insert}
use eventfs.Identifier.{type_id_ord}
use eventfs.Group.Progress
use eventfs.StateMachine.{
  PartitionKey, InstanceKey, NumberKey, Storage, ApplyOp, write_all, ApplyBatch,
}
use eventfs.StateMachine.Batch.{
  unwrap_or, read_fence, read_partition_head, read_catalog, read_group_catalog,
  batch_aggregate_version, batch_aggregate_state, batch_partition_position, batch_partition_fence,
  batch_idempotency, batch_group_partition,
}

-- A cache over the stored value.
abbrev pub cached {ℓ} : {A : Type ℓ} → Option A → A → A
cached none a = a
cached (some b) a = b

-- A cache that holds only what is there.
abbrev pub or_stored {ℓ} : {A : Type ℓ} → Option A → Option A → Option A
or_stored none a = a
or_stored (some b) a = some b

-- What the two storages must agree on in every entry; the positions and the group partitions are
-- compared by what they answer.
abbrev pub forget : Storage → Storage
forget s = record s { next_positions = []; group_partitions = [] }

pub record Written (ops : List ApplyOp) (s m : Storage) : Type 0 where
  pub same : forget (write_all ops s) ≡ forget m
  pub positions : (write_all ops s).next_positions ≡ s.next_positions
  pub groups :
      (k : InstanceKey) → get k (write_all ops s).group_partitions ≡ get k m.group_partitions

pub record Tracks (s : Storage) (b : ApplyBatch) (m : Storage) : Type 0 where
  pub written : Written b.ops s m
  pub versions :
      (k : InstanceKey) → cached (get k b.aggregate_versions) (get k s.metas) ≡ get k m.metas
  pub heads :
      (k : PartitionKey)
      → cached (get k b.aggregate_partition_positions) (read_partition_head s k)
        ≡ read_partition_head m k
  pub states :
      (k : InstanceKey) → cached (get k b.aggregate_states) (get k s.states) ≡ get k m.states
  pub identities :
      (k : NumberKey)
      → or_stored (get k b.aggregate_idempotency) (get k s.idempotency) ≡ get k m.idempotency
  pub fences :
      (k : PartitionKey)
      → cached (get k b.aggregate_partition_fences) (read_fence s k) ≡ read_fence m k
  pub catalog : cached b.aggregate_catalog (read_catalog s) ≡ read_catalog m
  pub group_catalog : cached b.aggregate_group_catalog (read_group_catalog s) ≡ read_group_catalog m
  pub groups :
      (k : InstanceKey)
      → or_stored (get k b.aggregate_group_partitions) (get k s.group_partitions)
        ≡ get k m.group_partitions

module _ (s : Storage) where
  pub version_lem :
      (k : InstanceKey) (b : ApplyBatch) (m : Storage)
      → Tracks s b m
      → ((batch_aggregate_version s k b).1 ≡ get k m.metas)
        × Tracks s (batch_aggregate_version s k b).0 m
  unfolding batch_aggregate_version
  version_lem k b m t = elim (Option-cases (get k b.aggregate_versions)) [
    | inl e ↦
        rw (e, batch_aggregate_version)
          (
            ground (arith, t.versions k),
            record {
              written = t.written;
              versions = λ j. ground (
                arith,
                get-insert j k (get k s.metas) b.aggregate_versions,
                t.versions j,
                eq_iff j k,
              );
              heads = t.heads;
              states = t.states;
              identities = t.identities;
              fences = t.fences;
              catalog = t.catalog;
              group_catalog = t.group_catalog;
              groups = t.groups;
            },
          )
    | inr (v, e) ↦ rw (e, batch_aggregate_version) (ground (arith, t.versions k), t)
  ]

  pub state_lem :
      (k : InstanceKey) (b : ApplyBatch) (m : Storage)
      → Tracks s b m
      → ((batch_aggregate_state s k b).1 ≡ get k m.states)
        × Tracks s (batch_aggregate_state s k b).0 m
  unfolding batch_aggregate_state
  state_lem k b m t = elim (Option-cases (get k b.aggregate_states)) [
    | inl e ↦
        rw (e, batch_aggregate_state)
          (
            ground (arith, t.states k),
            record {
              written = t.written;
              versions = t.versions;
              heads = t.heads;
              states = λ j. ground (
                arith,
                get-insert j k (get k s.states) b.aggregate_states,
                t.states j,
                eq_iff j k,
              );
              identities = t.identities;
              fences = t.fences;
              catalog = t.catalog;
              group_catalog = t.group_catalog;
              groups = t.groups;
            },
          )
    | inr (v, e) ↦ rw (e, batch_aggregate_state) (ground (arith, t.states k), t)
  ]

  pub position_lem :
      (k : PartitionKey) (b : ApplyBatch) (m : Storage)
      → Tracks s b m
      → ((batch_partition_position s k b).1 ≡ read_partition_head m k)
        × Tracks s (batch_partition_position s k b).0 m
  unfolding batch_partition_position
  position_lem k b m t = elim (Option-cases (get k b.aggregate_partition_positions)) [
    | inl e ↦
        rw (e, batch_partition_position)
          (
            ground (arith, t.heads k),
            record {
              written = t.written;
              versions = t.versions;
              heads = λ j. ground (
                arith,
                get-insert j k (read_partition_head s k) b.aggregate_partition_positions,
                t.heads j,
                eq_iff j k,
              );
              states = t.states;
              identities = t.identities;
              fences = t.fences;
              catalog = t.catalog;
              group_catalog = t.group_catalog;
              groups = t.groups;
            },
          )
    | inr (v, e) ↦ rw (e, batch_partition_position) (ground (arith, t.heads k), t)
  ]

  pub fence_lem :
      (k : PartitionKey) (b : ApplyBatch) (m : Storage)
      → Tracks s b m
      → ((batch_partition_fence s k b).1 ≡ read_fence m k)
        × Tracks s (batch_partition_fence s k b).0 m
  unfolding batch_partition_fence
  fence_lem k b m t = elim (Option-cases (get k b.aggregate_partition_fences)) [
    | inl e ↦
        rw (e, batch_partition_fence)
          (
            ground (arith, t.fences k),
            record {
              written = t.written;
              versions = t.versions;
              heads = t.heads;
              states = t.states;
              identities = t.identities;
              fences = λ j. ground (
                arith,
                get-insert j k (read_fence s k) b.aggregate_partition_fences,
                t.fences j,
                eq_iff j k,
              );
              catalog = t.catalog;
              group_catalog = t.group_catalog;
              groups = t.groups;
            },
          )
    | inr (v, e) ↦ rw (e, batch_partition_fence) (ground (arith, t.fences k), t)
  ]

  pub idempotency_lem :
      (k : NumberKey) (b : ApplyBatch) (m : Storage)
      → Tracks s b m
      → ((batch_idempotency s k b).1 ≡ get k m.idempotency) × Tracks s (batch_idempotency s k b).0 m
  unfolding batch_idempotency
  idempotency_lem k b m t = elim (Option-cases (get k b.aggregate_idempotency)) [
    | inl e ↦ elim (Option-cases (get k s.idempotency)) [
      | inl n ↦ rw (e, n, batch_idempotency) (ground (arith, t.identities k), t)
      | inr (v, f) ↦
          rw (e, f, batch_idempotency)
            (
              ground (arith, t.identities k),
              record {
                written = t.written;
                versions = t.versions;
                heads = t.heads;
                states = t.states;
                identities = λ j.
                    ground
                      (arith, get-insert j k v b.aggregate_idempotency, t.identities j, eq_iff j k);
                fences = t.fences;
                catalog = t.catalog;
                group_catalog = t.group_catalog;
                groups = t.groups;
              },
            )
    ]
    | inr (v, e) ↦ rw (e, batch_idempotency) (ground (arith, t.identities k), t)
  ]

  pub progress_lem :
      (k : InstanceKey) (epoch position : ℕ) (b : ApplyBatch) (m : Storage)
      → Tracks s b m
      → batch_group_partition s k epoch position b
        ≡ unwrap_or (Progress.new epoch position) (get k m.group_partitions)
  unfolding batch_group_partition
  progress_lem k epoch position b m t = ground (arith, t.groups k)
