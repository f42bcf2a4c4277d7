-- ===== src/StateMachine/Batch.antt =====
-- The `batch_aggregate_…` functions of es-storage/src/state_machine.rs: a value that the batch has
-- read or written comes from its caches, any other from the storage.
use eventfs.Prelude.{
  ℕ, Option, none, some, List, [], ◌∷◌, ◌==◌, nat_ord, list_ord, pair_ord, Bool, false,
  if◌then◌else◌,
}
use eventfs.BTreeMap.{get, insert}
use eventfs.Identifier.{type_id_ord}
use eventfs.Catalog.{AggregateCatalog}
use eventfs.GroupCatalog.{AggregateGroupCatalog}
use eventfs.Group.{AggregateGroupPartition}
use eventfs.Group.Progress
use eventfs.StateMachine.{
  AggregateState, AggregateIdempotencyRecord, PartitionKey, InstanceKey, NumberKey, Storage,
  ApplyOp, put_group_partition, ApplyBatch,
}

-- `unwrap_or`
abbrev pub unwrap_or {ℓ} : {A : Type ℓ} → A → Option A → A
unwrap_or a none = a
unwrap_or a (some b) = b

abbrev pub no_types : AggregateCatalog
no_types = record { revision = 0; aggregate_types = [] }

abbrev pub no_groups : AggregateGroupCatalog
no_groups = record { revision = 0; groups = []; deleted_operations = [] }

-- The reads of the stored values.
abbrev pub read_fence : Storage → PartitionKey → ℕ
read_fence s k = unwrap_or 0 (get k s.partition_fences)

abbrev pub read_partition_head : Storage → PartitionKey → ℕ
read_partition_head s k = unwrap_or 0 (get k s.next_positions)

abbrev pub read_catalog : Storage → AggregateCatalog
read_catalog s = unwrap_or no_types s.catalog

abbrev pub read_group_catalog : Storage → AggregateGroupCatalog
read_group_catalog s = unwrap_or no_groups s.group_catalog

module _ (s : Storage) where
  unfoldable pub batch_aggregate_version : InstanceKey → ApplyBatch → ApplyBatch × Option ℕ
  batch_aggregate_version k b = elim (get k b.aggregate_versions) [
    | some version ↦ (b, version)
    | none ↦
        let version = get k s.metas in
        (record b { aggregate_versions = insert k version b.aggregate_versions }, version)
  ]

  unfoldable pub batch_aggregate_state :
      InstanceKey → ApplyBatch → ApplyBatch × Option AggregateState
  batch_aggregate_state k b = elim (get k b.aggregate_states) [
    | some state ↦ (b, state)
    | none ↦
        let state = get k s.states in
        (record b { aggregate_states = insert k state b.aggregate_states }, state)
  ]

  unfoldable pub batch_partition_position : PartitionKey → ApplyBatch → ApplyBatch × ℕ
  batch_partition_position k b = elim (get k b.aggregate_partition_positions) [
    | some position ↦ (b, position)
    | none ↦
        let position = read_partition_head s k in
        (
          record b {
            aggregate_partition_positions = insert k position b.aggregate_partition_positions;
          },
          position,
        )
  ]

  unfoldable pub batch_partition_fence : PartitionKey → ApplyBatch → ApplyBatch × ℕ
  batch_partition_fence k b = elim (get k b.aggregate_partition_fences) [
    | some generation ↦ (b, generation)
    | none ↦
        let generation = read_fence s k in
        (
          record b {
            aggregate_partition_fences = insert k generation b.aggregate_partition_fences;
          },
          generation,
        )
  ]

  -- A missing record is not remembered.
  unfoldable pub batch_idempotency :
      NumberKey → ApplyBatch → ApplyBatch × Option AggregateIdempotencyRecord
  batch_idempotency k b = elim (get k b.aggregate_idempotency) [
    | some existing ↦ (b, some existing)
    | none ↦ elim (get k s.idempotency) [
      | none ↦ (b, none)
      | some existing ↦ (
        record b { aggregate_idempotency = insert k existing b.aggregate_idempotency },
        some existing,
      )
    ]
  ]

  unfoldable pub batch_catalog : ApplyBatch → AggregateCatalog
  batch_catalog b = unwrap_or (read_catalog s) b.aggregate_catalog

  unfoldable pub batch_group_catalog : ApplyBatch → AggregateGroupCatalog
  batch_group_catalog b = unwrap_or (read_group_catalog s) b.aggregate_group_catalog

  -- A progress that is not stored yet starts at the epoch and the position of the command.
  unfoldable pub batch_group_partition : InstanceKey → ℕ → ℕ → ApplyBatch → AggregateGroupPartition
  batch_group_partition k group_epoch start_position b = elim (get k b.aggregate_group_partitions) [
    | some state ↦ state
    | none ↦ unwrap_or (Progress.new group_epoch start_position) (get k s.group_partitions)
  ]

-- `ops.retain(…)`: the writes to one group partition are dropped.
unfoldable pub is_write_of : InstanceKey → ApplyOp → Bool
is_write_of k (put_group_partition j v) = j == k
is_write_of k _ = false

unfoldable pub drop_writes_of : InstanceKey → List ApplyOp → List ApplyOp
unfolding is_write_of
drop_writes_of k [] = []
drop_writes_of k (op ∷ ops) =
    let rest = drop_writes_of k ops in if is_write_of k op then rest else op ∷ rest
