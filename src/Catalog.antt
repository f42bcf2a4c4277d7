-- ===== src/Catalog.antt =====
-- es-core/src/aggregate.rs: the catalog of aggregate types, its data and the partition hash.
pub mod Apply
pub mod Retry
pub mod Changes
pub mod Invariant
pub mod Evolution
use eventfs.Prelude.{
  ℕ, zero, suc, ◌+◌, ◌%◌, ◌^◌, Bool, true, false, not, ◌&&◌, ◌||◌, Option, none, some, List, [],
  ◌∷◌, ◌++◌, map, Text, ◌==◌, nat_ord, length, if◌then◌else◌, Result, ok, err, ◌>>=◌, ◌>>◌,
}
use eventfs.Bytes.{Bytes, to_be_bytes}
use eventfs.BTreeMap.{BTreeMap, get, insert, contains_key}
use eventfs.Identifier.{
  InvalidInput, zero_partition_count, AggregateTypeId, type_id_ord, validate_aggregate_identifier,
}
use eventfs.Group.{Uuid}

abbrev pub event_partition_count : ℕ
event_partition_count = 256

-- The hash functions of the crate `xxhash_rust`, on the bytes that a hasher was updated with.
pub record Xxh3 : Type 0 where
  pub digest : Bytes → ℕ
  pub digest128 : Bytes → ℕ

pub data EventPartitionHash : Type 0 where
  xxh3_v1 : EventPartitionHash

unfoldable pub partition : Xxh3 → EventPartitionHash → Bytes → Text → ℕ → Result InvalidInput ℕ
partition x xxh3_v1 seed aggregate_id partition_count = do
  validate_aggregate_identifier aggregate_id
  if partition_count == 0
      then err zero_partition_count
      else ok (x.digest (seed ++ aggregate_id) % partition_count % 2 ^ 16)

pub data AggregateTypeStatus : Type 0 where
  registering active : AggregateTypeStatus

pub record PartitionMove : Type 0 where
  pub operation_id : Uuid
  pub source_shard : ℕ
  pub target_shard : ℕ
  pub next_generation : ℕ

pub record PartitionPlacement : Type 0 where
  pub shard_id : ℕ
  pub generation : ℕ
  pub pending_move : Option PartitionMove
  pub last_completed_operation : Option Uuid

pub record AggregateTypeDefinition : Type 0 where
  pub id : AggregateTypeId
  pub create_operation_id : Uuid
  pub create_plan_fingerprint : ℕ
  pub seed : Bytes
  pub partition_count : ℕ
  pub hash_algorithm : EventPartitionHash
  pub status : AggregateTypeStatus
  pub placements : BTreeMap ℕ PartitionPlacement

unfoldable pub partition_for : Xxh3 → AggregateTypeDefinition → Text → Result InvalidInput ℕ
partition_for x d aggregate_id = partition x d.hash_algorithm d.seed aggregate_id d.partition_count

unfoldable pub plan_entries : BTreeMap ℕ ℕ → Bytes
plan_entries [] = []
plan_entries ((partition_id, shard_id) ∷ m) =
    to_be_bytes 2 partition_id ++ (to_be_bytes 8 shard_id ++ plan_entries m)

unfoldable pub plan_bytes : Bytes → BTreeMap ℕ ℕ → Bytes
unfolding plan_entries
plan_bytes seed placements = seed ++ (to_be_bytes 8 (length placements) ++ plan_entries placements)

unfoldable pub create_plan_fingerprint : Xxh3 → Bytes → BTreeMap ℕ ℕ → ℕ
create_plan_fingerprint x seed placements = x.digest128 (plan_bytes seed placements)

-- `(0..count).all(|partition| m.contains_key(&partition))`
unfoldable pub covers {ℓ} : {V : Type ℓ} → ℕ → BTreeMap ℕ V → Bool
covers zero m = true
covers (suc n) m = contains_key n m && covers n m

abbrev pub initial_placement : ℕ × ℕ → ℕ × PartitionPlacement
initial_placement (partition, shard_id) = (
  partition,
  record {
    shard_id = shard_id;
    generation = 1;
    pending_move = none;
    last_completed_operation = none;
  },
)

-- `none` is the error: the plan does not place every partition.
unfoldable pub create :
    Xxh3 → AggregateTypeId → Uuid → Bytes → BTreeMap ℕ ℕ → Option AggregateTypeDefinition
create x id operation_id seed placements =
    if not (length placements == event_partition_count)
      || not (covers event_partition_count placements)
    then none
    else some (record {
      id = id;
      create_operation_id = operation_id;
      create_plan_fingerprint = create_plan_fingerprint x seed placements;
      seed = seed;
      partition_count = event_partition_count;
      hash_algorithm = xxh3_v1;
      status = registering;
      placements = map initial_placement placements;
    })

pub record AggregateCatalog : Type 0 where
  pub revision : ℕ
  pub aggregate_types : BTreeMap AggregateTypeId AggregateTypeDefinition

pub data AggregateCatalogCommand : Type 0 where
  create_type : AggregateTypeId → Uuid → Bytes → BTreeMap ℕ ℕ → AggregateCatalogCommand
  activate : AggregateTypeId → Uuid → AggregateCatalogCommand
  -- the type, the partition, the expected generation, the target shard and the operation
  prepare_move : AggregateTypeId → ℕ → ℕ → ℕ → Uuid → AggregateCatalogCommand
  complete_move : AggregateTypeId → ℕ → Uuid → AggregateCatalogCommand

-- The messages of the refusals.
pub data CatalogReason : Type 0 where
  invalid_identifier : InvalidInput → CatalogReason
  other_registration incomplete_placements wrong_operation not_active unknown_partition move_pending
        stale_generation same_shard generation_exhausted no_pending_move other_move :
      CatalogReason

pub data AggregateCatalogOutcome : Type 0 where
  -- the current definition, and whether the command changed it
  aggregate_type : AggregateTypeDefinition → Bool → AggregateCatalogOutcome
  not_found : AggregateCatalogOutcome
  conflict invalid : CatalogReason → AggregateCatalogOutcome

pub record AggregateCatalogApply : Type 0 where
  pub revision : ℕ
  pub outcome : AggregateCatalogOutcome
