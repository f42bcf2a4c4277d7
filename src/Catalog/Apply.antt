-- ===== src/Catalog/Apply.antt =====
-- `AggregateCatalog::apply`, `prepare_move` and `complete_move` of es-core/src/aggregate.rs. A
-- branch returns the catalog that it leaves and its outcome.
use eventfs.Prelude.{
  ℕ, ◌+◌, ◌%◌, ◌^◌, Bool, true, false, not, ◌&&◌, Option, none, some, ◌==◌, nat_ord, if◌then◌else◌,
  ok, err,
}
use eventfs.Prelude.Words.{checked_suc64}
use eventfs.Bytes.{Bytes}
use eventfs.BTreeMap.{BTreeMap, get, insert}
use eventfs.Identifier.{AggregateTypeId, type_id_ord, validate}
use eventfs.Group.{Uuid}
use eventfs.Catalog.{
  Xxh3, AggregateTypeStatus, registering, active, PartitionPlacement, AggregateTypeDefinition,
  create_plan_fingerprint, create, AggregateCatalog, AggregateCatalogCommand, create_type, activate,
  prepare_move, complete_move, invalid_identifier, other_registration, incomplete_placements,
  wrong_operation, not_active, unknown_partition, move_pending, stale_generation, same_shard,
  generation_exhausted, no_pending_move, other_move, AggregateCatalogOutcome, aggregate_type,
  not_found, conflict, invalid, AggregateCatalogApply,
}

abbrev pub Step : Type 0
Step = AggregateCatalog × AggregateCatalogOutcome

-- A changed definition is written back, and `self.revision += 1` wraps in a release build.
unfoldable pub store : AggregateCatalog → AggregateTypeId → AggregateTypeDefinition → Step
store c id d = (
  record { revision = (c.revision + 1) % 2 ^ 64; aggregate_types = insert id d c.aggregate_types },
  aggregate_type d true,
)

abbrev pub is_active : AggregateTypeStatus → Bool
is_active registering = false
is_active active = true

unfoldable pub run_create :
    Xxh3 → AggregateTypeId → Uuid → Bytes → BTreeMap ℕ ℕ → AggregateCatalog → Step
unfolding store
run_create x id operation_id seed placements c = elim (validate id) [
  | err e ↦ (c, invalid (invalid_identifier e))
  | ok _ ↦ elim (get id c.aggregate_types) [
    | some existing ↦
        if existing.create_operation_id == operation_id
          && existing.create_plan_fingerprint == create_plan_fingerprint x seed placements
        then (c, aggregate_type existing false)
        else (c, conflict other_registration)
    | none ↦ elim (create x id operation_id seed placements) [
      | some created ↦ store c id created
      | none ↦ (c, invalid incomplete_placements)
    ]
  ]
]

unfoldable pub run_activate : AggregateTypeId → Uuid → AggregateCatalog → Step
unfolding store
run_activate id operation_id c = elim (get id c.aggregate_types) [
  | none ↦ (c, not_found)
  | some existing ↦
      if not (existing.create_operation_id == operation_id)
      then (c, conflict wrong_operation)
      else if is_active existing.status
      then (c, aggregate_type existing false)
      else store c id (record existing { status = active })
]

-- `placement` is the mutable entry of `d.placements` at the partition.
unfoldable pub set_placement :
    AggregateTypeDefinition → ℕ → PartitionPlacement → AggregateTypeDefinition
set_placement d partition_id placement = record d {
  placements = insert partition_id placement d.placements;
}

unfoldable pub begin_move :
    AggregateTypeId
    → AggregateTypeDefinition
    → ℕ
    → PartitionPlacement
    → ℕ
    → ℕ
    → Uuid
    → AggregateCatalog
    → Step
unfolding store set_placement
begin_move id d partition_id placement expected_generation target_shard operation_id c =
    if not (placement.generation == expected_generation)
    then (c, conflict stale_generation)
    else if placement.shard_id == target_shard
    then (c, invalid same_shard)
    else elim (checked_suc64 placement.generation) [
      | none ↦ (c, invalid generation_exhausted)
      | some next_generation ↦ store c id (
          set_placement d partition_id (record placement {
            pending_move = some (record {
              operation_id = operation_id;
              source_shard = placement.shard_id;
              target_shard = target_shard;
              next_generation = next_generation;
            });
          }))
    ]

unfoldable pub run_prepare_move : AggregateTypeId → ℕ → ℕ → ℕ → Uuid → AggregateCatalog → Step
unfolding begin_move
run_prepare_move id partition_id expected_generation target_shard operation_id c =
    elim (get id c.aggregate_types) [
      | none ↦ (c, not_found)
      | some d ↦
          if not (is_active d.status)
          then (c, invalid not_active)
          else elim (get partition_id d.placements) [
            | none ↦ (c, invalid unknown_partition)
            | some placement ↦ elim placement.pending_move [
              | some pending ↦
                  if pending.operation_id == operation_id
                    && pending.target_shard == target_shard
                    && pending.source_shard == placement.shard_id
                  then (c, aggregate_type d false)
                  else (c, conflict move_pending)
              | none ↦
                  begin_move id d partition_id placement expected_generation target_shard
                    operation_id c
            ]
          ]
    ]

abbrev pub is_op : Option Uuid → Uuid → Bool
is_op none operation_id = false
is_op (some o) operation_id = o == operation_id

unfoldable pub run_complete_move : AggregateTypeId → ℕ → Uuid → AggregateCatalog → Step
unfolding store set_placement
run_complete_move id partition_id operation_id c = elim (get id c.aggregate_types) [
  | none ↦ (c, not_found)
  | some d ↦ elim (get partition_id d.placements) [
    | none ↦ (c, invalid unknown_partition)
    | some placement ↦ elim placement.pending_move [
      | none ↦
          if is_op placement.last_completed_operation operation_id
          then (c, aggregate_type d false)
          else (c, conflict no_pending_move)
      | some pending ↦
          if not (pending.operation_id == operation_id)
          then (c, conflict other_move)
          else store c id (
              set_placement d partition_id (record {
                shard_id = pending.target_shard;
                generation = pending.next_generation;
                pending_move = none;
                last_completed_operation = some operation_id;
              }))
    ]
  ]
]

unfoldable pub run : Xxh3 → AggregateCatalogCommand → AggregateCatalog → Step
unfolding run_create run_activate run_prepare_move run_complete_move
run x (create_type id operation_id seed placements) = run_create x id operation_id seed placements
run x (activate id operation_id) = run_activate id operation_id
run x (prepare_move id partition_id expected_generation target_shard operation_id) =
    run_prepare_move id partition_id expected_generation target_shard operation_id
run x (complete_move id partition_id operation_id) = run_complete_move id partition_id operation_id

unfoldable pub apply :
    Xxh3 → AggregateCatalogCommand → AggregateCatalog → AggregateCatalog × AggregateCatalogApply
apply x command c =
    let (c', outcome) = run x command c in
    (c', record { revision = c'.revision; outcome = outcome })
