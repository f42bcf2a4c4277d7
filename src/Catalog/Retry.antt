-- ===== src/Catalog/Retry.antt =====
-- Commands of the aggregate catalog that are sent again or refused (es-core/src/aggregate.rs).
use eventfs.Prelude.{
  ℕ, ◌+◌, ◌≡◌, Bool, true, false, none, some, Option-cases, inl, inr, eq_refl, arith, nat_ord,
}
use eventfs.BTreeMap.{get}
use eventfs.BTreeMap.Laws.{get-insert}
use eventfs.Identifier.{type_id_ord}
use eventfs.Catalog.{
  Xxh3, create, PartitionMove, PartitionPlacement, AggregateTypeDefinition, AggregateCatalog,
  AggregateCatalogCommand, create_type, activate, prepare_move, complete_move,
  AggregateCatalogOutcome, aggregate_type,
}
use eventfs.Catalog.Apply.{run}

abbrev pub is_changed : AggregateCatalogOutcome → Bool
is_changed (aggregate_type d changed) = changed
is_changed _ = false

-- The placements that the two commands of a move write.
abbrev pub moving : PartitionPlacement → ℕ → ℕ → PartitionPlacement
moving placement target_shard operation_id = record placement {
  pending_move = some (record {
    operation_id = operation_id;
    source_shard = placement.shard_id;
    target_shard = target_shard;
    next_generation = placement.generation + 1;
  });
}

abbrev pub moved : PartitionMove → ℕ → PartitionPlacement
moved m operation_id = record {
  shard_id = m.target_shard;
  generation = m.next_generation;
  pending_move = none;
  last_completed_operation = some operation_id;
}

module _ (x : Xxh3) (c : AggregateCatalog) where
  -- Unless the outcome says that the command changed the catalog, the catalog is as it was.
  pub run_unchanged :
      (command : AggregateCatalogCommand)
      → is_changed (run x command c).1 ≡ false
      → (run x command c).0 ≡ c
  unfolding run
  run_unchanged (create_type id o s p) h = ground arith
  run_unchanged (activate id o) h = ground arith
  run_unchanged (prepare_move id p g t o) h = ground arith
  run_unchanged (complete_move id p o) h = ground arith

  -- A command that changed the catalog, sent once more, returns the same definition and changes
  -- nothing.
  pub run_again :
      (command : AggregateCatalogCommand) (c' : AggregateCatalog) (d : AggregateTypeDefinition)
      → run x command c ≡ (c', aggregate_type d true)
      → run x command c' ≡ (c', aggregate_type d false)
  unfolding run create
  run_again (create_type id o s p) c' d h =
      ground (arith, get-insert id id d c.aggregate_types, eq_refl id)
  run_again (activate id o) c' d h =
      ground (arith, get-insert id id d c.aggregate_types, eq_refl id)
  run_again (prepare_move id p g t o) c' d h = elim (Option-cases (get id c.aggregate_types)) [
    | inl missing ↦ ground arith
    | inr (d0, found) ↦ elim (Option-cases (get p d0.placements)) [
      | inl unplaced ↦ ground arith
      | inr (placement, placed) ↦ ground (
        arith,
        get-insert id id d c.aggregate_types,
        get-insert p p (moving placement t o) d0.placements,
        eq_refl id,
      )
    ]
  ]
  run_again (complete_move id p o) c' d h = elim (Option-cases (get id c.aggregate_types)) [
    | inl missing ↦ ground arith
    | inr (d0, found) ↦ elim (Option-cases (get p d0.placements)) [
      | inl unplaced ↦ ground arith
      | inr (placement, placed) ↦ elim (Option-cases placement.pending_move) [
        | inl idle ↦ ground arith
        | inr (m, pending) ↦ ground (
          arith,
          get-insert id id d c.aggregate_types,
          get-insert p p (moved m o) d0.placements,
          eq_refl id,
        )
      ]
    ]
  ]
