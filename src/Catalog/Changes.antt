-- ===== src/Catalog/Changes.antt =====
-- Commands of the aggregate catalog that change it: what they find and what they write.
use eventfs.Prelude.{ℕ, ◌<◌, ◌≡◌, ◌≢◌, true, none, some, nat_ord, arith}
use eventfs.Prelude.Words.{u64_max}
use eventfs.Bytes.{Bytes}
use eventfs.BTreeMap.{BTreeMap, get}
use eventfs.Identifier.{AggregateTypeId, type_id_ord}
use eventfs.Group.{Uuid}
use eventfs.Catalog.{
  Xxh3, active, PartitionMove, PartitionPlacement, AggregateTypeDefinition, create,
  AggregateCatalog,
}
use eventfs.Catalog.Apply.{
  store, set_placement, run_create, run_activate, run_prepare_move, run_complete_move, is_active,
}
use eventfs.Catalog.Retry.{is_changed, moving, moved}

module _ (c : AggregateCatalog) (id : AggregateTypeId) where
  pub create_changes :
      (x : Xxh3) (o : Uuid) (seed : Bytes) (plan : BTreeMap ℕ ℕ)
      → is_changed (run_create x id o seed plan c).1 ≡ true
      → (d : AggregateTypeDefinition) × (create x id o seed plan ≡ some d)
        × (get id c.aggregate_types ≡ none)
        × (run_create x id o seed plan c ≡ store c id d)
  unfolding run_create
  create_changes x o seed plan h = ground arith

  pub activate_changes :
      (o : Uuid)
      → is_changed (run_activate id o c).1 ≡ true
      → (d : AggregateTypeDefinition) × (get id c.aggregate_types ≡ some d)
        × (run_activate id o c ≡ store c id (record d { status = active }))
  unfolding run_activate
  activate_changes o h = ground arith

  pub prepare_changes :
      (q g t o : ℕ)
      → is_changed (run_prepare_move id q g t o c).1 ≡ true
      → (d : AggregateTypeDefinition) × (p : PartitionPlacement) × (get id c.aggregate_types
          ≡ some d)
        × (get q d.placements ≡ some p)
        × (p.pending_move ≡ none)
        × (is_active d.status ≡ true)
        × (p.generation < u64_max)
        × (p.shard_id ≢ t)
        × (run_prepare_move id q g t o c ≡ store c id (set_placement d q (moving p t o)))
  unfolding run_prepare_move
  prepare_changes q g t o h = ground arith

  pub complete_changes :
      (q o : ℕ)
      → is_changed (run_complete_move id q o c).1 ≡ true
      → (d : AggregateTypeDefinition) × (p : PartitionPlacement) × (m : PartitionMove) × (get id
            c.aggregate_types
          ≡ some d)
        × (get q d.placements ≡ some p)
        × (p.pending_move ≡ some m)
        × (run_complete_move id q o c ≡ store c id (set_placement d q (moved m o)))
  unfolding run_complete_move
  complete_changes q o h = ground arith
