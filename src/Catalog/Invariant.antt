-- ===== src/Catalog/Invariant.antt =====
-- Well-formed catalogs of aggregate types (es-core/src/aggregate.rs).
use eventfs.Prelude.{
  ℕ, zero, suc, ◌+◌, ◌≤◌, ◌<◌, ◌≡◌, ◌≢◌, refl, true, none, some, Bool-cases, inl, inr, [], ◌∷◌, map,
  nat_ord, eq_iff, arith,
}
use eventfs.Prelude.Words.{u64_max}
use eventfs.Bytes.{Bytes}
use eventfs.BTreeMap.{BTreeMap, get, contains_key}
use eventfs.BTreeMap.Laws.{get-insert}
use eventfs.Identifier.{AggregateTypeId, type_id_ord}
use eventfs.Group.{Uuid}
use eventfs.Catalog.{
  Xxh3, active, PartitionMove, PartitionPlacement, AggregateTypeDefinition, covers,
  initial_placement, create, AggregateCatalog, AggregateCatalogCommand, create_type, activate,
  prepare_move, complete_move,
}
use eventfs.Catalog.Apply.{store, set_placement, run}
use eventfs.Catalog.Retry.{is_changed, run_unchanged, moving, moved}
use eventfs.Catalog.Changes.{create_changes, activate_changes, prepare_changes, complete_changes}

-- A prepared move leaves from the current shard to another one, with the next generation.
pub record IsPrepared (placement : PartitionPlacement) (m : PartitionMove) : Type 0 where
  pub from_current : m.source_shard ≡ placement.shard_id
  pub to_other : m.target_shard ≢ placement.shard_id
  pub next : m.next_generation ≡ placement.generation + 1
  pub in_range : m.next_generation ≤ u64_max

pub record IsPlaced (placement : PartitionPlacement) : Type 0 where
  pub generation_pos : 1 ≤ placement.generation
  pub in_range : placement.generation ≤ u64_max
  pub prepared : (m : PartitionMove) → placement.pending_move ≡ some m → IsPrepared placement m

pub record IsSound (id : AggregateTypeId) (d : AggregateTypeDefinition) : Type 0 where
  pub keyed : d.id ≡ id
  pub counted : d.partition_count ≡ 256
  pub complete : (q : ℕ) → q < 256 → contains_key q d.placements ≡ true
  pub placed : (q : ℕ) (p : PartitionPlacement) → get q d.placements ≡ some p → IsPlaced p

pub record IsWellFormed (c : AggregateCatalog) : Type 0 where
  pub sound :
      (id : AggregateTypeId) (d : AggregateTypeDefinition)
      → get id c.aggregate_types ≡ some d
      → IsSound id d

covers-contains {ℓ} :
    {V : Type ℓ} (n : ℕ) (m : BTreeMap ℕ V) (q : ℕ)
    → covers n m ≡ true
    → q < n
    → contains_key q m ≡ true
unfolding covers
covers-contains zero m q h lt = absurd (omega arith)
covers-contains (suc n) m q h lt = ground (arith, covers-contains n m q)

get-initial :
    (q : ℕ) (m : BTreeMap ℕ ℕ)
    → get q (map initial_placement m)
      ≡ elim (get q m) [ none ↦ none | some shard ↦ some (initial_placement (q, shard)).1 ]
unfolding get
get-initial q [] = refl
get-initial q ((k, shard) ∷ m) = ground (arith, get-initial q m)

create-IsSound :
    (x : Xxh3) (id : AggregateTypeId) (o : Uuid) (seed : Bytes) (plan : BTreeMap ℕ ℕ)
    → (d : AggregateTypeDefinition) → create x id o seed plan ≡ some d
    → IsSound id d
unfolding create
create-IsSound x id o seed plan d h = record {
  keyed = ground arith;
  counted = ground arith;
  complete = λ q lt. ground (arith, get-initial q plan, covers-contains 256 plan q);
  placed = λ q p e. ground (arith, get-initial q plan);
}

set_placement-IsSound :
    (id : AggregateTypeId) (d : AggregateTypeDefinition) (q : ℕ) (p : PartitionPlacement)
    → IsSound id d
    → IsPlaced p
    → IsSound id (set_placement d q p)
unfolding set_placement
set_placement-IsSound id d q p s h = record {
  keyed = s.keyed;
  counted = s.counted;
  complete = λ t lt. ground (arith, get-insert t q p d.placements, s.complete t);
  placed = λ t r e. ground (arith, get-insert t q p d.placements, s.placed t r);
}

store-IsWellFormed :
    (c : AggregateCatalog) (id : AggregateTypeId) (d : AggregateTypeDefinition)
    → IsWellFormed c
    → IsSound id d
    → IsWellFormed (store c id d).0
unfolding store
store-IsWellFormed c id d w s = record {
  sound = λ j e h. ground (arith, get-insert j id d c.aggregate_types, eq_iff j id, w.sound j e);
}

moving-IsPlaced :
    (p : PartitionPlacement) (target_shard operation_id : ℕ)
    → IsPlaced p
    → p.generation < u64_max
    → p.shard_id ≢ target_shard
    → IsPlaced (moving p target_shard operation_id)
moving-IsPlaced p target_shard operation_id h small other = record {
  generation_pos = h.generation_pos;
  in_range = h.in_range;
  prepared = λ m e. record {
    from_current = ground arith;
    to_other = λ s. ground arith;
    next = ground arith;
    in_range = ground arith;
  };
}

moved-IsPlaced :
    (p : PartitionPlacement) (m : PartitionMove) (operation_id : ℕ)
    → IsPrepared p m
    → IsPlaced (moved m operation_id)
moved-IsPlaced p m operation_id h = record {
  generation_pos = ground arith;
  in_range = h.in_range;
  prepared = λ n e. ground arith;
}

module _ (x : Xxh3) (c : AggregateCatalog) (w : IsWellFormed c) where
  changed-IsWellFormed :
      (command : AggregateCatalogCommand)
      → is_changed (run x command c).1 ≡ true
      → IsWellFormed (run x command c).0
  unfolding run
  changed-IsWellFormed (create_type id o seed plan) h =
      let (d, made, fresh, e) = create_changes c id x o seed plan h in
      rw e (store-IsWellFormed c id d w (create-IsSound x id o seed plan d made))
  changed-IsWellFormed (activate id o) h =
      let (d, found, e) = activate_changes c id o h in
      let s = w.sound id d found in
      rw e (
        store-IsWellFormed c id (record d { status = active }) w
          (record {
            keyed = s.keyed;
            counted = s.counted;
            complete = s.complete;
            placed = s.placed;
          }))
  changed-IsWellFormed (prepare_move id q g t o) h =
      let (d, p, found, placed, idle, is_active, small, other, e) =
        prepare_changes c id q g t o h in
      let s = w.sound id d found in
      rw e (
        store-IsWellFormed c id (set_placement d q (moving p t o)) w (
          set_placement-IsSound id d q (moving p t o) s
            (moving-IsPlaced p t o (s.placed q p placed) small other)))
  changed-IsWellFormed (complete_move id q o) h =
      let (d, p, m, found, placed, pending, e) = complete_changes c id q o h in
      let s = w.sound id d found in
      rw e (
        store-IsWellFormed c id (set_placement d q (moved m o)) w (
          set_placement-IsSound id d q (moved m o) s
            (moved-IsPlaced p m o ((s.placed q p placed).prepared m pending))))

  -- Every command keeps the catalog well formed: a registered type has its key as identity and 256
  -- partitions, each of them placed, with a generation from 1 on, and a prepared move leads from the
  -- current shard to another one with the next generation.
  pub run-IsWellFormed : (command : AggregateCatalogCommand) → IsWellFormed (run x command c).0
  run-IsWellFormed command = elim (Bool-cases (is_changed (run x command c).1)) [
    | inl changed ↦ changed-IsWellFormed command changed
    | inr same ↦ rw (run_unchanged x c command same) w
  ]
