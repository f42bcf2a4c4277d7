-- ===== src/Catalog/Evolution.antt =====
-- How the commands change a registered type (es-core/src/aggregate.rs).
use mathlib.Core.Path.{subst}
use eventfs.Prelude.{
  ℕ, ◌+◌, ◌≤◌, ◌≡◌, ◌≢◌, refl, ◌==◌, true, some, Bool-cases, inl, inr, nat_ord, eq_iff, Text, arith,
}
use eventfs.BTreeMap.{get}
use eventfs.BTreeMap.Laws.{get-insert}
use eventfs.Identifier.{AggregateTypeId, type_id_ord}
use eventfs.Catalog.{
  Xxh3, active, PartitionPlacement, AggregateTypeDefinition, partition_for, AggregateCatalog,
  AggregateCatalogCommand, create_type, activate, prepare_move, complete_move,
}
use eventfs.Catalog.Apply.{store, set_placement, run}
use eventfs.Catalog.Retry.{is_changed, run_unchanged, moving, moved}
use eventfs.Catalog.Changes.{create_changes, activate_changes, prepare_changes, complete_changes}
use eventfs.Catalog.Invariant.{IsWellFormed}

-- A later placement has a generation that is no lower, and the same shard if it is the same.
abbrev pub IsLater : PartitionPlacement → PartitionPlacement → Type 0
IsLater p p' =
    (p.generation ≤ p'.generation) × (p'.shard_id ≢ p.shard_id → p.generation + 1 ≤ p'.generation)

pub record Evolves (d d' : AggregateTypeDefinition) : Type 0 where
  pub same_operation : d'.create_operation_id ≡ d.create_operation_id
  pub same_plan : d'.create_plan_fingerprint ≡ d.create_plan_fingerprint
  pub same_seed : d'.seed ≡ d.seed
  pub same_count : d'.partition_count ≡ d.partition_count
  pub same_hash : d'.hash_algorithm ≡ d.hash_algorithm
  pub stays_active : d.status ≡ active → d'.status ≡ active
  pub later :
      (q : ℕ) (p : PartitionPlacement)
      → get q d.placements ≡ some p
      → (p' : PartitionPlacement) × (get q d'.placements ≡ some p') × IsLater p p'

Evolves-refl : (d : AggregateTypeDefinition) → Evolves d d
Evolves-refl d = record {
  same_operation = refl;
  same_plan = refl;
  same_seed = refl;
  same_count = refl;
  same_hash = refl;
  stays_active = λ h. h;
  later = λ q p h. (p, h, (omega arith, λ n. absurd (n refl)));
}

set_placement-Evolves :
    (d : AggregateTypeDefinition) (q : ℕ) (p p' : PartitionPlacement)
    → get q d.placements ≡ some p
    → IsLater p p'
    → Evolves d (set_placement d q p')
unfolding set_placement
set_placement-Evolves d q p p' h l = record {
  same_operation = refl;
  same_plan = refl;
  same_seed = refl;
  same_count = refl;
  same_hash = refl;
  stays_active = λ a. a;
  later = λ t r e. elim (Bool-cases (t == q)) [
    | inl same ↦ (p', rw get-insert (rw same), ground arith)
    | inr other ↦ (r, rw get-insert (rw other e), (omega arith, λ n. absurd (n refl)))
  ];
}

Evolves-stored :
    (c : AggregateCatalog) (j id : AggregateTypeId) (d0 d1 d : AggregateTypeDefinition)
    → get j c.aggregate_types ≡ some d0
    → Evolves d0 d1
    → get id c.aggregate_types ≡ some d
    → (d' : AggregateTypeDefinition) × (get id (store c j d1).0.aggregate_types ≡ some d')
      × Evolves d d'
unfolding store
Evolves-stored c j id d0 d1 d found e h = elim (Bool-cases (id == j)) [
  | inl same ↦ (d1, rw get-insert (rw same), subst (λ t. Evolves t d1) (one_entry same) e)
  | inr other ↦ (d, rw get-insert (rw other h), Evolves-refl d)
]
  where
    one_entry : (id == j) ≡ true → d0 ≡ d
    one_entry same = ground (arith, eq_iff id j)

module _ (x : Xxh3) (c : AggregateCatalog) (w : IsWellFormed c) (id : AggregateTypeId)
    (d : AggregateTypeDefinition) (registered : get id c.aggregate_types ≡ some d) where
  changed-Evolves :
      (command : AggregateCatalogCommand)
      → is_changed (run x command c).1 ≡ true
      → (d' : AggregateTypeDefinition) × (get id (run x command c).0.aggregate_types ≡ some d')
        × Evolves d d'
  unfolding run
  changed-Evolves (create_type j o seed plan) h =
      let (d1, made, fresh, e) = create_changes c j x o seed plan h in
      rw e (d, unfold store in rw get-insert (ground (arith, eq_iff id j)), Evolves-refl d)
  changed-Evolves (activate j o) h =
      let (d0, found, e) = activate_changes c j o h in
      rw e (
        Evolves-stored c j id d0 (record d0 { status = active }) d found
          (record {
            same_operation = refl;
            same_plan = refl;
            same_seed = refl;
            same_count = refl;
            same_hash = refl;
            stays_active = λ h. refl;
            later = (Evolves-refl d0).later;
          })
          registered)
  changed-Evolves (prepare_move j q g t o) h =
      let (d0, p, found, placed, idle, running, small, other, e) = prepare_changes c j q g t o h in
      rw e (
        Evolves-stored c j id d0 (set_placement d0 q (moving p t o)) d found
          (set_placement-Evolves d0 q p (moving p t o) placed (omega arith, λ n. absurd (n refl)))
          registered)
  changed-Evolves (complete_move j q o) h =
      let (d0, p, m, found, placed, pending, e) = complete_changes c j q o h in
      let ready = (((w.sound j d0 found).placed q p placed).prepared m pending).next in
      rw e (
        Evolves-stored c j id d0 (set_placement d0 q (moved m o)) d found
          (set_placement-Evolves d0 q p (moved m o) placed (omega arith, λ n. omega arith))
          registered)

  -- In a well-formed catalog, a type that is registered before a command is registered after it. Its registration, seed, partition count and hash are
  -- unchanged, an active type stays active, and each of its partitions has a generation that is no
  -- lower, and a higher one if it is placed on another shard.
  pub run-Evolves :
      (command : AggregateCatalogCommand)
      → (d' : AggregateTypeDefinition) × (get id (run x command c).0.aggregate_types ≡ some d')
        × Evolves d d'
  run-Evolves command = elim (Bool-cases (is_changed (run x command c).1)) [
    | inl changed ↦ changed-Evolves command changed
    | inr same ↦ rw (run_unchanged x c command same) (d, registered, Evolves-refl d)
  ]

-- A definition that has evolved from another one routes every instance to the same partition.
pub partition_for-Evolves :
    (x : Xxh3) (d d' : AggregateTypeDefinition) (aggregate_id : Text)
    → Evolves d d'
    → partition_for x d' aggregate_id ≡ partition_for x d aggregate_id
unfolding partition_for
partition_for-Evolves x d d' aggregate_id e = cc (e.same_seed, e.same_count, e.same_hash)
