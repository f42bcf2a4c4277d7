-- ===== src/Tests/Catalogs.antt =====
-- The catalog of aggregate types.
use eventfs.Prelude.{
  ℕ, zero, suc, ◌≡◌, refl, true, false, none, some, [], ◌∷◌, nat_ord, length, map, arith,
}
use eventfs.Prelude.Ordered.{list_cmp}
use eventfs.BTreeMap.{BTreeMap, get, insert}
use eventfs.Identifier.{
  contains, is_ascii_alphanumeric, is_identifier_byte, any_bad_byte, bad_first_byte,
  validate_aggregate_identifier, AggregateTypeId, type_id_ord, validate,
}
use eventfs.Group.{Uuid}
use eventfs.Catalog.{
  Xxh3, xxh3_v1, registering, active, PartitionPlacement, AggregateTypeDefinition, covers,
  initial_placement, create, create_plan_fingerprint, AggregateCatalog, AggregateCatalogCommand,
  create_type, activate, prepare_move, aggregate_type,
}
use eventfs.Catalog.Apply.{store, set_placement, begin_move, run_create, run_prepare_move, run}
use eventfs.Catalog.Retry.{is_changed, run_again}
use eventfs.Catalog.Invariant.{IsWellFormed, run-IsWellFormed}
use eventfs.Catalog.Evolution.{Evolves, run-Evolves}

-- A hash of a byte string: its length.
abbrev by_length : Xxh3
by_length = record { digest = length; digest128 = length }

-- "shop/order"
abbrev order_type : AggregateTypeId
order_type = record {
  business_space = b's' ∷ b'h' ∷ b'o' ∷ b'p' ∷ [];
  aggregate_type = b'o' ∷ b'r' ∷ b'd' ∷ b'e' ∷ b'r' ∷ [];
}

abbrev operation : Uuid
operation = 11

abbrev move_operation : Uuid
move_operation = 12

abbrev no_types : AggregateCatalog
no_types = record { revision = 0; aggregate_types = [] }

-- Every partition below `n` on shard 1.
abbrev plan : ℕ → BTreeMap ℕ ℕ
plan zero = []
plan (suc n) = (n, 1) ∷ plan n

abbrev register : AggregateCatalogCommand
register = create_type order_type operation (7 ∷ []) (plan 256)

no_types-IsWellFormed : IsWellFormed no_types
unfolding get
no_types-IsWellFormed = record { sound = λ id d h. ground arith }

with_registered-IsWellFormed : IsWellFormed (run by_length register no_types).0
with_registered-IsWellFormed = run-IsWellFormed by_length no_types no_types-IsWellFormed register

run-IsWellFormed_example : IsWellFormed (run by_length register no_types).0
run-IsWellFormed_example = run-IsWellFormed by_length no_types no_types-IsWellFormed register

abbrev with_registered : AggregateCatalog
with_registered = (run by_length register no_types).0

abbrev registered_definition : AggregateTypeDefinition
registered_definition = record {
  id = order_type;
  create_operation_id = operation;
  create_plan_fingerprint = create_plan_fingerprint by_length (7 ∷ []) (plan 256);
  seed = 7 ∷ [];
  partition_count = 256;
  hash_algorithm = xxh3_v1;
  status = registering;
  placements = map initial_placement (plan 256);
}

registered : get order_type with_registered.aggregate_types ≡ some registered_definition
unfolding run run_create validate validate_aggregate_identifier contains any_bad_byte bad_first_byte
    is_identifier_byte is_ascii_alphanumeric create covers store get insert list_cmp
registered = refl

run-Evolves_example :
    (d : AggregateTypeDefinition) × (get order_type
        (run by_length (activate order_type operation) with_registered).0.aggregate_types
      ≡ some d)
    × Evolves registered_definition d
run-Evolves_example =
    run-Evolves by_length with_registered with_registered-IsWellFormed order_type
      registered_definition registered (activate order_type operation)

abbrev placement : PartitionPlacement
placement = record {
  shard_id = 1;
  generation = 1;
  pending_move = none;
  last_completed_operation = none;
}

-- One partition is enough where the catalog need not be well formed.
abbrev order_definition : AggregateTypeDefinition
order_definition = record {
  id = order_type;
  create_operation_id = operation;
  create_plan_fingerprint = 5;
  seed = 7 ∷ [];
  partition_count = 256;
  hash_algorithm = xxh3_v1;
  status = active;
  placements = (3, placement) ∷ [];
}

abbrev with_order : AggregateCatalog
with_order = record { revision = 2; aggregate_types = (order_type, order_definition) ∷ [] }

abbrev prepare : AggregateCatalogCommand
prepare = prepare_move order_type 3 1 2 move_operation

abbrev too_late : AggregateCatalogCommand
too_late = prepare_move order_type 3 4 2 move_operation

abbrev prepared_definition : AggregateTypeDefinition
prepared_definition = record order_definition {
  placements =
      (
        3,
        record placement {
          pending_move = some (record {
            operation_id = move_operation;
            source_shard = 1;
            target_shard = 2;
            next_generation = 2;
          });
        },
      )
      ∷ [];
}

abbrev with_prepared : AggregateCatalog
with_prepared = record { revision = 3; aggregate_types = (order_type, prepared_definition) ∷ [] }

prepare_changed :
    run by_length prepare with_order ≡ (with_prepared, aggregate_type prepared_definition true)
unfolding run run_prepare_move begin_move set_placement store get insert list_cmp
prepare_changed = refl

run_again_example :
    run by_length prepare with_prepared ≡ (with_prepared, aggregate_type prepared_definition false)
run_again_example =
    run_again by_length with_order prepare with_prepared prepared_definition prepare_changed

too_late_unchanged : is_changed (run by_length too_late with_order).1 ≡ false
unfolding run run_prepare_move begin_move get list_cmp
too_late_unchanged = refl

order-Evolves : Evolves (record order_definition { status = registering }) order_definition
order-Evolves = record {
  same_operation = refl;
  same_plan = refl;
  same_seed = refl;
  same_count = refl;
  same_hash = refl;
  stays_active = λ h. refl;
  later = λ q p h. (p, h, (omega arith, λ n. absurd (n refl)));
}
