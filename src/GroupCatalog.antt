-- ===== src/GroupCatalog.antt =====
-- es-core/src/aggregate_group.rs: the catalog of consumer groups.
pub mod Laws
use eventfs.Prelude.{
  ℕ, ◌+◌, Bool, true, false, not, ◌&&◌, ◌||◌, Option, none, some, List, [], ◌∷◌, Text, ◌==◌,
  nat_ord, list_ord, pair_ord, length, if◌then◌else◌, Result, ok, err, ◌>>=◌, ◌>>◌, map_err,
}
use eventfs.Prelude.Words.{sat_add64}
use eventfs.BTreeMap.{BTreeMap, get, insert, remove}
use eventfs.Identifier
use eventfs.Identifier.{InvalidInput, AggregateTypeId, type_id_ord, validate_aggregate_identifier}
use eventfs.Group.{Uuid, AggregateGroupSettings}
use eventfs.Group.Settings
use eventfs.Group.Settings.{SettingsError}
use eventfs.Catalog.{covers}

pub data AggregateGroupStart : Type 0 where
  beginning now : AggregateGroupStart

pub record AggregateGroupDefinition : Type 0 where
  pub aggregate_type : AggregateTypeId
  pub name : Text
  pub revision : ℕ
  pub epoch : ℕ
  pub start : AggregateGroupStart
  pub partition_starts : BTreeMap ℕ ℕ
  pub settings : AggregateGroupSettings
  pub create_operation_id : Uuid
  pub last_operation_id : Uuid

-- The messages of the refusals.
pub data GroupReason : Type 0 where
  invalid_identifier : InvalidInput → GroupReason
  invalid_settings : SettingsError → GroupReason
  missing_partition_starts : GroupReason

unfoldable pub validate_starts : AggregateGroupDefinition → ℕ → Result GroupReason (Unit {0})
validate_starts d partition_count =
    if not (length d.partition_starts == partition_count)
      || not (covers partition_count d.partition_starts)
    then err missing_partition_starts
    else ok tt

unfoldable pub validate : AggregateGroupDefinition → ℕ → Result GroupReason (Unit {0})
validate d partition_count = do
  map_err invalid_identifier (Identifier.validate d.aggregate_type)
  map_err invalid_identifier (validate_aggregate_identifier d.name)
  map_err invalid_settings (Settings.validate d.settings)
  validate_starts d partition_count

abbrev pub GroupKey : Type 0
GroupKey = AggregateTypeId × Text

abbrev pub key_of : AggregateGroupDefinition → GroupKey
key_of d = (d.aggregate_type, d.name)

pub record AggregateGroupCatalog : Type 0 where
  pub revision : ℕ
  pub groups : BTreeMap GroupKey AggregateGroupDefinition
  pub deleted_operations : BTreeMap GroupKey Uuid

pub data AggregateGroupCatalogCommand : Type 0 where
  create : AggregateGroupDefinition → ℕ → AggregateGroupCatalogCommand
  -- the definition, the expected revision, the partition count, and whether the start is reset
  replace : AggregateGroupDefinition → ℕ → ℕ → Bool → AggregateGroupCatalogCommand
  delete : AggregateTypeId → Text → ℕ → Uuid → AggregateGroupCatalogCommand

pub data AggregateGroupCatalogOutcome : Type 0 where
  group : AggregateGroupDefinition → AggregateGroupCatalogOutcome
  deleted not_found : AggregateGroupCatalogOutcome
  conflict : Option ℕ → AggregateGroupCatalogOutcome
  invalid : GroupReason → AggregateGroupCatalogOutcome

pub record AggregateGroupCatalogApply : Type 0 where
  pub revision : ℕ
  pub outcome : AggregateGroupCatalogOutcome

abbrev pub Step : Type 0
Step = AggregateGroupCatalog × AggregateGroupCatalogOutcome

abbrev pub created : AggregateGroupDefinition → AggregateGroupDefinition
created d = record d { revision = 1; epoch = 1; last_operation_id = d.create_operation_id }

unfoldable pub run_create : AggregateGroupDefinition → ℕ → AggregateGroupCatalog → Step
run_create d partition_count c =
    let key = key_of d in
    elim (validate d partition_count) [
      | err reason ↦ (c, invalid reason)
      | ok _ ↦ elim (get key c.groups) [
        | some existing ↦
            if existing.create_operation_id == d.create_operation_id
            then (c, group existing)
            else (c, conflict (some existing.revision))
        | none ↦ (
          record {
            revision = sat_add64 c.revision 1;
            groups = insert key (created d) c.groups;
            deleted_operations = remove key c.deleted_operations;
          },
          group (created d),
        )
      ]
    ]

abbrev pub replaced :
    AggregateGroupDefinition → AggregateGroupDefinition → Bool → AggregateGroupDefinition
replaced existing d reset = record d {
  create_operation_id = existing.create_operation_id;
  revision = sat_add64 existing.revision 1;
  epoch = if reset then sat_add64 existing.epoch 1 else existing.epoch;
}

unfoldable pub run_replace : AggregateGroupDefinition → ℕ → ℕ → Bool → AggregateGroupCatalog → Step
run_replace d expected_revision partition_count reset c =
    let key = key_of d in
    elim (validate d partition_count) [
      | err reason ↦ (c, invalid reason)
      | ok _ ↦ elim (get key c.groups) [
        | none ↦ (c, not_found)
        | some existing ↦
            if existing.last_operation_id == d.last_operation_id
            then (c, group existing)
            else if not (existing.revision == expected_revision)
            then (c, conflict (some existing.revision))
            else (
              record c {
                revision = sat_add64 c.revision 1;
                groups = insert key (replaced existing d reset) c.groups;
              },
              group (replaced existing d reset),
            )
      ]
    ]

abbrev pub is_op : Option Uuid → Uuid → Bool
is_op none operation_id = false
is_op (some o) operation_id = o == operation_id

unfoldable pub validate_key : AggregateTypeId → Text → Result InvalidInput (Unit {0})
validate_key aggregate_type name = do
  Identifier.validate aggregate_type
  validate_aggregate_identifier name

unfoldable pub run_delete : AggregateTypeId → Text → ℕ → Uuid → AggregateGroupCatalog → Step
run_delete aggregate_type name expected_revision operation_id c =
    let key : GroupKey = (aggregate_type, name) in
    elim (validate_key aggregate_type name) [
      | err e ↦ (c, invalid (invalid_identifier e))
      | ok _ ↦ elim (get key c.groups) [
        | none ↦
            if is_op (get key c.deleted_operations) operation_id
            then (c, deleted)
            else (c, not_found)
        | some existing ↦
            if existing.last_operation_id == operation_id
            then (c, deleted)
            else if not (existing.revision == expected_revision)
            then (c, conflict (some existing.revision))
            else (
              record {
                revision = sat_add64 c.revision 1;
                groups = remove key c.groups;
                deleted_operations = insert key operation_id c.deleted_operations;
              },
              deleted,
            )
      ]
    ]

unfoldable pub run : AggregateGroupCatalogCommand → AggregateGroupCatalog → Step
unfolding run_create run_replace run_delete
run (create d partition_count) = run_create d partition_count
run (replace d expected_revision partition_count reset) =
    run_replace d expected_revision partition_count reset
run (delete aggregate_type name expected_revision operation_id) =
    run_delete aggregate_type name expected_revision operation_id

unfoldable pub apply :
    AggregateGroupCatalogCommand
    → AggregateGroupCatalog
    → AggregateGroupCatalog × AggregateGroupCatalogApply
apply command c =
    let (c', outcome) = run command c in (c', record { revision = c'.revision; outcome = outcome })
