-- ===== src/StateMachine/Commands.antt =====
-- `apply_put_aggregate_state`, `apply_aggregate_partition_fence`, the two catalog commands and
-- `apply_aggregate_group_partition` of es-storage/src/state_machine.rs.
use eventfs.Prelude.{
  ℕ, max, Option, none, some, [], ◌∷◌, ◌++◌, ◌==◌, nat_ord, list_ord, pair_ord, Bool, true, false,
  not, if◌then◌else◌, ltb, ok, err,
}
use eventfs.Prelude.Words.{checked_suc64}
use eventfs.BTreeMap.{insert}
use eventfs.Identifier
use eventfs.Identifier.{AggregateTypeId, type_id_ord, validate_aggregate_identifier}
use eventfs.Catalog.{Xxh3, AggregateCatalogCommand}
use eventfs.Catalog.Apply
use eventfs.Catalog.Retry.{is_changed}
use eventfs.Group.{AggregateGroupPartition}
use eventfs.Group.Settings
use eventfs.Group.Progress.{reset}
use eventfs.Group.Commands.{stale_epoch, run_command}
use eventfs.GroupCatalog
use eventfs.GroupCatalog.{AggregateGroupCatalogCommand}
use eventfs.StateMachine.{
  ExpectedStateRevision, absent, exact, AggregateState, AggregateStateDocument, PartitionKey,
  InstanceKey, Storage, put_state, put_state_modified, put_partition_fence, put_catalog,
  put_group_catalog, put_group_partition, PutStateRequest, GroupPartitionRequest,
  invalid_identifier, invalid_settings, revision_exhausted, zero_generation, EsResponse,
  aggregate_not_found, state_conflict, state_stored, fence_installed, partition_fenced,
  catalog_applied, group_catalog_applied, group_partition_ran, aggregate_invalid, ApplyBatch,
}
use eventfs.StateMachine.Batch.{
  batch_aggregate_version, batch_aggregate_state, batch_partition_fence, batch_catalog,
  batch_group_catalog, batch_group_partition, drop_writes_of,
}

-- The revision condition, the next revision and the revision in a conflict.
abbrev pub check_expected_revision : ExpectedStateRevision → Option AggregateState → Bool
check_expected_revision absent none = true
check_expected_revision absent (some state) = false
check_expected_revision (exact expected) none = false
check_expected_revision (exact expected) (some state) = state.revision == expected

abbrev pub next_revision : Option AggregateState → Option ℕ
next_revision none = some 0
next_revision (some state) = checked_suc64 state.revision

abbrev pub actual_revision : Option AggregateState → Option ℕ
actual_revision none = none
actual_revision (some state) = some state.revision

abbrev pub new_state : PutStateRequest → ℕ → AggregateState
new_state r revision = record { revision = revision; data_bytes = r.data_bytes }

abbrev pub new_document : PutStateRequest → ℕ → AggregateStateDocument
new_document r revision = record {
  revision = revision;
  data_bytes = r.data_bytes;
  modified_hlc = r.hlc;
}

abbrev pub document_of : PutStateRequest → InstanceKey
document_of r = (r.aggregate_type, (r.partition_id, r.aggregate_id))

module _ (s : Storage) (r : PutStateRequest) where
  unfoldable pub store_state : ℕ → ApplyBatch → ApplyBatch
  store_state revision b = record b {
    ops =
        b.ops
        ++ put_state (document_of r) (new_state r revision)
          ∷ put_state_modified (document_of r) r.hlc
          ∷ [];
    aggregate_states = insert (document_of r) (some (new_state r revision)) b.aggregate_states;
  }

  unfoldable pub put_compared : ApplyBatch → ApplyBatch × EsResponse
  put_compared b =
      let (b', current) = batch_aggregate_state s (document_of r) b in
      if not (check_expected_revision r.expected_revision current)
      then (b', state_conflict (actual_revision current))
      else elim (next_revision current) [
        | none ↦ (b', aggregate_invalid revision_exhausted)
        | some revision ↦ (store_state revision b', state_stored (new_document r revision))
      ]

  unfoldable pub put_existing : ApplyBatch → ApplyBatch × EsResponse
  put_existing b =
      let (b', version) = batch_aggregate_version s (document_of r) b in
      elim version [ none ↦ (b', aggregate_not_found) | some _ ↦ put_compared b' ]

  unfoldable pub put_fenced : ApplyBatch → ApplyBatch × EsResponse
  put_fenced b =
      let (b', current_fence) = batch_partition_fence s (r.aggregate_type, r.partition_id) b in
      if not (current_fence == r.partition_generation)
      then (b', partition_fenced current_fence)
      else put_existing b'

  unfoldable pub apply_put_aggregate_state : ApplyBatch → ApplyBatch × EsResponse
  apply_put_aggregate_state b = elim (Identifier.validate r.aggregate_type) [
    | err e ↦ (b, aggregate_invalid (invalid_identifier e))
    | ok _ ↦ elim (validate_aggregate_identifier r.aggregate_id) [
      | err e ↦ (b, aggregate_invalid (invalid_identifier e))
      | ok _ ↦ put_fenced b
    ]
  ]

module _ (s : Storage) where
  unfoldable pub raise_fence : PartitionKey → ℕ → ℕ → ApplyBatch → ApplyBatch
  raise_fence k current installed b = if installed == current then b else record b {
    ops = b.ops ++ put_partition_fence k installed ∷ [];
    aggregate_partition_fences = insert k installed b.aggregate_partition_fences;
  }

  unfoldable pub apply_partition_fence :
      AggregateTypeId → ℕ → ℕ → ApplyBatch → ApplyBatch × EsResponse
  apply_partition_fence t partition_id generation b = elim (Identifier.validate t) [
    | err e ↦ (b, aggregate_invalid (invalid_identifier e))
    | ok _ ↦
        if generation == 0
        then (b, aggregate_invalid zero_generation)
        else let (b', current) = batch_partition_fence s (t, partition_id) b in
          let installed = max current generation in
          (raise_fence (t, partition_id) current installed b', fence_installed installed)
  ]

  unfoldable pub apply_catalog_command :
      Xxh3 → AggregateCatalogCommand → ApplyBatch → ApplyBatch × EsResponse
  apply_catalog_command x command b =
      let (catalog, applied) = Apply.apply x command (batch_catalog s b) in
      (
        record b {
          ops = if is_changed applied.outcome then b.ops ++ put_catalog catalog ∷ [] else b.ops;
          aggregate_catalog = some catalog;
        },
        catalog_applied applied,
      )

  unfoldable pub apply_group_catalog_command :
      AggregateGroupCatalogCommand → ApplyBatch → ApplyBatch × EsResponse
  apply_group_catalog_command command b =
      let previous = batch_group_catalog s b in
      let (catalog, applied) = GroupCatalog.apply command previous in
      (
        record b {
          ops =
              if catalog.revision == previous.revision
              then b.ops
              else b.ops ++ put_group_catalog catalog ∷ [];
          aggregate_group_catalog = some catalog;
        },
        group_catalog_applied applied,
      )

abbrev pub group_of : GroupPartitionRequest → InstanceKey
group_of r = (r.aggregate_type, (r.partition_id, r.group_name))

-- The progress that a command of the current or a newer epoch runs on.
abbrev pub current_progress :
    GroupPartitionRequest → AggregateGroupPartition → AggregateGroupPartition
current_progress r state =
    if ltb state.epoch r.group_epoch then reset state r.group_epoch r.start_position else state

module _ (s : Storage) (r : GroupPartitionRequest) where
  unfoldable pub store_progress : AggregateGroupPartition → ApplyBatch → ApplyBatch
  store_progress state b = record b {
    ops = drop_writes_of (group_of r) b.ops ++ put_group_partition (group_of r) state ∷ [];
    aggregate_group_partitions = insert (group_of r) state b.aggregate_group_partitions;
  }

  unfoldable pub run_group : ApplyBatch → ApplyBatch × EsResponse
  run_group b =
      let state = batch_group_partition s (group_of r) r.group_epoch r.start_position b in
      if ltb r.group_epoch state.epoch
      then (b, group_partition_ran (stale_epoch state.epoch))
      else let (state', response) =
          run_command r.settings r.group_epoch r.command (current_progress r state) in
        (store_progress state' b, group_partition_ran response)

  unfoldable pub run_group_fenced : ApplyBatch → ApplyBatch × EsResponse
  run_group_fenced b =
      let (b', current_fence) = batch_partition_fence s (r.aggregate_type, r.partition_id) b in
      if not (current_fence == r.partition_generation)
      then (b', partition_fenced current_fence)
      else run_group b'

  unfoldable pub apply_group_partition : ApplyBatch → ApplyBatch × EsResponse
  apply_group_partition b = elim (Identifier.validate r.aggregate_type) [
    | err e ↦ (b, aggregate_invalid (invalid_identifier e))
    | ok _ ↦ elim (validate_aggregate_identifier r.group_name) [
      | err e ↦ (b, aggregate_invalid (invalid_identifier e))
      | ok _ ↦ elim (Settings.validate r.settings) [
        | err e ↦ (b, aggregate_invalid (invalid_settings e))
        | ok _ ↦ run_group_fenced b
      ]
    ]
  ]
