-- ===== src/StateMachine/Append.antt =====
-- `apply_aggregate_append` of es-storage/src/state_machine.rs, one function for each stretch between
-- its early returns.
use eventfs.Prelude.{
  ℕ, Option, none, some, List, [], ◌∷◌, ◌++◌, ◌==◌, nat_ord, list_ord, pair_ord, not, if◌then◌else◌,
  length, ok, err,
}
use eventfs.Prelude.Words.{checked_suc64}
use eventfs.BTreeMap.{insert}
use eventfs.Identifier
use eventfs.Identifier.{type_id_ord, validate_aggregate_identifier}
use eventfs.Catalog.{Xxh3}
use eventfs.Append.{aggregate_append_fingerprint, check_expected_aggregate_version}
use eventfs.StateMachine.{
  AggregateEvent, AggregateIdempotencyRecord, PartitionKey, InstanceKey, NumberKey, Storage,
  ApplyOp, put_event, put_meta, put_partition_index, put_idempotency, AppendRequest,
  invalid_identifier, empty_event_type, version_exhausted, position_exhausted, EsResponse,
  idempotency_conflict, append_ok, optimistic_conflict, partition_fenced, aggregate_invalid,
  ApplyBatch,
}
use eventfs.StateMachine.Batch.{
  batch_aggregate_version, batch_partition_position, batch_partition_fence, batch_idempotency,
}

-- The keys of a request.
abbrev pub partition_of : AppendRequest → PartitionKey
partition_of r = (r.aggregate_type, r.partition_id)

abbrev pub instance_of : AppendRequest → InstanceKey
instance_of r = (r.aggregate_type, (r.partition_id, r.aggregate_id))

abbrev pub identity_of : AppendRequest → NumberKey
identity_of r = (r.aggregate_type, (r.partition_id, r.event.event_id))

abbrev pub stored_event : AppendRequest → ℕ → ℕ → AggregateEvent
stored_event r version position = record {
  aggregate_type = r.aggregate_type;
  partition_id = r.partition_id;
  aggregate_id = r.aggregate_id;
  aggregate_version = version;
  event_id = r.event.event_id;
  event_type = r.event.event_type;
  data_bytes = r.event.data_bytes;
  metadata = r.event.metadata;
  hlc = r.hlc;
  partition_position = position;
}

abbrev pub next_version : Option ℕ → Option ℕ
next_version none = some 0
next_version (some version) = checked_suc64 version

module _ (x : Xxh3) (s : Storage) (r : AppendRequest) where
  abbrev pub fingerprint_of : ℕ
  fingerprint_of =
      aggregate_append_fingerprint x r.aggregate_type r.aggregate_id r.expected_version r.event

  abbrev pub idempotency_record : ℕ → ℕ → AggregateIdempotencyRecord
  idempotency_record version position = record {
    fingerprint = fingerprint_of;
    result = record { aggregate_version = version; partition_position = position };
  }

  -- The four writes of an event that is accepted, in order.
  abbrev pub event_ops : ℕ → ℕ → List ApplyOp
  event_ops version position =
      put_event (instance_of r, version) (stored_event r version position)
      ∷ put_partition_index (r.aggregate_type, (r.partition_id, position)) (r.aggregate_id, version)
      ∷ put_meta (instance_of r) version
      ∷ put_idempotency (identity_of r) (idempotency_record version position)
      ∷ []

  unfoldable pub append_event : ℕ → ℕ → ℕ → ApplyBatch → ApplyBatch
  append_event version position next_position b = record b {
    ops = b.ops ++ event_ops version position;
    aggregate_versions = insert (instance_of r) (some version) b.aggregate_versions;
    aggregate_partition_positions =
        insert (partition_of r) next_position b.aggregate_partition_positions;
    aggregate_idempotency =
        insert (identity_of r) (idempotency_record version position) b.aggregate_idempotency;
    new_aggregate_events = b.new_aggregate_events ++ stored_event r version position ∷ [];
  }

  unfoldable pub append_at : ℕ → ApplyBatch → ApplyBatch × EsResponse
  append_at version b =
      let (b', position) = batch_partition_position s (partition_of r) b in
      elim (checked_suc64 position) [
        | none ↦ (b', aggregate_invalid position_exhausted)
        | some next_position ↦
            (append_event version position next_position b', append_ok version position)
      ]

  unfoldable pub append_versioned : ApplyBatch → ApplyBatch × EsResponse
  append_versioned b =
      let (b', current) = batch_aggregate_version s (instance_of r) b in
      if not (check_expected_aggregate_version r.expected_version current)
      then (b', optimistic_conflict current)
      else elim (next_version current) [
        | none ↦ (b', aggregate_invalid version_exhausted)
        | some version ↦ append_at version b'
      ]

  unfoldable pub append_fenced : ApplyBatch → ApplyBatch × EsResponse
  append_fenced b =
      let (b', current_fence) = batch_partition_fence s (partition_of r) b in
      if not (current_fence == r.partition_generation)
      then (b', partition_fenced current_fence)
      else append_versioned b'

  -- What a request answers whose identity has been used.
  abbrev pub answer_existing : AggregateIdempotencyRecord → EsResponse
  answer_existing existing =
      if existing.fingerprint == fingerprint_of
      then append_ok existing.result.aggregate_version existing.result.partition_position
      else idempotency_conflict

  unfoldable pub append_validated : ApplyBatch → ApplyBatch × EsResponse
  append_validated b =
      let (b', existing) = batch_idempotency s (identity_of r) b in
      elim existing [ some existing ↦ (b', answer_existing existing) | none ↦ append_fenced b' ]

  unfoldable pub apply_aggregate_append : ApplyBatch → ApplyBatch × EsResponse
  apply_aggregate_append b = elim (Identifier.validate r.aggregate_type) [
    | err e ↦ (b, aggregate_invalid (invalid_identifier e))
    | ok _ ↦ elim (validate_aggregate_identifier r.aggregate_id) [
      | err e ↦ (b, aggregate_invalid (invalid_identifier e))
      | ok _ ↦
          if length r.event.event_type == 0
          then (b, aggregate_invalid empty_event_type)
          else append_validated b
    ]
  ]
