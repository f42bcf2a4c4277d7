-- ===== src/StateMachine/Reference.antt =====
-- The state machine as a specification: one request at a time on the stored maps, with no caches and
-- no pending writes.
use eventfs.Prelude.{
  ℕ, max, none, some, List, [], ◌∷◌, ◌==◌, nat_ord, list_ord, pair_ord, not, if◌then◌else◌, length,
  ltb, ok, err,
}
use eventfs.Prelude.Words.{checked_suc64}
use eventfs.BTreeMap.{get}
use eventfs.Identifier
use eventfs.Identifier.{AggregateTypeId, type_id_ord, validate_aggregate_identifier}
use eventfs.Catalog.{Xxh3, AggregateCatalogCommand}
use eventfs.Catalog.Apply
use eventfs.Catalog.Retry.{is_changed}
use eventfs.Group.{AggregateGroupPartition}
use eventfs.Group.Settings
use eventfs.Group.Progress
use eventfs.Group.Commands.{stale_epoch, run_command}
use eventfs.GroupCatalog
use eventfs.GroupCatalog.{AggregateGroupCatalogCommand}
use eventfs.Append.{check_expected_aggregate_version}
use eventfs.StateMachine.{
  Storage, put_next_position, put_state, put_state_modified, put_partition_fence, put_catalog,
  put_group_catalog, put_group_partition, write, write_all, AppendRequest, PutStateRequest,
  GroupPartitionRequest, EsRequest, aggregate_append, put_aggregate_state, install_partition_fence,
  commit_catalog, commit_group_catalog, group_partition, invalid_identifier, invalid_settings,
  empty_event_type, version_exhausted, position_exhausted, revision_exhausted, zero_generation,
  EsResponse, noop, aggregate_not_found, append_ok, optimistic_conflict, state_conflict,
  state_stored, fence_installed, partition_fenced, catalog_applied, group_catalog_applied,
  group_partition_ran, aggregate_invalid,
}
use eventfs.StateMachine.Batch.{
  unwrap_or, read_fence, read_partition_head, read_catalog, read_group_catalog,
}
use eventfs.StateMachine.Apply.{EntryPayload, blank, normal, membership, Entry}
use eventfs.StateMachine.Append.{
  partition_of, instance_of, identity_of, next_version, event_ops, answer_existing,
}
use eventfs.StateMachine.Commands.{
  check_expected_revision, next_revision, actual_revision, new_state, new_document, document_of,
  group_of, current_progress,
}

abbrev pub Answer : Type 0
Answer = Storage × EsResponse

module _ (x : Xxh3) (r : AppendRequest) where
  unfoldable pub append_at : ℕ → Storage → Answer
  append_at version s =
      let position = read_partition_head s (partition_of r) in
      elim (checked_suc64 position) [
        | none ↦ (s, aggregate_invalid position_exhausted)
        | some next_position ↦ (
          write (put_next_position (partition_of r) next_position)
              (write_all (event_ops x s r version position) s),
          append_ok version position,
        )
      ]

  unfoldable pub append_versioned : Storage → Answer
  append_versioned s =
      let current = get (instance_of r) s.metas in
      if not (check_expected_aggregate_version r.expected_version current)
      then (s, optimistic_conflict current)
      else elim (next_version current) [
        | none ↦ (s, aggregate_invalid version_exhausted)
        | some version ↦ append_at version s
      ]

  unfoldable pub append_validated : Storage → Answer
  append_validated s = elim (get (identity_of r) s.idempotency) [
    | some existing ↦ (s, answer_existing x s r existing)
    | none ↦
        if not (read_fence s (partition_of r) == r.partition_generation)
        then (s, partition_fenced (read_fence s (partition_of r)))
        else append_versioned s
  ]

  unfoldable pub append : Storage → Answer
  append s = elim (Identifier.validate r.aggregate_type) [
    | err e ↦ (s, aggregate_invalid (invalid_identifier e))
    | ok _ ↦ elim (validate_aggregate_identifier r.aggregate_id) [
      | err e ↦ (s, aggregate_invalid (invalid_identifier e))
      | ok _ ↦
          if length r.event.event_type == 0
          then (s, aggregate_invalid empty_event_type)
          else append_validated s
    ]
  ]

module _ (r : PutStateRequest) where
  unfoldable pub put_compared : Storage → Answer
  put_compared s =
      let current = get (document_of r) s.states in
      if not (check_expected_revision r.expected_revision current)
      then (s, state_conflict (actual_revision current))
      else elim (next_revision current) [
        | none ↦ (s, aggregate_invalid revision_exhausted)
        | some revision ↦ (
          write (put_state_modified (document_of r) r.hlc)
              (write (put_state (document_of r) (new_state r revision)) s),
          state_stored (new_document r revision),
        )
      ]

  unfoldable pub put_fenced : Storage → Answer
  put_fenced s =
      let fence = read_fence s (r.aggregate_type, r.partition_id) in
      if not (fence == r.partition_generation)
      then (s, partition_fenced fence)
      else elim (get (document_of r) s.metas) [
        | none ↦ (s, aggregate_not_found)
        | some _ ↦ put_compared s
      ]

  unfoldable pub put : Storage → Answer
  put s = elim (Identifier.validate r.aggregate_type) [
    | err e ↦ (s, aggregate_invalid (invalid_identifier e))
    | ok _ ↦ elim (validate_aggregate_identifier r.aggregate_id) [
      | err e ↦ (s, aggregate_invalid (invalid_identifier e))
      | ok _ ↦ put_fenced s
    ]
  ]

unfoldable pub install_fence : AggregateTypeId → ℕ → ℕ → Storage → Answer
install_fence t partition_id generation s = elim (Identifier.validate t) [
  | err e ↦ (s, aggregate_invalid (invalid_identifier e))
  | ok _ ↦
      if generation == 0
      then (s, aggregate_invalid zero_generation)
      else let current = read_fence s (t, partition_id) in
        let installed = max current generation in
        (
          if installed == current
              then s
              else write (put_partition_fence (t, partition_id) installed) s,
          fence_installed installed,
        )
]

unfoldable pub run_catalog : Xxh3 → AggregateCatalogCommand → Storage → Answer
run_catalog x command s =
    let (catalog, applied) = Apply.apply x command (read_catalog s) in
    (
      if is_changed applied.outcome then write (put_catalog catalog) s else s,
      catalog_applied applied,
    )

unfoldable pub run_group_catalog : AggregateGroupCatalogCommand → Storage → Answer
run_group_catalog command s =
    let (catalog, applied) = GroupCatalog.apply command (read_group_catalog s) in
    (
      if catalog.revision == (read_group_catalog s).revision
          then s
          else write (put_group_catalog catalog) s,
      group_catalog_applied applied,
    )

module _ (r : GroupPartitionRequest) where
  abbrev pub read_progress : Storage → AggregateGroupPartition
  read_progress s =
      unwrap_or (Progress.new r.group_epoch r.start_position) (get (group_of r) s.group_partitions)

  unfoldable pub run_fenced : Storage → Answer
  run_fenced s =
      let fence = read_fence s (r.aggregate_type, r.partition_id) in
      if not (fence == r.partition_generation)
      then (s, partition_fenced fence)
      else if ltb r.group_epoch (read_progress s).epoch
      then (s, group_partition_ran (stale_epoch (read_progress s).epoch))
      else let (state', response) =
          run_command r.settings r.group_epoch r.command (current_progress r (read_progress s)) in
        (write (put_group_partition (group_of r) state') s, group_partition_ran response)

  unfoldable pub run_group : Storage → Answer
  run_group s = elim (Identifier.validate r.aggregate_type) [
    | err e ↦ (s, aggregate_invalid (invalid_identifier e))
    | ok _ ↦ elim (validate_aggregate_identifier r.group_name) [
      | err e ↦ (s, aggregate_invalid (invalid_identifier e))
      | ok _ ↦ elim (Settings.validate r.settings) [
        | err e ↦ (s, aggregate_invalid (invalid_settings e))
        | ok _ ↦ run_fenced s
      ]
    ]
  ]

unfoldable pub step : Xxh3 → EsRequest → Storage → Answer
step x (aggregate_append r) = append x r
step x (put_aggregate_state r) = put r
step x (install_partition_fence t p g) = install_fence t p g
step x (commit_catalog command) = run_catalog x command
step x (commit_group_catalog command) = run_group_catalog command
step x (group_partition r) = run_group r

unfoldable pub run_payload :
    {Membership : Type 0} → Xxh3 → EntryPayload Membership → Storage → Answer
run_payload x blank s = (s, noop)
run_payload x (normal request) s = step x request s
run_payload x (membership mem) s = (s, noop)

module _ {LogId Membership : Type 0} (x : Xxh3) where
  -- One entry after the other, with the answers.
  unfoldable pub run_entries : List (Entry LogId Membership) → Storage → Storage × List EsResponse
  run_entries [] s = (s, [])
  run_entries (entry ∷ entries) s =
      let (s', answer) = run_payload x entry.payload s in
      let (s'', answers) = run_entries entries s' in (s'', answer ∷ answers)
