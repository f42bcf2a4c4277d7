-- ===== src/StateMachine/Refinement/Control.antt =====
-- Fences, catalogs and group commands: what they answer and what they leave.
use eventfs.Prelude.{
  ℕ, ◌<◌, ◌≡◌, refl, max, ◌==◌, nat_ord, list_ord, pair_ord, ltb, Bool-cases, inl, inr,
  Result-cases, arith,
}
use eventfs.Prelude.Words.{u64_max}
use eventfs.Identifier
use eventfs.Identifier.{AggregateTypeId, type_id_ord, validate_aggregate_identifier}
use eventfs.Catalog.{Xxh3, AggregateCatalogCommand}
use eventfs.Catalog.Apply
use eventfs.Catalog.Retry.{is_changed, run_unchanged}
use eventfs.Group.Settings
use eventfs.Group.Settings.{SettingsError}
use eventfs.Group.Commands.{run_command}
use eventfs.GroupCatalog
use eventfs.GroupCatalog.{AggregateGroupCatalog, AggregateGroupCatalogCommand}
use eventfs.GroupCatalog.Laws.{run_same_revision}
use eventfs.StateMachine.{PartitionKey, Storage, GroupPartitionRequest, ApplyBatch}
use eventfs.StateMachine.Batch.{
  read_fence, read_catalog, read_group_catalog, batch_partition_fence, batch_catalog,
  batch_group_catalog,
}
use eventfs.StateMachine.Commands
use eventfs.StateMachine.Commands.{
  group_of, current_progress, raise_fence, apply_partition_fence, apply_catalog_command,
  apply_group_catalog_command, run_group_fenced, apply_group_partition,
}
use eventfs.StateMachine.Reference
use eventfs.StateMachine.Reference.{read_progress}
use eventfs.StateMachine.Tracking.{Tracks, fence_lem, progress_lem}
use eventfs.StateMachine.Refinement.Append.{Agrees}
use eventfs.StateMachine.Refinement.Commands.{
  Tracks-fence, Tracks-catalog, Tracks-group_catalog, Tracks-store_progress, Tracks-read_catalog,
  Tracks-read_group_catalog,
}

module _ (s : Storage) (b : ApplyBatch) (m : Storage) (t : Tracks s b m) where
  pub Agrees-fence :
      (u : AggregateTypeId) (partition_id generation : ℕ)
      → Agrees s
          (apply_partition_fence s u partition_id generation b)
          (Reference.install_fence u partition_id generation m)
  unfolding apply_partition_fence Reference.install_fence raise_fence
  Agrees-fence u partition_id generation = elim (Result-cases (Identifier.validate u)) [
    | inl (e, h) ↦ rw (h, apply_partition_fence, Reference.install_fence) (refl, t)
    | inr h ↦
        let key : PartitionKey = (u, partition_id) in
        let (read, t') = fence_lem s key b m t in
        let b' = (batch_partition_fence s key b).0 in
        rw (h, apply_partition_fence, Reference.install_fence)
          (elim (Bool-cases (generation == 0)) [
            | inl zero ↦ rw zero (refl, t)
            | inr positive ↦
                rw (positive, read)
                  (elim (Bool-cases (max (read_fence m key) generation == read_fence m key)) [
                    | inl same ↦ rw same (refl, t')
                    | inr raised ↦
                        rw raised
                          (refl, Tracks-fence s b' m t' key (max (read_fence m key) generation))
                  ])
          ])
  ]

  pub Agrees-catalog :
      (x : Xxh3) (command : AggregateCatalogCommand)
      → Agrees s (apply_catalog_command s x command b) (Reference.run_catalog x command m)
  unfolding apply_catalog_command Reference.run_catalog Apply.apply batch_catalog
  Agrees-catalog x command =
      let same : batch_catalog s b ≡ read_catalog m = ground (arith, t.catalog) in
      rw same (elim (Bool-cases (is_changed (Apply.run x command (read_catalog m)).1)) [
        | inl changed ↦
            rw changed (refl, Tracks-catalog s b m t (Apply.run x command (read_catalog m)).0)
        | inr kept ↦ rw kept (
          refl,
          Tracks-read_catalog s b m t (Apply.run x command (read_catalog m)).0
              (run_unchanged x (read_catalog m) command kept),
        )
      ])

  pub Agrees-group_catalog :
      (command : AggregateGroupCatalogCommand)
      → (read_group_catalog m).revision < u64_max
      → Agrees s (apply_group_catalog_command s command b) (Reference.run_group_catalog command m)
  unfolding apply_group_catalog_command Reference.run_group_catalog GroupCatalog.apply
      batch_group_catalog
  Agrees-group_catalog command below =
      let c = read_group_catalog m in
      let same : batch_group_catalog s b ≡ c = ground (arith, t.group_catalog) in
      rw same (elim (Bool-cases ((GroupCatalog.run command c).0.revision == c.revision)) [
        | inl kept ↦ rw kept (
          refl,
          Tracks-read_group_catalog s b m t (GroupCatalog.run command c).0
              (run_same_revision c below command (ground arith)),
        )
        | inr changed ↦
            rw changed (refl, Tracks-group_catalog s b m t (GroupCatalog.run command c).0)
      ])

  Agrees-run_fenced :
      (r : GroupPartitionRequest) → Agrees s (run_group_fenced s r b) (Reference.run_fenced r m)
  unfolding run_group_fenced Reference.run_fenced Commands.run_group
  Agrees-run_fenced r =
      let key : PartitionKey = (r.aggregate_type, r.partition_id) in
      let (read, t') = fence_lem s key b m t in
      let b' = (batch_partition_fence s key b).0 in
      let progress = progress_lem s (group_of r) r.group_epoch r.start_position b' m t' in
      let state = read_progress r m in
      rw read (elim (Bool-cases (read_fence m key == r.partition_generation)) [
        | inr other ↦ rw other (refl, t')
        | inl same ↦
            rw (same, progress)
              (elim (Bool-cases (ltb r.group_epoch state.epoch)) [
                | inl stale ↦ rw stale (refl, t')
                | inr current ↦ rw current (
                  refl,
                  Tracks-store_progress s b' m t' r
                      (run_command r.settings r.group_epoch r.command (current_progress r state)).0,
                )
              ])
      ])

  pub Agrees-group :
      (r : GroupPartitionRequest) → Agrees s (apply_group_partition s r b) (Reference.run_group r m)
  unfolding apply_group_partition Reference.run_group
  Agrees-group r = elim (Result-cases (Identifier.validate r.aggregate_type)) [
    | inl (e, h) ↦ rw (h, apply_group_partition, Reference.run_group) (refl, t)
    | inr h ↦
        rw (h, apply_group_partition, Reference.run_group)
          (elim (Result-cases (validate_aggregate_identifier r.group_name)) [
            | inl (e, k) ↦ rw (k, apply_group_partition, Reference.run_group) (refl, t)
            | inr k ↦
                rw (k, apply_group_partition, Reference.run_group)
                  (elim (Result-cases (Settings.validate r.settings)) [
                    | inl (e, l) ↦ rw (l, apply_group_partition, Reference.run_group) (refl, t)
                    | inr l ↦
                        rw (l, apply_group_partition, Reference.run_group) (Agrees-run_fenced r)
                  ])
          ])
  ]
