-- ===== src/StateMachine/Health.antt =====
-- The stored catalog and the stored group partitions through requests and transactions.
use mathlib.Core.Path.{subst}
use eventfs.Prelude.{
  ◌+◌, ◌≤◌, ◌≡◌, sym, ap, ◌∙◌, Option, some, List, [], ◌∷◌, length, ◌==◌, nat_ord, list_ord,
  pair_ord, false, Bool-cases, Option-cases, Result-cases, inl, inr, ltb, arith,
}
use eventfs.Prelude.Words.{u64_max}
use eventfs.BTreeMap.{get, insert}
use eventfs.BTreeMap.Laws.{get-insert}
use eventfs.Identifier
use eventfs.Identifier.{type_id_ord, validate_aggregate_identifier}
use eventfs.Group.Settings
use eventfs.Catalog.{Xxh3, AggregateCatalogCommand}
use eventfs.Catalog.Apply as CatalogCommands
use eventfs.Catalog.Retry.{is_changed}
use eventfs.Catalog.Invariant.{IsWellFormed, run-IsWellFormed}
use eventfs.Group.{AggregateGroupPartition}
use eventfs.Group.Commands
use eventfs.Group.Commands.{run_command, run_partition, IsReachable, fresh}
use eventfs.StateMachine.{
  InstanceKey, Storage, write, write_all, GroupPartitionRequest, EsRequest, aggregate_append,
  put_aggregate_state, install_partition_fence, commit_catalog, commit_group_catalog,
  group_partition,
}
use eventfs.StateMachine.Batch.{read_catalog, read_group_catalog, read_fence}
use eventfs.StateMachine.Commands.{current_progress, group_of}
use eventfs.StateMachine.Apply
use eventfs.StateMachine.Apply.{EntryPayload, blank, normal, membership, Entry, Machine}
use eventfs.StateMachine.Reference
use eventfs.StateMachine.Reference.{read_progress, step, run_payload, run_entries}
use eventfs.StateMachine.Refinement.Transactions.{Same-refl}
use eventfs.StateMachine.Refinement.Machine.{apply-run_entries}

-- The stored catalog is well formed, and every stored group partition is one that commands reach from
-- a fresh one.
pub record IsHealthy (s : Storage) : Type 0 where
  pub well_formed : IsWellFormed (read_catalog s)
  pub reachable :
      (k : InstanceKey) (p : AggregateGroupPartition)
      → get k s.group_partitions ≡ some p
      → IsReachable p

-- The start positions of the group requests are `u64`.
unfoldable pub IsRequest : EsRequest → Type 0
IsRequest (aggregate_append r) = Unit
IsRequest (put_aggregate_state r) = Unit
IsRequest (install_partition_fence t p g) = Unit
IsRequest (commit_catalog command) = Unit
IsRequest (commit_group_catalog command) = Unit
IsRequest (group_partition r) = r.start_position ≤ u64_max

unfoldable pub IsPayload : {Membership : Type 0} → EntryPayload Membership → Type 0
IsPayload blank = Unit
IsPayload (normal request) = IsRequest request
IsPayload (membership mem) = Unit

unfoldable pub IsLog : {LogId Membership : Type 0} → List (Entry LogId Membership) → Type 0
IsLog [] = Unit
IsLog (entry ∷ entries) = IsPayload entry.payload × IsLog entries

same_health :
    (s m : Storage)
    → read_catalog m ≡ read_catalog s
    → ((k : InstanceKey) → get k m.group_partitions ≡ get k s.group_partitions)
    → IsHealthy s
    → IsHealthy m
same_health s m catalog groups w = record {
  well_formed = subst IsWellFormed (sym catalog) w.well_formed;
  reachable = λ k p h. w.reachable k p (sym (groups k) ∙ h);
}

progress-IsReachable :
    (r : GroupPartitionRequest) (s : Storage)
    → r.start_position ≤ u64_max
    → IsHealthy s
    → IsReachable (read_progress r s)
progress-IsReachable r s h w = elim (Option-cases (get (group_of r) s.group_partitions)) [
  | inl e ↦ rw e (fresh r.group_epoch r.start_position h)
  | inr (p, e) ↦ rw e (w.reachable (group_of r) p e)
]

-- A command of the current epoch is one of a partition.
run_current :
    (r : GroupPartitionRequest) (p : AggregateGroupPartition)
    → ltb r.group_epoch p.epoch ≡ false
    → (run_command r.settings r.group_epoch r.command (current_progress r p)).0
      ≡ (run_partition r.settings r.group_epoch r.start_position r.command p).0
unfolding run_partition
run_current r p h = ground arith

-- A progress that commands reach is stored.
stored-IsHealthy :
    (k : InstanceKey) (p : AggregateGroupPartition) (s : Storage)
    → IsReachable p
    → IsHealthy s
    → IsHealthy (record s { group_partitions = insert k p s.group_partitions })
stored-IsHealthy k p s reach w = record {
  well_formed = w.well_formed;
  reachable = λ j q h. elim (Bool-cases (j == k)) [
    | inl same ↦ subst IsReachable (ground (arith, h, get-insert j k p s.group_partitions)) reach
    | inr other ↦ w.reachable j q (ground (arith, h, get-insert j k p s.group_partitions))
  ];
}

run_fenced-IsHealthy :
    (r : GroupPartitionRequest) (s : Storage)
    → r.start_position ≤ u64_max
    → IsHealthy s
    → IsHealthy (Reference.run_fenced r s).0
unfolding Reference.run_fenced write
run_fenced-IsHealthy r s h w =
    let fence = read_fence s (r.aggregate_type, r.partition_id) in
    let p = read_progress r s in
    let q = (run_command r.settings r.group_epoch r.command (current_progress r p)).0 in
    elim (Bool-cases (fence == r.partition_generation)) [
      | inr other ↦ rw other w
      | inl same ↦ rw same (elim (Bool-cases (ltb r.group_epoch p.epoch)) [
        | inl stale ↦ rw stale w
        | inr current ↦ rw current (
            stored-IsHealthy (group_of r) q s
              (Commands.step (progress-IsReachable r s h w) r.settings r.group_epoch
                r.start_position r.command h (run_current r p current))
              w)
      ])
    ]

catalog-IsHealthy :
    (x : Xxh3) (command : AggregateCatalogCommand) (s : Storage)
    → IsHealthy s
    → IsHealthy (Reference.run_catalog x command s).0
unfolding Reference.run_catalog write CatalogCommands.apply
catalog-IsHealthy x command s w =
    let (catalog, applied) = CatalogCommands.apply x command (read_catalog s) in
    elim (Bool-cases (is_changed applied.outcome)) [
      | inl changed ↦ rw changed (record {
        well_formed = run-IsWellFormed x (read_catalog s) w.well_formed command;
        reachable = w.reachable;
      })
      | inr same ↦ rw same w
    ]

step-IsHealthy :
    (x : Xxh3) (request : EsRequest) (s : Storage)
    → IsRequest request
    → IsHealthy s
    → IsHealthy (step x request s).0
unfolding step IsRequest
step-IsHealthy x (aggregate_append r) s b w =
    unfold Reference.append Reference.append_validated Reference.append_versioned
      Reference.append_at write write_all in
    same_health s _ (ground arith) (λ k. ground arith) w
step-IsHealthy x (put_aggregate_state r) s b w =
    unfold Reference.put Reference.put_fenced Reference.put_compared write in
    same_health s _ (ground arith) (λ k. ground arith) w
step-IsHealthy x (install_partition_fence t p g) s b w =
    unfold Reference.install_fence write in same_health s _ (ground arith) (λ k. ground arith) w
step-IsHealthy x (commit_catalog command) s b w = catalog-IsHealthy x command s w
step-IsHealthy x (commit_group_catalog command) s b w =
    unfold Reference.run_group_catalog write in same_health s _ (ground arith) (λ k. ground arith) w
step-IsHealthy x (group_partition r) s b w =
    unfold Reference.run_group in
    elim (Result-cases (Identifier.validate r.aggregate_type)) [
      | inl (e, h) ↦ rw (h, Reference.run_group) w
      | inr h ↦
          rw (h, Reference.run_group)
            (elim (Result-cases (validate_aggregate_identifier r.group_name)) [
              | inl (e, k) ↦ rw (k, Reference.run_group) w
              | inr k ↦
                  rw (k, Reference.run_group)
                    (elim (Result-cases (Settings.validate r.settings)) [
                      | inl (e, l) ↦ rw (l, Reference.run_group) w
                      | inr l ↦ rw (l, Reference.run_group) (run_fenced-IsHealthy r s b w)
                    ])
            ])
    ]

run_payload-IsHealthy :
    {Membership : Type 0} (x : Xxh3) (p : EntryPayload Membership) (s : Storage)
    → IsPayload p
    → IsHealthy s
    → IsHealthy (run_payload x p s).0
unfolding run_payload IsRequest IsPayload
run_payload-IsHealthy x blank s b w = w
run_payload-IsHealthy x (normal request) s b w = step-IsHealthy x request s b w
run_payload-IsHealthy x (membership mem) s b w = w

run_entries-IsHealthy :
    {LogId Membership : Type 0} (x : Xxh3) (entries : List (Entry LogId Membership)) (s : Storage)
    → IsLog entries
    → IsHealthy s
    → IsHealthy (run_entries x entries s).0
unfolding run_entries IsLog
run_entries-IsHealthy x [] s b w = w
run_entries-IsHealthy x (entry ∷ entries) s b w =
    run_entries-IsHealthy x entries (run_payload x entry.payload s).0 b.1
      (run_payload-IsHealthy x entry.payload s b.0 w)

-- A transaction keeps the stored catalog well formed and every stored group partition in a state that
-- commands reach from a fresh one, if the start positions of the requests are `u64` and the revision
-- of the group catalog does not reach the last `u64`.
pub apply-IsHealthy :
    {LogId Membership Stored : Type 0} (stored_membership : Option LogId → Membership → Stored)
    → (x : Xxh3) (entries : List (Entry LogId Membership)) (m : Machine LogId Stored)
    → (read_group_catalog m.storage).revision + length entries ≤ u64_max
    → IsLog entries
    → IsHealthy m.storage
    → IsHealthy (Apply.apply stored_membership x entries m).0.storage
apply-IsHealthy stored_membership x entries m h b w =
    let s = (run_entries x entries m.storage).0 in
    let (answers, same) =
      apply-run_entries stored_membership x entries m m.storage h (Same-refl m.storage) in
    same_health s (Apply.apply stored_membership x entries m).0.storage
      (ap read_catalog same.tables) same.groups (run_entries-IsHealthy x entries m.storage b w)
