-- ===== src/StateMachine/Refinement/Transactions.antt =====
-- A transaction of many entries against the entries one by one.
use mathlib.Core.List.{append_assoc, append-nil}
use eventfs.Prelude.{
  ℕ, ◌+◌, ◌≤◌, ◌<◌, ◌≡◌, refl, sym, ap, ◌∙◌, Option, List, [], ◌∷◌, ◌++◌, length, nat_ord, list_ord,
  pair_ord, arith,
}
use eventfs.Prelude.Words.{u64_max}
use eventfs.BTreeMap.{BTreeMap, get}
use eventfs.BTreeMap.Laws.{get-insert}
use eventfs.Identifier.{type_id_ord}
use eventfs.Catalog.{Xxh3}
use eventfs.GroupCatalog
use eventfs.GroupCatalog.Laws.{revision-run}
use eventfs.StateMachine.{
  PartitionKey, InstanceKey, Storage, put_next_position, write, write_all, AppendRequest,
  PutStateRequest, GroupPartitionRequest, EsRequest, aggregate_append, put_aggregate_state,
  install_partition_fence, commit_catalog, commit_group_catalog, group_partition, ApplyBatch,
  empty_batch,
}
use eventfs.StateMachine.Batch.{
  unwrap_or, no_groups, read_partition_head, read_fence, read_catalog, read_group_catalog,
}
use eventfs.StateMachine.Apply.{
  apply_request, EntryPayload, blank, normal, membership, Entry, ApplyRun, position_ops,
  transaction, apply_entry, apply_entries,
}
use eventfs.StateMachine.Reference
use eventfs.StateMachine.Reference.{step, run_payload, run_entries}
use eventfs.StateMachine.Tracking.{cached, forget, Tracks}
use eventfs.StateMachine.Writes.{write_all-append}
use eventfs.StateMachine.Refinement.Append.{Agrees, Agrees-append}
use eventfs.StateMachine.Refinement.Commands.{Agrees-put}
use eventfs.StateMachine.Refinement.Control.{
  Agrees-fence, Agrees-catalog, Agrees-group_catalog, Agrees-group,
}

-- Storages that answer alike.
pub record Same (s m : Storage) : Type 0 where
  pub tables : forget s ≡ forget m
  pub heads : (k : PartitionKey) → read_partition_head s k ≡ read_partition_head m k
  pub groups : (k : InstanceKey) → get k s.group_partitions ≡ get k m.group_partitions

pub Same-refl : (s : Storage) → Same s s
Same-refl s = record { tables = refl; heads = λ k. refl; groups = λ k. refl }

pub Same-trans : (s m n : Storage) → Same s m → Same m n → Same s n
Same-trans s m n a b = record {
  tables = a.tables ∙ b.tables;
  heads = λ k. a.heads k ∙ b.heads k;
  groups = λ k. a.groups k ∙ b.groups k;
}

pub Same-sym : (s m : Storage) → Same s m → Same m s
Same-sym s m a = record {
  tables = sym a.tables;
  heads = λ k. sym (a.heads k);
  groups = λ k. sym (a.groups k);
}

-- A new batch stands for what is stored.
pub Tracks-empty : (s m : Storage) → Same s m → Tracks s empty_batch m
unfolding get write_all
Tracks-empty s m h = record {
  written = record { same = h.tables; positions = refl; groups = h.groups };
  versions = λ k. ap (λ z. get k z.metas) h.tables;
  heads = h.heads;
  states = λ k. ap (λ z. get k z.states) h.tables;
  identities = λ k. ap (λ z. get k z.idempotency) h.tables;
  fences = λ k. ap (λ z. read_fence z k) h.tables;
  catalog = ap read_catalog h.tables;
  group_catalog = ap read_group_catalog h.tables;
  groups = h.groups;
}

-- The writes of positions.
position_writes :
    (l : BTreeMap PartitionKey ℕ) (s : Storage)
    → (forget (write_all (position_ops l) s) ≡ forget s)
      × ((write_all (position_ops l) s).group_partitions ≡ s.group_partitions)
      × ((k : PartitionKey)
          → read_partition_head (write_all (position_ops l) s) k
            ≡ cached (get k l) (read_partition_head s k))
unfolding position_ops write_all write get
position_writes [] s = (refl, refl, λ k. refl)
position_writes ((j, n) ∷ l) s =
    let (same, groups, heads) = position_writes l s in
    let e : write_all (position_ops l ++ put_next_position j n ∷ []) s
        ≡ write (put_next_position j n) (write_all (position_ops l) s) =
      write_all-append (position_ops l) (put_next_position j n ∷ []) s in
    (
      ap forget e ∙ same,
      ap (λ z. z.group_partitions) e ∙ groups,
      λ k.
          ap (λ z. read_partition_head z k) e
          ∙ ground (arith, get-insert k j n (write_all (position_ops l) s).next_positions, heads k),
    )

-- What the transaction of a batch stores answers like the storage that the batch stands for.
pub Same-transaction :
    (s : Storage) (b : ApplyBatch) (m : Storage)
    → Tracks s b m
    → Same (write_all (transaction b) s) m
unfolding transaction
Same-transaction s b m t =
    let l = b.aggregate_partition_positions in
    let before = write_all b.ops s in
    let e : write_all (b.ops ++ position_ops l) s ≡ write_all (position_ops l) before =
      write_all-append b.ops (position_ops l) s in
    let (same, groups, heads) = position_writes l before in
    record {
      tables = ap forget e ∙ same ∙ t.written.same;
      heads = λ k.
          ap (λ z. read_partition_head z k) e
          ∙ heads k
          ∙ ap (λ z. cached (get k l) (unwrap_or 0 (get k z))) t.written.positions
          ∙ t.heads k;
      groups = λ k. ap (λ z. get k z.group_partitions) e ∙ ap (get k) groups ∙ t.written.groups k;
    }

Agrees-request :
    (x : Xxh3) (request : EsRequest) (s : Storage) (b : ApplyBatch) (m : Storage)
    → (read_group_catalog m).revision < u64_max
    → Tracks s b m
    → Agrees s (apply_request x s request b) (step x request m)
unfolding apply_request step
Agrees-request x (aggregate_append r) s b m h t = Agrees-append x s r b m t
Agrees-request x (put_aggregate_state r) s b m h t = Agrees-put s r b m t
Agrees-request x (install_partition_fence u p g) s b m h t = Agrees-fence s b m t u p g
Agrees-request x (commit_catalog command) s b m h t = Agrees-catalog s b m t x command
Agrees-request x (commit_group_catalog command) s b m h t = Agrees-group_catalog s b m t command h
Agrees-request x (group_partition r) s b m h t = Agrees-group s b m t r

group_catalog-append :
    (x : Xxh3) (r : AppendRequest) (m : Storage)
    → (Reference.append x r m).0.group_catalog ≡ m.group_catalog
unfolding Reference.append Reference.append_validated Reference.append_versioned Reference.append_at
    write write_all
group_catalog-append x r m = ground arith

group_catalog-put :
    (r : PutStateRequest) (m : Storage) → (Reference.put r m).0.group_catalog ≡ m.group_catalog
unfolding Reference.put Reference.put_fenced Reference.put_compared write
group_catalog-put r m = ground arith

group_catalog-group :
    (r : GroupPartitionRequest) (m : Storage)
    → (Reference.run_group r m).0.group_catalog ≡ m.group_catalog
unfolding Reference.run_group Reference.run_fenced write
group_catalog-group r m = ground arith

-- The revision of the group catalog grows by one at most.
revision-step :
    (x : Xxh3) (request : EsRequest) (m : Storage)
    → (read_group_catalog (step x request m).0).revision ≤ (read_group_catalog m).revision + 1
unfolding step
revision-step x (aggregate_append r) m =
    omega (arith, ap (λ z. (unwrap_or no_groups z).revision) (group_catalog-append x r m))
revision-step x (put_aggregate_state r) m =
    omega (arith, ap (λ z. (unwrap_or no_groups z).revision) (group_catalog-put r m))
revision-step x (install_partition_fence u p g) m =
    unfold Reference.install_fence write in ground arith
revision-step x (commit_catalog command) m = unfold Reference.run_catalog write in ground arith
revision-step x (commit_group_catalog command) m =
    unfold Reference.run_group_catalog write GroupCatalog.apply in
    ground (arith, revision-run command (read_group_catalog m))
revision-step x (group_partition r) m =
    omega (arith, ap (λ z. (unwrap_or no_groups z).revision) (group_catalog-group r m))

pub revision-run_payload :
    {Membership : Type 0} (x : Xxh3) (p : EntryPayload Membership) (m : Storage)
    → (read_group_catalog (run_payload x p m).0).revision ≤ (read_group_catalog m).revision + 1
unfolding run_payload
revision-run_payload x blank m = omega arith
revision-run_payload x (normal request) m = revision-step x request m
revision-run_payload x (membership mem) m = omega arith

module _ {LogId Membership Stored : Type 0} (stored_membership : Option LogId → Membership → Stored)
    (x : Xxh3) (s : Storage) where
  Tracks-apply_entry :
      (entry : Entry LogId Membership) (r : ApplyRun LogId Stored) (m : Storage)
      → (read_group_catalog m).revision < u64_max
      → Tracks s r.batch m
      → Tracks s (apply_entry stored_membership x s entry r).batch (run_payload x entry.payload m).0
        × ((apply_entry stored_membership x s entry r).responses
            ≡ r.responses ++ (run_payload x entry.payload m).1 ∷ [])
  unfolding apply_entry run_payload
  Tracks-apply_entry entry r m h t = by_payload entry.payload
    where
      by_payload :
          (p : EntryPayload Membership)
          → Tracks s
              (apply_entry stored_membership x s (record entry { payload = p }) r).batch
              (run_payload x p m).0
            × ((apply_entry stored_membership x s (record entry { payload = p }) r).responses
                ≡ r.responses ++ (run_payload x p m).1 ∷ [])
      by_payload blank = (t, refl)
      by_payload (normal request) =
          let (answer, t') = Agrees-request x request s r.batch m h t in
          (t', ap (λ a. r.responses ++ a ∷ []) answer)
      by_payload (membership mem) = (t, refl)

  pub Tracks-apply_entries :
      (entries : List (Entry LogId Membership)) (r : ApplyRun LogId Stored) (m : Storage)
      → (read_group_catalog m).revision + length entries ≤ u64_max
      → Tracks s r.batch m
      → Tracks s (apply_entries stored_membership x s entries r).batch (run_entries x entries m).0
        × ((apply_entries stored_membership x s entries r).responses
            ≡ r.responses ++ (run_entries x entries m).1)
  unfolding apply_entries run_entries
  Tracks-apply_entries [] r m h t = (t, sym (append-nil r.responses))
  Tracks-apply_entries (entry ∷ entries) r m h t =
      let m' = (run_payload x entry.payload m).0 in
      let r' = apply_entry stored_membership x s entry r in
      let (t', answer) = Tracks-apply_entry entry r m (omega arith) t in
      let (t'', answers) =
        Tracks-apply_entries entries r' m' (omega (arith, revision-run_payload x entry.payload m))
          t' in
      (
        t'',
        answers
            ∙ ap (λ l. l ++ (run_entries x entries m').1) answer
            ∙ append_assoc r.responses ((run_payload x entry.payload m).1 ∷ []) _,
      )
