-- ===== src/StateMachine/Apply.antt =====
-- `apply` of es-storage/src/state_machine.rs: a list of log entries in one transaction. The log
-- identities, the memberships and the stored form of a membership are openraft's.
use eventfs.Prelude.{ℕ, Option, none, some, List, [], ◌∷◌, ◌++◌, nat_ord, list_ord, pair_ord}
use eventfs.BTreeMap.{BTreeMap}
use eventfs.Identifier.{type_id_ord}
use eventfs.Catalog.{Xxh3}
use eventfs.StateMachine.{
  AggregateEvent, PartitionKey, Storage, ApplyOp, put_next_position, write_all, EsRequest,
  aggregate_append, put_aggregate_state, install_partition_fence, commit_catalog,
  commit_group_catalog, group_partition, EsResponse, noop, ApplyBatch, empty_batch,
}
use eventfs.StateMachine.Batch.{unwrap_or}
use eventfs.StateMachine.Append.{apply_aggregate_append}
use eventfs.StateMachine.Commands.{
  apply_put_aggregate_state, apply_partition_fence, apply_catalog_command,
  apply_group_catalog_command, apply_group_partition,
}

unfoldable pub apply_request : Xxh3 → Storage → EsRequest → ApplyBatch → ApplyBatch × EsResponse
apply_request x s (aggregate_append r) = apply_aggregate_append x s r
apply_request x s (put_aggregate_state r) = apply_put_aggregate_state s r
apply_request x s (install_partition_fence t p g) = apply_partition_fence s t p g
apply_request x s (commit_catalog command) = apply_catalog_command s x command
apply_request x s (commit_group_catalog command) = apply_group_catalog_command s command
apply_request x s (group_partition r) = apply_group_partition s r

pub data EntryPayload (Membership : Type 0) : Type 0 where
  blank : EntryPayload Membership
  normal : EsRequest → EntryPayload Membership
  membership : Membership → EntryPayload Membership

pub record Entry (LogId Membership : Type 0) : Type 0 where
  pub log_id : LogId
  pub payload : EntryPayload Membership

pub record AppliedState (LogId Stored : Type 0) : Type 0 where
  pub last_applied : Option LogId
  pub membership : Stored

-- The storage of a shard with its stored applied state, the applied state in memory, and the events
-- that have been broadcast.
pub record Machine (LogId Stored : Type 0) : Type 0 where
  pub storage : Storage
  pub applied : Option (AppliedState LogId Stored)
  pub sm_cache : AppliedState LogId Stored
  pub broadcast : List AggregateEvent

-- The variables of the loop.
pub record ApplyRun (LogId Stored : Type 0) : Type 0 where
  pub batch : ApplyBatch
  pub responses : List EsResponse
  pub last_applied : Option LogId
  pub membership : Option Stored

-- The writes of the positions. A `HashMap` is read in no fixed order, and its keys are distinct.
unfoldable pub position_ops : BTreeMap PartitionKey ℕ → List ApplyOp
position_ops [] = []
position_ops ((k, next_position) ∷ positions) =
    position_ops positions ++ put_next_position k next_position ∷ []

-- The writes of the transaction: those of the batch, then the positions.
unfoldable pub transaction : ApplyBatch → List ApplyOp
transaction b = b.ops ++ position_ops b.aggregate_partition_positions

abbrev pub start_run : {LogId Stored : Type 0} → ApplyRun LogId Stored
start_run = record { batch = empty_batch; responses = []; last_applied = none; membership = none }

-- `Option::or`
abbrev pub or_else {ℓ} : {A : Type ℓ} → Option A → Option A → Option A
or_else none other = other
or_else (some a) other = some a

module _ {LogId Membership Stored : Type 0} (stored_membership : Option LogId → Membership → Stored)
    (x : Xxh3) where
  unfoldable pub apply_entry :
      Storage → Entry LogId Membership → ApplyRun LogId Stored → ApplyRun LogId Stored
  apply_entry s entry r = elim entry.payload [
    | blank ↦ record r { last_applied = some entry.log_id; responses = r.responses ++ noop ∷ [] }
    | normal request ↦
        let (b, response) = apply_request x s request r.batch in
        record r {
          batch = b;
          last_applied = some entry.log_id;
          responses = r.responses ++ response ∷ [];
        }
    | membership mem ↦ record r {
      last_applied = some entry.log_id;
      membership = some (stored_membership (some entry.log_id) mem);
      responses = r.responses ++ noop ∷ [];
    }
  ]

  unfoldable pub apply_entries :
      Storage → List (Entry LogId Membership) → ApplyRun LogId Stored → ApplyRun LogId Stored
  apply_entries s [] r = r
  apply_entries s (entry ∷ entries) r = apply_entries s entries (apply_entry s entry r)

  unfoldable pub apply :
      List (Entry LogId Membership) → Machine LogId Stored → Machine LogId Stored × List EsResponse
  unfolding transaction
  apply entries m =
      let r = apply_entries m.storage entries start_run in
      let state : AppliedState LogId Stored = record {
        last_applied = or_else r.last_applied m.sm_cache.last_applied;
        membership = unwrap_or m.sm_cache.membership r.membership;
      } in
      (
        record {
          storage = write_all (transaction r.batch) m.storage;
          applied = some state;
          sm_cache = state;
          broadcast = m.broadcast ++ r.batch.new_aggregate_events;
        },
        r.responses,
      )
