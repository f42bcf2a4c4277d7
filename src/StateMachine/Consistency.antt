-- ===== src/StateMachine/Consistency.antt =====
-- The event tables of a shard: events, versions, positions and the index of a partition.
pub mod Append
pub mod Steps
pub mod History
use eventfs.Prelude.{
  ℕ, zero, suc, ◌+◌, ◌≤◌, ◌<◌, ◌≡◌, ◌≢◌, refl, sym, ap, ◌∙◌, Option, none, some, List, [], ◌∷◌,
  ◌++◌, Text, ◌==◌, eq_iff, eq_refl, nat_ord, list_ord, pair_ord, Bool, true, false, not,
  if◌then◌else◌, Bool-cases, Option-cases, inl, inr, ok, err, arith,
}
use eventfs.Prelude.Words.{u64_max, checked_suc64}
use eventfs.BTreeMap.{get, insert}
use eventfs.BTreeMap.Laws.{get-insert}
use eventfs.Identifier.{AggregateTypeId, type_id_ord}
use eventfs.Catalog.{Xxh3}
use eventfs.StateMachine.{
  AggregateEvent, PartitionKey, InstanceKey, NumberKey, EventKey, Storage, put_next_position, write,
  write_all, AppendRequest,
}
use eventfs.StateMachine.Batch.{unwrap_or, read_partition_head}
use eventfs.StateMachine.Append.{
  partition_of, instance_of, identity_of, stored_event, next_version, event_ops,
}
use eventfs.StateMachine.Reference

-- The key of a position.
abbrev pub at_position : PartitionKey → ℕ → NumberKey
at_position k n = (k.0, (k.1, n))

abbrev pub in_partition : PartitionKey → Text → InstanceKey
in_partition k aggregate_id = (k.0, (k.1, aggregate_id))

-- Every event stands where its fields say, and the index leads to it. A partition has a pointer at
-- each position below its head and none above, and every pointer leads to the event of its position.
-- An instance has exactly the events up to its version.
pub record IsConsistent (s : Storage) : Type 0 where
  pub placed :
      (k : PartitionKey) (a : Text) (v : ℕ) (e : AggregateEvent)
      → get (in_partition k a, v) s.events ≡ some e
      → (e.aggregate_type ≡ k.0)
        × (e.partition_id ≡ k.1)
        × (e.aggregate_id ≡ a)
        × (e.aggregate_version ≡ v)
        × (get (at_position k e.partition_position) s.partition_index ≡ some (a, v))
  pub pointed :
      (k : PartitionKey) (n : ℕ) (a : Text) (v : ℕ)
      → get (at_position k n) s.partition_index ≡ some (a, v)
      → (n < read_partition_head s k)
        × ((e : AggregateEvent) × (get (in_partition k a, v) s.events ≡ some e)
            × (e.partition_position ≡ n))
  pub full :
      (k : PartitionKey) (n : ℕ)
      → n < read_partition_head s k
      → (pointer : Text × ℕ) × (get (at_position k n) s.partition_index ≡ some pointer)
  pub bounded :
      (k : InstanceKey) (v : ℕ) (e : AggregateEvent)
      → get (k, v) s.events ≡ some e
      → (current : ℕ) × (get k s.metas ≡ some current) × (v ≤ current)
  pub versioned :
      (k : InstanceKey) (current v : ℕ)
      → get k s.metas ≡ some current
      → v ≤ current
      → (e : AggregateEvent) × (get (k, v) s.events ≡ some e)
