-- ===== src/Key.antt =====
-- es-storage/src/key.rs: the byte keys of the storage engine.
pub mod Laws
pub mod Scan
pub mod Log
pub mod Kinds
use eventfs.Prelude.{
  ℕ, zero, suc, ◌+◌, ◌-◌, Bool, true, false, not, ◌&&◌, ◌||◌, Option, none, some, List, [], ◌∷◌,
  ◌++◌, Text, ◌==◌, nat_ord, list_ord, leb, length, if◌then◌else◌,
}
use eventfs.Bytes.{Bytes, to_be_bytes, from_be_bytes, len_prefixed}
use eventfs.Identifier.{AggregateTypeId, canonical_name}
use eventfs.Group.{Uuid}

abbrev pub tag_raft : ℕ
tag_raft = 0x01

abbrev pub tag_sm : ℕ
tag_sm = 0x02

abbrev pub tag_snapshot : ℕ
tag_snapshot = 0x03

-- One constructor for each family of the state machine, with its sub-tag.
pub data Family : Type 0 where
  applied_state event meta partition_index next_position state idempotency partition_fence catalog
        group_catalog group_partition state_modified :
      Family

abbrev pub sub_tag : Family → ℕ
sub_tag applied_state = 0x04
sub_tag event = 0x0A
sub_tag meta = 0x0B
sub_tag partition_index = 0x0C
sub_tag next_position = 0x0D
sub_tag state = 0x0E
sub_tag idempotency = 0x0F
sub_tag partition_fence = 0x10
sub_tag catalog = 0x11
sub_tag group_catalog = 0x12
sub_tag group_partition = 0x13
sub_tag state_modified = 0x14

unfoldable pub sub_prefix : ℕ → ℕ → ℕ → Bytes
sub_prefix tag shard_id sub = tag ∷ (to_be_bytes 8 shard_id ++ sub ∷ [])

unfoldable pub sm_sub_prefix : ℕ → Family → Bytes
unfolding sub_prefix
sm_sub_prefix shard_id f = sub_prefix tag_sm shard_id (sub_tag f)

unfoldable pub raft_log_prefix : ℕ → Bytes
unfolding sub_prefix
raft_log_prefix shard_id = sub_prefix tag_raft shard_id 0x01

unfoldable pub raft_log_entry : ℕ → ℕ → Bytes
unfolding raft_log_prefix
raft_log_entry shard_id index = raft_log_prefix shard_id ++ to_be_bytes 8 index

unfoldable pub raft_vote : ℕ → Bytes
unfolding sub_prefix
raft_vote shard_id = sub_prefix tag_raft shard_id 0x02

unfoldable pub raft_last_purged : ℕ → Bytes
unfolding sub_prefix
raft_last_purged shard_id = sub_prefix tag_raft shard_id 0x03

unfoldable pub raft_committed : ℕ → Bytes
unfolding sub_prefix
raft_committed shard_id = sub_prefix tag_raft shard_id 0x04

unfoldable pub snapshot_current : ℕ → Bytes
unfolding sub_prefix
snapshot_current shard_id = sub_prefix tag_snapshot shard_id 0x01

unfoldable pub partition_prefix : ℕ → Family → AggregateTypeId → ℕ → Bytes
unfolding sm_sub_prefix
partition_prefix shard_id f t partition_id =
    sm_sub_prefix shard_id f ++ (len_prefixed (canonical_name t) ++ to_be_bytes 2 partition_id)

unfoldable pub instance_prefix : ℕ → Family → AggregateTypeId → ℕ → Text → Bytes
unfolding partition_prefix
instance_prefix shard_id f t partition_id aggregate_id =
    partition_prefix shard_id f t partition_id ++ len_prefixed aggregate_id

-- The keys of the state machine, by what they are the key of.
pub data SmKey : Type 0 where
  applied_state_key catalog_key group_catalog_key : SmKey
  event_key : AggregateTypeId → ℕ → Text → ℕ → SmKey
  meta_key : AggregateTypeId → ℕ → Text → SmKey
  partition_index_key : AggregateTypeId → ℕ → ℕ → SmKey
  next_position_key partition_fence_key : AggregateTypeId → ℕ → SmKey
  state_key state_modified_key : AggregateTypeId → ℕ → Text → SmKey
  idempotency_key : AggregateTypeId → ℕ → Uuid → SmKey
  group_partition_key : AggregateTypeId → ℕ → Text → SmKey

unfoldable pub family : SmKey → Family
family applied_state_key = applied_state
family catalog_key = catalog
family group_catalog_key = group_catalog
family (event_key t p a v) = event
family (meta_key t p a) = meta
family (partition_index_key t p n) = partition_index
family (next_position_key t p) = next_position
family (partition_fence_key t p) = partition_fence
family (state_key t p a) = state
family (state_modified_key t p a) = state_modified
family (idempotency_key t p e) = idempotency
family (group_partition_key t p g) = group_partition

-- The functions `sm_…` of the source.
unfoldable pub encode : ℕ → SmKey → Bytes
unfolding sm_sub_prefix partition_prefix instance_prefix
encode s applied_state_key = sm_sub_prefix s applied_state
encode s catalog_key = sm_sub_prefix s catalog
encode s group_catalog_key = sm_sub_prefix s group_catalog
encode s (event_key t p a v) = instance_prefix s event t p a ++ to_be_bytes 8 v
encode s (meta_key t p a) = instance_prefix s meta t p a
encode s (partition_index_key t p n) = partition_prefix s partition_index t p ++ to_be_bytes 8 n
encode s (next_position_key t p) = partition_prefix s next_position t p
encode s (partition_fence_key t p) = partition_prefix s partition_fence t p
encode s (state_key t p a) = partition_prefix s state t p ++ a
encode s (state_modified_key t p a) = partition_prefix s state_modified t p ++ a
encode s (idempotency_key t p e) = partition_prefix s idempotency t p ++ to_be_bytes 16 e
encode s (group_partition_key t p g) = partition_prefix s group_partition t p ++ len_prefixed g

-- `successor`: the last byte that is not 0xFF grows by one, and what follows it is dropped.
unfoldable pub successor : Bytes → Option Bytes
successor [] = none
successor (b ∷ bs) = elim (successor bs) [
  | some s ↦ some (b ∷ s)
  | none ↦ if b == 0xFF then none else some ((b + 1) ∷ [])
]

unfoldable pub upper_including : Bytes → Bytes
upper_including k = k ++ 0 ∷ []

unfoldable pub raft_log_upper : ℕ → Option Bytes
unfolding successor raft_log_prefix
raft_log_upper shard_id = successor (raft_log_prefix shard_id)

-- `key[from..from + n] == part`, `false` where the key is shorter
unfoldable pub slice_is : Bytes → Bytes → Bool
slice_is [] key = true
slice_is (b ∷ bs) [] = false
slice_is (b ∷ bs) (c ∷ key) = b == c && slice_is bs key

unfoldable pub is_aggregate_event_key : ℕ → Bytes → Bool
unfolding slice_is
is_aggregate_event_key shard_id key =
    leb 10 (length key) && slice_is (tag_sm ∷ (to_be_bytes 8 shard_id ++ sub_tag event ∷ [])) key

unfoldable pub skip : ℕ → Bytes → Bytes
skip zero key = key
skip (suc n) [] = []
skip (suc n) (b ∷ key) = skip n key

unfoldable pub decode_u64_be : Bytes → Option ℕ
decode_u64_be b = if not (length b == 8) then none else some (from_be_bytes 0 b)

unfoldable pub decode_log_index : Bytes → Option ℕ
unfolding skip decode_u64_be
decode_log_index key = if not (length key == 10 + 8) then none else decode_u64_be (skip 10 key)
