-- ===== src/Tests/Placements.antt =====
-- A cluster of three nodes with two copies of each shard.
use eventfs.Prelude.{
  ℕ, ◌≡◌, ◌≢◌, refl, Bool, true, Option, none, some, List, [], ◌∷◌, Text, nat_ord, list_ord, length,
  ok, arith,
}
use eventfs.Prelude.Ordered.{list_cmp}
use eventfs.Bytes.{Bytes}
use eventfs.BTreeMap.{get, insert, any_value}
use eventfs.Placement.{
  PeerConfig, Config, contains, check_placement, check_nodes, check_node, claim_primary,
  check_replica, count_holders,
}
use eventfs.Placement.Validate.{
  validate, starts_with, normalize_endpoint, check_listen_addr, check_peers, check_cluster,
  any_peer,
}
use eventfs.Placement.Shards.{sort, insert_sorted, local_shards, members_of, shard_members}
use eventfs.Placement.Sorting.{IsDistinct}
use eventfs.Placement.Members.{
  AreReplicasDistinct, shard_members-validate, local_shards-shard_members,
}

abbrev peer : ℕ → PeerConfig
peer id = record { id = id; addr = b'p' ∷ []; internal_addr = some (b'i' ∷ []) }

abbrev cluster : Config
cluster = record {
  node = record {
    id = 2;
    listen_addr = b'a' ∷ [];
    internal_listen_addr = some (b'b' ∷ []);
    peers = peer 1 ∷ peer 2 ∷ peer 3 ∷ [];
  };
  placement = record {
    replication_factor = 2;
    nodes =
        record { id = 1; primary = 0 ∷ []; replica = 2 ∷ [] }
        ∷ record { id = 2; primary = 1 ∷ []; replica = 0 ∷ [] }
        ∷ record { id = 3; primary = 2 ∷ []; replica = 1 ∷ [] }
        ∷ [];
  };
  memtable_arena_bytes = 4194304;
  keep = 3;
  max_chunk_size = 3145728;
  max_event_bytes = 1048576;
  tls = none;
}

abbrev every_address : Text → Bool
every_address addr = true

abbrev no_file : Text → Option Bytes
no_file path = none

cluster_accepted : validate every_address every_address no_file cluster ≡ ok tt
unfolding validate check_placement check_nodes check_node claim_primary check_replica count_holders
    contains get insert any_value check_listen_addr check_peers check_cluster any_peer
    normalize_endpoint starts_with list_cmp
cluster_accepted = refl

replicas_distinct : AreReplicasDistinct cluster.placement.nodes
unfolding IsDistinct contains
replicas_distinct = ((refl, tt), ((refl, tt), ((refl, tt), tt)))

abbrev members_of_one : List ℕ
members_of_one = 2 ∷ 3 ∷ []

one_members : shard_members cluster 1 ≡ members_of_one
unfolding shard_members members_of contains sort insert_sorted
one_members = refl

one_has_members : shard_members cluster 1 ≢ []
one_has_members e = ground (arith, e, one_members)

shard_members-validate_example :
    (length (shard_members cluster 1) ≡ 2) × IsDistinct (shard_members cluster 1)
shard_members-validate_example =
    shard_members-validate every_address every_address no_file cluster 1 cluster_accepted
      replicas_distinct one_has_members (ground (arith, one_members))

local_shards-shard_members_example :
    contains 2 (shard_members cluster 1) ≡ contains 1 (local_shards cluster)
local_shards-shard_members_example =
    local_shards-shard_members every_address every_address no_file cluster 1 cluster_accepted
