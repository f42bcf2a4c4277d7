-- ===== src/Placement.antt =====
-- es-server/src/config.rs: the configuration of a node, its checks, and the placement of the shards. The texts of
-- errors stand as constructors, and the maps of the checks, which are read by their keys, are maps in
-- the order of the keys.
pub mod Validate
pub mod Shards
pub mod Sorting
pub mod Checks
pub mod Members
use eventfs.Prelude.{
  ℕ, zero, suc, ◌+◌, ◌*◌, ◌%◌, ◌^◌, max, Bool, true, false, not, ◌&&◌, ◌||◌, Option, none, some,
  List, [], ◌∷◌, ◌++◌, map, Text, nat_ord, list_ord, ltb, leb, length, is_some, is_none, unwrap_or,
  ◌==◌, if◌then◌else◌, Result, ok, err, ◌>>=◌, ◌>>◌,
}
use eventfs.Bytes.{Bytes}
use eventfs.BTreeMap.{BTreeMap, BTreeSet, get, insert, contains_key, any_value}

pub record PlacementNode : Type 0 where
  pub id : ℕ
  pub primary : List ℕ
  pub replica : List ℕ

pub record PlacementConfig : Type 0 where
  pub replication_factor : ℕ
  pub nodes : List PlacementNode

pub record PeerConfig : Type 0 where
  pub id : ℕ
  pub addr : Text
  pub internal_addr : Option Text

pub record NodeConfig : Type 0 where
  pub id : ℕ
  pub listen_addr : Text
  pub internal_listen_addr : Option Text
  pub peers : List PeerConfig

-- Paths are texts.
pub record TlsConfig : Type 0 where
  pub cert_file : Option Text
  pub key_file : Option Text
  pub ca_file : Option Text

-- The sections of a configuration, but for what no check reads.
pub record Config : Type 0 where
  pub node : NodeConfig
  pub placement : PlacementConfig
  pub memtable_arena_bytes : ℕ
  pub keep : ℕ
  pub max_chunk_size : ℕ
  pub max_event_bytes : ℕ
  pub tls : Option TlsConfig

pub data ConfigError : Type 0 where
  no_nodes no_replication duplicate_node unknown_node primary_twice primary_and_replica bad_holders
        bad_arena no_snapshots bad_event_limit bad_chunk_size bad_internal_listen_addr
        same_listen_addr bad_internal_addr no_internal_listen_addr no_internal_addr unpaired_tls
        unreadable_tls empty_tls :
      ConfigError

abbrev pub Checked {ℓ} : Type ℓ → Type ℓ
Checked A = Result ConfigError A

-- `Vec::contains`
unfoldable pub contains : ℕ → List ℕ → Bool
contains s [] = false
contains s (x ∷ xs) = x == s || contains s xs

abbrev pub check : Bool → ConfigError → Checked (Unit {0})
check failed e = if failed then err e else ok tt

-- What the loop over the nodes has seen.
pub record Seen : Type 0 where
  pub node_ids : BTreeSet ℕ
  pub primary_owner : BTreeMap ℕ ℕ
  pub holders : BTreeMap ℕ ℕ

unfoldable pub claim_primary : ℕ → List ℕ → BTreeMap ℕ ℕ → Checked (BTreeMap ℕ ℕ)
claim_primary id [] owner = ok owner
claim_primary id (s ∷ shards) owner =
    let rest = claim_primary id shards (insert s id owner) in
    if is_some (get s owner) then err primary_twice else rest

unfoldable pub check_replica : List ℕ → List ℕ → Checked (Unit {0})
unfolding contains
check_replica primary [] = ok tt
check_replica primary (s ∷ shards) =
    let rest = check_replica primary shards in
    if contains s primary then err primary_and_replica else rest

-- `*holders.entry(s).or_insert(0) += 1` for each shard
unfoldable pub count_holders : List ℕ → BTreeMap ℕ ℕ → BTreeMap ℕ ℕ
count_holders [] holders = holders
count_holders (s ∷ shards) holders =
    count_holders shards (insert s ((unwrap_or (get s holders) 0 + 1) % 2 ^ 64) holders)

abbrev pub peer_ids : NodeConfig → List ℕ
peer_ids node = map (λ p. p.id) node.peers

unfoldable pub check_node : NodeConfig → Seen → PlacementNode → Checked Seen
unfolding contains claim_primary check_replica count_holders
check_node node seen n = do
  check (contains_key n.id seen.node_ids) duplicate_node
  check (not (n.id == node.id) && not (contains n.id (peer_ids node))) unknown_node
  owner ← claim_primary n.id n.primary seen.primary_owner
  check_replica n.primary n.replica
  ok (record {
    node_ids = insert n.id tt seen.node_ids;
    primary_owner = owner;
    holders = count_holders (n.primary ++ n.replica) seen.holders;
  })

unfoldable pub check_nodes : NodeConfig → Seen → List PlacementNode → Checked Seen
unfolding check_node
check_nodes node seen [] = ok seen
check_nodes node seen (n ∷ nodes) = do next ← check_node node seen n; check_nodes node next nodes

abbrev pub nothing_seen : Seen
nothing_seen = record { node_ids = []; primary_owner = []; holders = [] }

-- The checks of `validate` on the placement.
unfoldable pub check_placement : Config → Checked (Unit {0})
unfolding check_nodes
check_placement c = do
  check (length c.placement.nodes == 0) no_nodes
  check (c.placement.replication_factor == 0) no_replication
  seen ← check_nodes c.node nothing_seen c.placement.nodes
  check (any_value (λ count. not (count == c.placement.replication_factor)) seen.holders)
      bad_holders
