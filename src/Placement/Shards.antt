-- ===== src/Placement/Shards.antt =====
-- es-server/src/config.rs: the shards of a node and the members of a shard.
use eventfs.Prelude.{
  ℕ, ◌+◌, ◌%◌, ◌^◌, max, Bool, ◌||◌, List, [], ◌∷◌, ◌++◌, nat_ord, list_ord, leb, length, ◌==◌,
  if◌then◌else◌,
}
use eventfs.Placement.{PlacementNode, Config, contains}

-- `sort_unstable` and `dedup`
unfoldable pub insert_sorted : ℕ → List ℕ → List ℕ
insert_sorted x [] = x ∷ []
insert_sorted x (y ∷ ys) = let rest = insert_sorted x ys in if leb x y then x ∷ y ∷ ys else y ∷ rest

unfoldable pub sort : List ℕ → List ℕ
unfolding insert_sorted
sort [] = []
sort (x ∷ xs) = insert_sorted x (sort xs)

unfoldable pub dedup : List ℕ → List ℕ
dedup [] = []
dedup (x ∷ []) = x ∷ []
dedup (x ∷ y ∷ ys) = let rest = dedup (y ∷ ys) in if x == y then rest else x ∷ rest

abbrev pub shards_of : PlacementNode → List ℕ
shards_of n = n.primary ++ n.replica

unfoldable pub shards_at : ℕ → List PlacementNode → List ℕ
shards_at id [] = []
shards_at id (n ∷ nodes) = let rest = shards_at id nodes in if n.id == id then shards_of n else rest

unfoldable pub local_shards : Config → List ℕ
unfolding shards_at sort dedup
local_shards c = dedup (sort (shards_at c.node.id c.placement.nodes))

abbrev pub carries : ℕ → PlacementNode → Bool
carries s n = contains s n.primary || contains s n.replica

unfoldable pub members_of : ℕ → List PlacementNode → List ℕ
unfolding contains
members_of s [] = []
members_of s (n ∷ nodes) =
    let rest = members_of s nodes in if carries s n then n.id ∷ rest else rest

unfoldable pub shard_members : Config → ℕ → List ℕ
unfolding members_of sort
shard_members c s = sort (members_of s c.placement.nodes)

abbrev pub all_shards : List PlacementNode → List ℕ
all_shards [] = []
all_shards (n ∷ nodes) = shards_of n ++ all_shards nodes

abbrev pub greatest : List ℕ → ℕ
greatest [] = 0
greatest (x ∷ xs) = max x (greatest xs)

-- `max().map_or(0, |m| m + 1)`
unfoldable pub shard_count : Config → ℕ
shard_count c =
    let shards = all_shards c.placement.nodes in
    if length shards == 0 then 0 else (greatest shards + 1) % 2 ^ 64
