-- ===== src/Placement/Members.antt =====
-- The members of a shard and the shards of a node, in an accepted configuration.
use eventfs.Prelude.{
  ℕ, ◌^◌, ◌<◌, ◌≡◌, ◌≢◌, refl, sym, ◌∙◌, Bool, true, false, not, Option, List, [], ◌∷◌, ◌++◌, Text,
  nat_ord, length, ◌==◌, eq_iff, if◌then◌else◌, ok, err, ◌>>=◌, Result-value, Bool-cases,
  Option-cases, inl, inr, arith,
}
use eventfs.Bytes.{Bytes}
use eventfs.BTreeMap.{BTreeMap, get, any_value}
use eventfs.BTreeMap.Laws.{any_value-false}
use eventfs.Placement.{
  PlacementNode, Config, Seen, Checked, contains, check_nodes, check_placement, nothing_seen,
}
use eventfs.Placement.Validate.{validate}
use eventfs.Placement.Shards.{sort, shards_at, local_shards, carries, members_of, shard_members}
use eventfs.Placement.Sorting.{
  contains-sort, contains-dedup, length-sort, contains-append, IsDistinct, IsDistinct-sort,
  IsDistinct-append, occurrences, occurrences-append, occurrences-IsDistinct,
}
use eventfs.Placement.Checks.{ids, held, carried, all_primary, AreApart, check_nodes_lem}

-- No node lists a replica twice.
abbrev pub AreReplicasDistinct : List PlacementNode → Type 0
AreReplicasDistinct [] = Unit
AreReplicasDistinct (n ∷ nodes) = IsDistinct n.replica × AreReplicasDistinct nodes

check_placement_lem :
    (c : Config)
    → check_placement c ≡ ok tt
    → (out : Seen) × (check_nodes c.node nothing_seen c.placement.nodes ≡ ok out)
      × (any_value (λ count. not (count == c.placement.replication_factor)) out.holders ≡ false)
unfolding check_placement
check_placement_lem c h = elim (Bool-cases (length c.placement.nodes == 0)) [
  | inl empty ↦ absurd (ground (arith, h, empty))
  | inr some_nodes ↦ elim (Bool-cases (c.placement.replication_factor == 0)) [
    | inl zero_copies ↦ absurd (ground (arith, h, some_nodes, zero_copies))
    | inr copies ↦ elim (Result-value (check_nodes c.node nothing_seen c.placement.nodes)) [
      | inl (e, refused) ↦ absurd (ground (arith, h, some_nodes, copies, refused))
      | inr (out, checked) ↦ (out, checked, ground (arith, h, some_nodes, copies, checked))
    ]
  ]
]

-- A node of an accepted placement carries a shard once or not at all.
carried_once :
    (s : ℕ) (n : PlacementNode)
    → IsDistinct n.primary
    → IsDistinct n.replica
    → ((x : ℕ) → contains x n.replica ≡ true → contains x n.primary ≡ false)
    → occurrences s (n.primary ++ n.replica) ≡ (if carries s n then 1 else 0)
carried_once s n dp dr apart = ground (
  arith,
  occurrences-append s n.primary n.replica,
  occurrences-IsDistinct s n.primary dp,
  occurrences-IsDistinct s n.replica dr,
  apart s,
)

carried-members_of :
    (s : ℕ) (nodes : List PlacementNode)
    → IsDistinct (all_primary nodes)
    → AreReplicasDistinct nodes
    → AreApart nodes
    → carried s nodes ≡ length (members_of s nodes)
unfolding members_of
carried-members_of s [] d r a = refl
carried-members_of s (n ∷ nodes) d (dr, r) (apart, a) =
    let (dp, rest) = IsDistinct-append n.primary (all_primary nodes) d in
    ground (arith, carried_once s n dp dr apart, carried-members_of s nodes rest r a)

member_id :
    (s i : ℕ) (nodes : List PlacementNode)
    → contains i (ids nodes) ≡ false
    → contains i (members_of s nodes) ≡ false
unfolding members_of contains
member_id s i [] h = refl
member_id s i (n ∷ nodes) h = ground (arith, h, member_id s i nodes)

members_of-IsDistinct :
    (s : ℕ) (nodes : List PlacementNode) → IsDistinct (ids nodes) → IsDistinct (members_of s nodes)
unfolding members_of IsDistinct
members_of-IsDistinct s [] d = tt
members_of-IsDistinct s (n ∷ nodes) (fresh, d) = elim (Bool-cases (carries s n)) [
  | inl here ↦ rw (here, IsDistinct) (member_id s n.id nodes fresh, members_of-IsDistinct s nodes d)
  | inr elsewhere ↦ rw elsewhere (members_of-IsDistinct s nodes d)
]

-- A node is a member exactly where the shard is one of its shards.
members_of-shards_at :
    (s i : ℕ) (nodes : List PlacementNode)
    → IsDistinct (ids nodes)
    → contains i (members_of s nodes) ≡ contains s (shards_at i nodes)
unfolding members_of shards_at contains IsDistinct
members_of-shards_at s i [] d = refl
members_of-shards_at s i (n ∷ nodes) (fresh, d) = elim (Bool-cases (n.id == i)) [
  | inl here ↦ ground (
    arith,
    here,
    eq_iff n.id i,
    member_id s n.id nodes fresh,
    contains-append s n.primary n.replica,
  )
  | inr elsewhere ↦ ground (arith, elsewhere, members_of-shards_at s i nodes d)
]

first_passed :
    (m : Checked (Unit {0})) (k : Unit {0} → Checked (Unit {0})) → (m >>= k) ≡ ok tt → m ≡ ok tt
first_passed (ok u) k h = refl
first_passed (err e) k h = absurd (ground (arith, h))

has_one : (l : List ℕ) → l ≢ [] → 0 < length l
has_one [] h = absurd (h refl)
has_one (x ∷ l) h = omega arith

-- A shard that is held by some node is held by as many as the test wants.
held_count :
    (s wanted n : ℕ) (holders : BTreeMap ℕ ℕ)
    → any_value (λ count. not (count == wanted)) holders ≡ false
    → held s holders ≡ n
    → 0 < n
    → n ≡ wanted
held_count s wanted n holders h e some_holder = elim (Option-cases (get s holders)) [
  | inl absent ↦ absurd (ground (arith, e, some_holder, absent))
  | inr (v, present) ↦
      let right = any_value-false (λ count. not (count == wanted)) holders s v h present in
      ground (arith, e, right, present, eq_iff v wanted)
]

module _ (is_socket_addr is_endpoint : Text → Bool) (read : Text → Option Bytes) (c : Config) where
  placement_checked : validate is_socket_addr is_endpoint read c ≡ ok tt → check_placement c ≡ ok tt
  unfolding validate
  placement_checked h = first_passed (check_placement c) _ h

  -- In a configuration that `validate` accepts, where no node lists a replica twice, every shard that has a
  -- member has as many as the replication factor says, all different; their number is a `u64`.
  pub shard_members-validate :
      (s : ℕ)
      → validate is_socket_addr is_endpoint read c ≡ ok tt
      → AreReplicasDistinct c.placement.nodes
      → shard_members c s ≢ []
      → length (shard_members c s) < 2 ^ 64
      → (length (shard_members c s) ≡ c.placement.replication_factor)
        × IsDistinct (shard_members c s)
  unfolding shard_members get
  shard_members-validate s h r some_member fits =
      let (out, checked, counts) = check_placement_lem c (placement_checked h) in
      let p = check_nodes_lem c.node nothing_seen out c.placement.nodes checked in
      let members = members_of s c.placement.nodes in
      let size = length-sort members in
      let once = carried-members_of s c.placement.nodes p.distinct_primary r p.apart in
      let count = p.counted s (omega (arith, fits, size, once)) in
      (
        held_count s c.placement.replication_factor (length (sort members)) out.holders counts
            (count ∙ omega (arith, once, size)) (has_one (sort members) some_member),
        IsDistinct-sort members (members_of-IsDistinct s c.placement.nodes p.distinct_ids),
      )

  -- In a configuration that `validate` accepts, the node is a member of a shard exactly when the shard is one
  -- of its local shards.
  pub local_shards-shard_members :
      (s : ℕ)
      → validate is_socket_addr is_endpoint read c ≡ ok tt
      → contains c.node.id (shard_members c s) ≡ contains s (local_shards c)
  unfolding shard_members local_shards
  local_shards-shard_members s h =
      let (out, checked, counts) = check_placement_lem c (placement_checked h) in
      let p = check_nodes_lem c.node nothing_seen out c.placement.nodes checked in
      let shards = shards_at c.node.id c.placement.nodes in
      contains-sort c.node.id (members_of s c.placement.nodes)
      ∙ members_of-shards_at s c.node.id c.placement.nodes p.distinct_ids
      ∙ sym (contains-dedup s (sort shards) ∙ contains-sort s shards)
