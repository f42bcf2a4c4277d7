-- ===== src/Placement/Checks.antt =====
-- What an accepted placement satisfies.
use eventfs.Prelude.{
  ℕ, ◌+◌, ◌%◌, ◌^◌, ◌<◌, ◌≡◌, refl, ap, ◌∙◌, true, false, not, ◌&&◌, ◌||◌, is_some, unwrap_or, List,
  [], ◌∷◌, ◌++◌, nat_ord, ◌==◌, eq_iff, if◌then◌else◌, ok, Result-cases, Result-value, Bool-cases,
  inl, inr, arith,
}
use eventfs.BTreeMap.{BTreeMap, get, insert, contains_key}
use eventfs.BTreeMap.Laws.{get-insert}
use eventfs.Placement.{
  PlacementNode, NodeConfig, Seen, contains, claim_primary, check_replica, count_holders,
  check_node, check_nodes, peer_ids,
}
use eventfs.Placement.Sorting.{IsDistinct, occurrences, contains-append}

abbrev pub ids : List PlacementNode → List ℕ
ids [] = []
ids (n ∷ nodes) = n.id ∷ ids nodes

-- A claim succeeds only on shards that are claimed by none, and claims them.
claim_primary_lem :
    (id : ℕ) (shards : List ℕ) (owner after : BTreeMap ℕ ℕ)
    → claim_primary id shards owner ≡ ok after
    → IsDistinct shards
      × ((s : ℕ) → is_some (get s after) ≡ (contains s shards || is_some (get s owner)))
      × ((s : ℕ) → contains s shards ≡ true → is_some (get s owner) ≡ false)
unfolding claim_primary IsDistinct contains
claim_primary_lem id [] owner after h = (tt, λ s. ground (arith, h), λ s e. ground (arith, e))
claim_primary_lem id (s ∷ shards) owner after h = elim (Bool-cases (is_some (get s owner))) [
  | inl taken ↦ absurd (ground (arith, h, taken))
  | inr free ↦
      let (d, now, before) =
        claim_primary_lem id shards (insert s id owner) after (ground (arith, h, free)) in
      (
        (ground (arith, before s, get-insert s s id owner, eq_iff s s), d),
        λ k. ground (arith, now k, get-insert k s id owner, eq_iff k s, eq_iff s k),
        λ k e. ground (arith, e, free, before k, get-insert k s id owner, eq_iff k s, eq_iff s k),
      )
]

check_replica_lem :
    (primary shards : List ℕ)
    → check_replica primary shards ≡ ok tt
    → (s : ℕ) → contains s shards ≡ true
    → contains s primary ≡ false
unfolding check_replica contains
check_replica_lem primary [] h s e = ground (arith, e)
check_replica_lem primary (x ∷ shards) h s e = elim (Bool-cases (contains x primary)) [
  | inl both ↦ absurd (ground (arith, h, both))
  | inr apart ↦ elim (Bool-cases (x == s)) [
    | inl same ↦ ground (arith, apart, same, eq_iff x s)
    | inr other ↦
        check_replica_lem primary shards (ground (arith, h, apart)) s (ground (arith, e, other))
  ]
]

-- The number of holders that is counted, while it fits a `u64`.
abbrev pub held : ℕ → BTreeMap ℕ ℕ → ℕ
held s holders = unwrap_or (get s holders) 0

count_holders_lem :
    (s : ℕ) (shards : List ℕ) (holders : BTreeMap ℕ ℕ)
    → held s holders + occurrences s shards < 2 ^ 64
    → (held s (count_holders shards holders) ≡ held s holders + occurrences s shards)
unfolding count_holders occurrences
count_holders_lem s [] holders h = omega arith
count_holders_lem s (x ∷ shards) holders h =
    let more = insert x ((held x holders + 1) % 2 ^ 64) holders in
    let now : held s more ≡ held s holders + (if x == s then 1 else 0) =
      ground (
        arith,
        h,
        get-insert s x ((held x holders + 1) % 2 ^ 64) holders,
        eq_iff x s,
        eq_iff s x,
      ) in
    omega (arith, count_holders_lem s shards more (omega (arith, h, now)), now)

-- What was checked of a node, and what has been seen after it.
check_node_lem :
    (node : NodeConfig) (seen next : Seen) (n : PlacementNode)
    → check_node node seen n ≡ ok next
    → (owner : BTreeMap ℕ ℕ) × (contains_key n.id seen.node_ids ≡ false)
      × (claim_primary n.id n.primary seen.primary_owner ≡ ok owner)
      × (check_replica n.primary n.replica ≡ ok tt)
      × (next ≡ record {
        node_ids = insert n.id tt seen.node_ids;
        primary_owner = owner;
        holders = count_holders (n.primary ++ n.replica) seen.holders;
      })
unfolding check_node
check_node_lem node seen next n h = elim (Bool-cases (contains_key n.id seen.node_ids)) [
  | inl twice ↦ absurd (ground (arith, h, twice))
  | inr fresh ↦ elim (Bool-cases (not (n.id == node.id) && not (contains n.id (peer_ids node)))) [
    | inl stranger ↦ absurd (ground (arith, h, fresh, stranger))
    | inr known ↦ elim (Result-value (claim_primary n.id n.primary seen.primary_owner)) [
      | inl (e, refused) ↦ absurd (ground (arith, h, fresh, known, refused))
      | inr (owner, claimed) ↦ elim (Result-cases (check_replica n.primary n.replica)) [
        | inl (e, refused) ↦ absurd (ground (arith, h, fresh, known, claimed, refused))
        | inr apart ↦
            (owner, fresh, claimed, apart, ground (arith, h, fresh, known, claimed, apart))
      ]
    ]
  ]
]

abbrev pub all_primary : List PlacementNode → List ℕ
all_primary [] = []
all_primary (n ∷ nodes) = n.primary ++ all_primary nodes

-- How often the nodes carry a shard.
abbrev pub carried : ℕ → List PlacementNode → ℕ
carried s [] = 0
carried s (n ∷ nodes) = occurrences s (n.primary ++ n.replica) + carried s nodes

-- No shard of a node is both primary and replica.
abbrev pub AreApart : List PlacementNode → Type 0
AreApart [] = Unit
AreApart (n ∷ nodes) =
    ((s : ℕ) → contains s n.replica ≡ true → contains s n.primary ≡ false) × AreApart nodes

pub record IsPlaced (seen out : Seen) (nodes : List PlacementNode) : Type 0 where
  pub distinct_ids : IsDistinct (ids nodes)
  pub new_ids : (i : ℕ) → contains_key i seen.node_ids ≡ true → contains i (ids nodes) ≡ false
  pub distinct_primary : IsDistinct (all_primary nodes)
  pub new_primary :
      (s : ℕ) → contains s (all_primary nodes) ≡ true → is_some (get s seen.primary_owner) ≡ false
  pub apart : AreApart nodes
  pub counted :
      (s : ℕ)
      → held s seen.holders + carried s nodes < 2 ^ 64
      → held s out.holders ≡ held s seen.holders + carried s nodes

append-IsDistinct :
    (a b : List ℕ)
    → IsDistinct a
    → IsDistinct b
    → ((s : ℕ) → contains s b ≡ true → contains s a ≡ false)
    → IsDistinct (a ++ b)
unfolding IsDistinct contains
append-IsDistinct [] b da db apart = db
append-IsDistinct (x ∷ a) b (fresh, da) db apart = (
  ground (arith, fresh, contains-append x a b, apart x, eq_iff x x),
  append-IsDistinct a b da db (λ s e. ground (arith, apart s e)),
)

pub check_nodes_lem :
    (node : NodeConfig) (seen out : Seen) (nodes : List PlacementNode)
    → check_nodes node seen nodes ≡ ok out
    → IsPlaced seen out nodes
unfolding check_nodes IsDistinct contains
check_nodes_lem node seen out [] h = record {
  distinct_ids = tt;
  new_ids = λ i e. refl;
  distinct_primary = tt;
  new_primary = λ s e. ground (arith, e);
  apart = tt;
  counted = λ s e.
      let same : out ≡ seen = ground (arith, h) in omega (arith, ap (λ z. held s z.holders) same);
}
check_nodes_lem node seen out (n ∷ nodes) h = elim (Result-value (check_node node seen n)) [
  | inl (e, refused) ↦ absurd (ground (arith, h, refused))
  | inr (next, checked) ↦
      let (owner, fresh, claimed, apart, became) = check_node_lem node seen next n checked in
      let rest = check_nodes_lem node next out nodes (ground (arith, h, checked)) in
      let (d, now, before) = claim_primary_lem n.id n.primary seen.primary_owner owner claimed in
      let own : next.primary_owner ≡ owner = ap (λ z. z.primary_owner) became in
      let seen_ids : next.node_ids ≡ insert n.id tt seen.node_ids = ap (λ z. z.node_ids) became in
      let counts : next.holders ≡ count_holders (n.primary ++ n.replica) seen.holders =
        ap (λ z. z.holders) became in
      let known : (i : ℕ)
          → is_some (get i next.node_ids)
            ≡ (if i == n.id then true else is_some (get i seen.node_ids)) =
        λ i.
          ap (λ z. is_some (get i z)) seen_ids
          ∙ ground (arith, get-insert i n.id tt seen.node_ids) in
      let claims : (s : ℕ)
          → is_some (get s next.primary_owner)
            ≡ (contains s n.primary || is_some (get s seen.primary_owner)) =
        λ s. ap (λ z. is_some (get s z)) own ∙ now s in
      record {
        distinct_ids =
            (rest.new_ids n.id (known n.id ∙ ground (arith, eq_iff n.id n.id)), rest.distinct_ids);
        new_ids =
            λ i e. ground (arith, e, fresh, known i, rest.new_ids i, eq_iff n.id i, eq_iff i n.id);
        distinct_primary =
            append-IsDistinct n.primary (all_primary nodes) d rest.distinct_primary
              (λ s e. ground (arith, rest.new_primary s e, claims s));
        new_primary = λ s e. ground (
          arith,
          e,
          contains-append s n.primary (all_primary nodes),
          before s,
          rest.new_primary s,
          claims s,
        );
        apart = (check_replica_lem n.primary n.replica apart, rest.apart);
        counted = λ s e.
            let here =
              ap (held s) counts
              ∙ count_holders_lem s (n.primary ++ n.replica) seen.holders (omega (arith, e)) in
            omega (arith, e, here, rest.counted s (omega (arith, e, here)));
      }
]
