-- ===== src/RaftLog/Last.antt =====
-- The last entry of the Raft log.
use Prim.Native.Nat.Ordering.{lt}
use eventfs.Prelude.{
  ℕ, ◌<◌, ◌^◌, ◌≡◌, ◌≢◌, refl, sym, ap, ◌∙◌, Bool, ◌⊎◌, Option, none, some, [], ◌∷◌, nat_ord,
  list_ord, if◌then◌else◌, ok, ◌>>=◌, Option-cases, Bool-cases, inl, inr, arith, eq_iff,
}
use eventfs.Prelude.Ordered.{list_cmp, list_cmp_refl}
use eventfs.Bytes.{Bytes}
use eventfs.BTreeMap.{get, retain}
use eventfs.BTreeMap.Laws.{get-retain}
use eventfs.Key.{raft_log_prefix, raft_log_entry, raft_vote}
use eventfs.Snapshot.{Record}
use eventfs.Snapshot.Install.{Tree, is_between}
use eventfs.RaftLog.{LogTypes, Stored, last, decoded, read_last_log_id}
use eventfs.RaftLog.Keys.{entry_order, between_prefix-vote, cmp_flip}
use eventfs.RaftLog.Laws.{log_upper_lem}

-- The keys are in their order, each before all that follow.
abbrev pub IsBelow : Bytes → Tree → Type 0
IsBelow k [] = Unit
IsBelow k ((j, v) ∷ t) = (list_cmp k j ≡ lt) × IsBelow k t

unfoldable pub IsSorted : Tree → Type 0
IsSorted [] = Unit
IsSorted ((k, v) ∷ t) = IsBelow k t × IsSorted t

retain-IsBelow : (k : Bytes) (p : Bytes → Bool) (t : Tree) → IsBelow k t → IsBelow k (retain p t)
unfolding retain
retain-IsBelow k p [] b = tt
retain-IsBelow k p ((j, v) ∷ t) (h, b) = elim (Bool-cases (p j)) [
  | inl keep ↦ rw keep (h, retain-IsBelow k p t b)
  | inr drop ↦ rw drop (retain-IsBelow k p t b)
]

retain-IsSorted : (p : Bytes → Bool) (t : Tree) → IsSorted t → IsSorted (retain p t)
unfolding retain IsSorted
retain-IsSorted p [] s = tt
retain-IsSorted p ((j, v) ∷ t) (b, s) = elim (Bool-cases (p j)) [
  | inl keep ↦ rw (keep, IsSorted) (retain-IsBelow j p t b, retain-IsSorted p t s)
  | inr drop ↦ rw drop (retain-IsSorted p t s)
]

-- A key that is there is not before one that is below all.
get-IsBelow :
    (k j : Bytes) (t : Tree) (v : Bytes) → IsBelow k t → get j t ≡ some v → list_cmp k j ≡ lt
unfolding get
get-IsBelow k j [] v b h = absurd (ground arith)
get-IsBelow k j ((i, w) ∷ t) v (l, b) h = ground (arith, l, get-IsBelow k j t v b, eq_iff j i)

-- The last record of a sorted map is in it, and no key is after its own.
last_lem :
    (t : Tree) (k v : Bytes)
    → IsSorted t
    → last t ≡ some (k, v)
    → (get k t ≡ some v) × ((j w : Bytes) → get j t ≡ some w → list_cmp k j ≢ lt)
unfolding last IsSorted get
last_lem [] k v s h = absurd (ground arith)
last_lem ((i, w) ∷ []) k v s h =
    (ground (arith, h, eq_iff k i), λ j u e b. ground (arith, h, e, b, eq_iff j i, list_cmp_refl i))
last_lem ((i, w) ∷ (j, u) ∷ t) k v (b, s) h =
    let (found, greatest) = last_lem ((j, u) ∷ t) k v s h in
    let above = get-IsBelow i k ((j, u) ∷ t) v b found in
    (later i k w v above ((j, u) ∷ t) found, λ x y e. first i k x w y above e (greatest x y))
  where
    later :
        (i k w v : Bytes)
        → list_cmp i k ≡ lt
        → (m : Tree) → get k m ≡ some v
        → get k ((i, w) ∷ m) ≡ some v
    later i k w v a m f = ground (arith, f, a, eq_iff k i, list_cmp_refl i)

    first :
        (i k x w y : Bytes)
        → list_cmp i k ≡ lt
        → get x ((i, w) ∷ (j, u) ∷ t) ≡ some y
        → (get x ((j, u) ∷ t) ≡ some y → list_cmp k x ≢ lt)
        → list_cmp k x ≢ lt
    first i k x w y a e g = ground (arith, a, e, g, eq_iff x i, cmp_flip i k)

last-none : (t : Tree) → last t ≡ none → t ≡ []
unfolding last
last-none [] h = refl
last-none (e ∷ []) h = absurd (ground arith)
last-none (e ∷ f ∷ t) h = absurd (ne (last-none (f ∷ t) h))
  where
    ne : f ∷ t ≢ []
    ne e = ground arith

module _ {Entry LogId Vote : Type 0} (c : LogTypes Entry LogId Vote) where
  -- A record of the log is an entry, at its index, that is read back.
  pub record IsEntry (k v : Bytes) : Type 0 where
    pub entry : Entry
    pub at_index : k ≡ raft_log_entry c.shard_id (c.index (c.log_id entry))
    pub word : c.index (c.log_id entry) < 2 ^ 64
    pub written : v ≡ c.entry_to_bytes entry
    pub decodes : c.entry_from_bytes v ≡ some entry

  abbrev pub log_records : Tree → Tree
  log_records t = retain (is_between (raft_log_prefix c.shard_id) (raft_vote c.shard_id)) t

  get-log_records :
      (i : ℕ) (t : Tree)
      → get (raft_log_entry c.shard_id i) (log_records t) ≡ get (raft_log_entry c.shard_id i) t
  get-log_records i t =
      get-retain (raft_log_entry c.shard_id i)
        (is_between (raft_log_prefix c.shard_id) (raft_vote c.shard_id)) t
      ∙ ap (λ b. if b then get (raft_log_entry c.shard_id i) t else none)
          (between_prefix-vote c.shard_id i)

  -- The answer to the last record.
  abbrev answer : Option Record → Stored (Option LogId)
  answer none = ok none
  answer (some (k, v)) = decoded (c.entry_from_bytes v) >>= λ entry. ok (some (c.log_id entry))

  answer_lem :
      (r : Option Record)
      → elim r [
        | none ↦ ok none
        | some x ↦ decoded (c.entry_from_bytes x.1) >>= λ entry. ok (some (c.log_id entry))
      ]
        ≡ answer r
  answer_lem none = refl
  answer_lem (some (k, v)) = refl

  read_last : (t : Tree) → read_last_log_id c t ≡ answer (last (log_records t))
  unfolding read_last_log_id
  read_last t = rw (read_last_log_id, log_upper_lem c.shard_id) (answer_lem (last (log_records t)))

  -- Where the engine's keys are in their order and each record of the shard's log is an entry at its index,
  -- `read_last_log_id` answers, without an error, that there is no entry when there is none at any index, and
  -- else with the identity of an entry that is there and that no entry of a greater index follows.
  pub read_last_log_id_lem :
      (t : Tree)
      → IsSorted t
      → ((k v : Bytes) → get k (log_records t) ≡ some v → IsEntry k v)
      → ((read_last_log_id c t ≡ ok none) × ((i : ℕ) → get (raft_log_entry c.shard_id i) t ≡ none))
        ⊎ ((e : Entry) × (read_last_log_id c t ≡ ok (some (c.log_id e)))
            × (get (raft_log_entry c.shard_id (c.index (c.log_id e))) t ≡ some (c.entry_to_bytes e))
            × ((i : ℕ)
                → i < 2 ^ 64
                → c.index (c.log_id e) < i
                → get (raft_log_entry c.shard_id i) t ≡ none))
  unfolding get
  read_last_log_id_lem t sorted entries = elim (Option-cases (last (log_records t))) [
    | inl none_left ↦ inl (
      read_last t ∙ ap answer none_left,
      λ i.
          sym (get-log_records i t)
          ∙ ap (get (raft_log_entry c.shard_id i)) (last-none (log_records t) none_left),
    )
    | inr ((k, v), found) ↦
        let (there, greatest) =
          last_lem (log_records t) k v
            (retain-IsSorted (is_between (raft_log_prefix c.shard_id) (raft_vote c.shard_id)) t
              sorted)
            found in
        let r = entries k v there in
        let j = c.index (c.log_id r.entry) in
        inr (
          r.entry,
          read_last t ∙ ap answer found ∙ rw r.decodes refl,
          sym (get-log_records j t)
              ∙ ap (λ z. get z (log_records t)) (sym r.at_index)
              ∙ there
              ∙ ap some r.written,
          λ i hi above. elim (Option-cases (get (raft_log_entry c.shard_id i) t)) [
            | inl absent ↦ absent
            | inr (w, present) ↦ absurd (
                greatest (raft_log_entry c.shard_id i) w (get-log_records i t ∙ present) (
                  ap (λ z. list_cmp z (raft_log_entry c.shard_id i)) r.at_index
                  ∙ entry_order c.shard_id j i r.word hi
                  ∙ ground (arith, above)))
          ],
        )
  ]
