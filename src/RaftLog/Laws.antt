-- ===== src/RaftLog/Laws.antt =====
-- The Raft log as a map from indices: what cutting it does.
use eventfs.Prelude.Words.{u64_max}
use Prim.Native.Nat.Ordering.{lt}
use eventfs.Prelude.{
  ℕ, ◌+◌, ◌<◌, ◌^◌, ◌≡◌, ◌≢◌, refl, ap, ◌∙◌, none, some, ◌++◌, nat_ord, list_ord, leb, ltb,
  if◌then◌else◌, ok, Bool-cases, inl, inr, arith, eq_iff,
}
use eventfs.Prelude.Ordered.{list_cmp, list_cmp_refl}
use eventfs.Bytes.{Bytes}
use eventfs.BTreeMap.{get}
use eventfs.BTreeMap.Laws.{get-insert}
use eventfs.Key.{raft_log_prefix, raft_log_entry, raft_vote, raft_last_purged}
use eventfs.Key.Log.{raft_log_upper-raft_vote}
use eventfs.Key.Scan.{AllBytes}
use eventfs.Snapshot.Install.{Tree, is_before, is_between, remove_all}
use eventfs.Snapshot.Install.Laws.{get-cleared}
use eventfs.RaftLog.{
  LogTypes, log_upper, collect_keys, delete_batch, truncate, mark_purged, purge_end, purge,
  read_last_purged,
}
use eventfs.RaftLog.Keys.{
  between_entry-vote, between_prefix-entry, between_prefix-vote, between-is_before, between_outside,
  between-raft_last_purged, entry_not_before, entry_from_prefix,
}

-- The keys of a range are gone, and the others stay.
get-delete_batch :
    (k low high : Bytes) (t : Tree)
    → get k (delete_batch (collect_keys low high t) t)
      ≡ (if is_between low high k then none else get k t)
unfolding collect_keys
get-delete_batch k low high t = elim (Bool-cases (is_before low high)) [
  | inl before ↦ rw before (get-cleared k (is_between low high) t)
  | inr after ↦ elim (Bool-cases (is_between low high k)) [
    | inl inside ↦ absurd (ground (arith, after, between-is_before low high k inside))
    | inr outside ↦ rw (after, outside) (unfold remove_all in refl)
  ]
]

pub log_upper_lem : (s : ℕ) → log_upper s ≡ ok (raft_vote s)
log_upper_lem s = rw (raft_log_upper-raft_vote s, log_upper) refl

vote_at_vote : (s : ℕ) → list_cmp (raft_vote s) (raft_vote s) ≢ lt
vote_at_vote s e = ground (arith, e, list_cmp_refl (raft_vote s))

entry_marker : (s i : ℕ) → raft_log_entry s i ≢ raft_last_purged s
entry_marker s i e =
    let inside = between_prefix-vote s i in
    let outside = between-raft_last_purged s (raft_log_prefix s) (raft_vote s) (vote_at_vote s) in
    absurd (ground (arith, inside, outside, ap (is_between (raft_log_prefix s) (raft_vote s)) e))

-- A byte string that is not a key of the shard's log.
abbrev pub IsOutside : ℕ → Bytes → Type 0
IsOutside s k = AllBytes k × ((rest : Bytes) → k ≢ raft_log_prefix s ++ rest)

module _ {Entry LogId Vote : Type 0} (c : LogTypes Entry LogId Vote) where
  -- `truncate` succeeds; it removes the entries from the index of `log_id` on, leaves those before it,
  -- and leaves every key that is not one of the shard's log.
  pub get-truncate :
      (log_id : LogId) (t : Tree) (i : ℕ) (k : Bytes)
      → c.index log_id < 2 ^ 64
      → i < 2 ^ 64
      → IsOutside c.shard_id k
      → (after : Tree) × (truncate c log_id t ≡ ok after)
        × (get (raft_log_entry c.shard_id i) after
            ≡ (if leb (c.index log_id) i then none else get (raft_log_entry c.shard_id i) t))
        × (get k after ≡ get k t)
  unfolding truncate
  get-truncate log_id t i k h hi (small, other) =
      let s = c.shard_id in
      let low = raft_log_entry s (c.index log_id) in
      (
        delete_batch (collect_keys low (raft_vote s) t) t,
        rw (log_upper_lem s) refl,
        get-delete_batch (raft_log_entry s i) low (raft_vote s) t
            ∙ ap (λ b. if b then none else get (raft_log_entry s i) t)
                (between_entry-vote s (c.index log_id) i h hi),
        get-delete_batch k low (raft_vote s) t
            ∙ ap (λ b. if b then none else get k t)
                (between_outside s low (raft_vote s) k small other
                  (entry_from_prefix s (c.index log_id)) (vote_at_vote s)),
      )

  purge_end_lem :
      (log_id : LogId)
      → c.index log_id < 2 ^ 64
      → (end : Bytes) × (purge_end c log_id ≡ ok end)
        × (list_cmp (raft_vote c.shard_id) end ≢ lt)
        × ((i : ℕ)
            → i < 2 ^ 64
            → is_between (raft_log_prefix c.shard_id) end (raft_log_entry c.shard_id i)
              ≡ leb i (c.index log_id))
  purge_end_lem log_id h = elim (Bool-cases (ltb (c.index log_id) u64_max)) [
    | inl room ↦ (
      raft_log_entry c.shard_id (c.index log_id + 1),
      rw (room, purge_end) refl,
      entry_not_before c.shard_id (c.index log_id + 1),
      λ i hi.
          between_prefix-entry c.shard_id (c.index log_id + 1) i (ground (arith, room)) hi
          ∙ ground arith,
    )
    | inr full ↦ (
      raft_vote c.shard_id,
      rw (full, purge_end) (log_upper_lem c.shard_id),
      vote_at_vote c.shard_id,
      λ i hi. between_prefix-vote c.shard_id i ∙ ground (arith, full),
    )
  ]

  read_marker :
      (log_id : LogId) (t : Tree) (bytes : Bytes)
      → get (raft_last_purged c.shard_id) t ≡ some bytes
      → c.log_id_from_bytes bytes ≡ some (some log_id)
      → read_last_purged c t ≡ ok (some log_id)
  unfolding read_last_purged
  read_marker log_id t bytes stored decodes = rw (read_last_purged, stored, decodes) refl

  -- `purge` succeeds; it removes the entries up to the index of `log_id`, the greatest `u64` included, and
  -- leaves those after it; it marks `log_id` as purged, where the stored identity is read back; and every
  -- key that is not one of the shard's log is as the marker leaves it.
  pub get-purge :
      (log_id : LogId) (t : Tree) (i : ℕ) (k : Bytes)
      → c.index log_id < 2 ^ 64
      → c.log_id_from_bytes (c.log_id_to_bytes (some log_id)) ≡ some (some log_id)
      → i < 2 ^ 64
      → IsOutside c.shard_id k
      → (after : Tree) × (purge c log_id t ≡ ok after)
        × (get (raft_log_entry c.shard_id i) after
            ≡ (if leb i (c.index log_id) then none else get (raft_log_entry c.shard_id i) t))
        × (read_last_purged c after ≡ ok (some log_id))
        × (get k after ≡ get k (mark_purged c log_id t))
  unfolding purge read_last_purged
  get-purge log_id t i k h decodes hi (small, other) =
      let s = c.shard_id in
      let (end, found, below, range) = purge_end_lem log_id h in
      let low = raft_log_prefix s in
      let marked = mark_purged c log_id t in
      let marker = raft_last_purged s in
      let value = c.log_id_to_bytes (some log_id) in
      let start : list_cmp low low ≢ lt = λ e. ground (arith, e, list_cmp_refl low) in
      let stays : get marker (delete_batch (collect_keys low end marked) marked) ≡ some value =
        get-delete_batch marker low end marked
        ∙ ground (
          arith,
          between-raft_last_purged s low end below,
          get-insert marker marker value t,
          eq_iff marker marker,
        ) in
      (
        delete_batch (collect_keys low end marked) marked,
        rw found refl,
        get-delete_batch (raft_log_entry s i) low end marked
            ∙ ground (
              arith,
              range i hi,
              get-insert (raft_log_entry s i) marker value t,
              eq_iff (raft_log_entry s i) marker,
              entry_marker s i,
            ),
        read_marker log_id (delete_batch (collect_keys low end marked) marked) value stays decodes,
        get-delete_batch k low end marked
            ∙ ap (λ b. if b then none else get k marked)
                (between_outside s low end k small other start below),
      )
