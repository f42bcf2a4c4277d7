-- ===== src/RaftLog.antt =====
-- es-storage/src/log_storage.rs and the scans of es-storage/src/storage.rs: the Raft log of a shard on
-- the ordered keys of the engine, whose own failures are left out. openraft's types and the bincode
-- encodings are parameters.
pub mod Keys
pub mod Laws
pub mod Refinement
pub mod Ranges
pub mod Last
use eventfs.Prelude.Words.{checked_suc64}
use eventfs.Prelude.{
  ℕ, ◌+◌, Bool, true, false, not, ◌&&◌, Option, none, some, List, [], ◌∷◌, map, Text, nat_ord,
  list_ord, ltb, leb, length, ◌==◌, if◌then◌else◌, Result, ok, err, ◌>>=◌, ◌>>◌,
}
use eventfs.Bytes.{Bytes}
use eventfs.BTreeMap.{keys, values, get, insert, retain}
use eventfs.Key.{
  raft_log_prefix, raft_log_entry, raft_log_upper, raft_vote, raft_committed, raft_last_purged,
}
use eventfs.Snapshot.{Record}
use eventfs.Snapshot.Install.{Tree, is_before, is_between, remove_all, insert_all}

pub data StorageError : Type 0 where
  undecodable purged_is_none no_upper : StorageError

abbrev pub Stored {ℓ} : Type ℓ → Type ℓ
Stored A = Result StorageError A

-- `std::ops::Bound`
pub data Bound : Type 0 where
  included excluded : ℕ → Bound
  unbounded : Bound

-- A shard's keys, `log_id` and `index` of openraft, and the encodings of `to_bytes` and `from_bytes`.
pub record LogTypes (Entry LogId Vote : Type 0) : Type 0 where
  pub shard_id : ℕ
  pub log_id : Entry → LogId
  pub index : LogId → ℕ
  pub entry_to_bytes : Entry → Bytes
  pub entry_from_bytes : Bytes → Option Entry
  pub log_id_to_bytes : Option LogId → Bytes
  pub log_id_from_bytes : Bytes → Option (Option LogId)
  pub vote_to_bytes : Vote → Bytes
  pub vote_from_bytes : Bytes → Option Vote

-- `raft_log_upper(…)`, whose `expect` does not fail
abbrev pub log_upper : ℕ → Stored Bytes
log_upper shard = elim (raft_log_upper shard) [ none ↦ err no_upper | some upper ↦ ok upper ]

unfoldable pub collect_keys : Bytes → Bytes → Tree → List Bytes
collect_keys start end t =
    if not (is_before start end) then [] else keys (retain (is_between start end) t)

abbrev pub delete_batch : List Bytes → Tree → Tree
delete_batch = remove_all

unfoldable pub start_index : Bound → Option ℕ
start_index (included i) = some i
start_index (excluded i) = checked_suc64 i
start_index unbounded = some 0

unfoldable pub end_key : ℕ → ℕ → Bound → Stored (Option Bytes)
end_key shard from (excluded i) = ok (if leb i from then none else some (raft_log_entry shard i))
end_key shard from (included i) = if ltb i from then ok none else elim (checked_suc64 i) [
  | some next ↦ ok (some (raft_log_entry shard next))
  | none ↦ log_upper shard >>= λ upper. ok (some upper)
]
end_key shard from unbounded = log_upper shard >>= λ upper. ok (some upper)

unfoldable pub log_range_keys : ℕ → Bound → Bound → Stored (Option (Bytes × Bytes))
unfolding start_index end_key
log_range_keys shard start end = elim (start_index start) [
  | none ↦ ok none
  | some from ↦ end_key shard from end >>= λ upper.
      ok (elim upper [ none ↦ none | some key ↦ some (raft_log_entry shard from, key) ])
]

abbrev pub decoded {ℓ} : {A : Type ℓ} → Option A → Stored A
decoded none = err undecodable
decoded (some a) = ok a

-- `seek_last`
unfoldable pub last {ℓ} : {A : Type ℓ} → List A → Option A
last [] = none
last (x ∷ []) = some x
last (x ∷ y ∷ xs) = last (y ∷ xs)

pub record LogState (LogId : Type 0) : Type 0 where
  pub last_purged_log_id : Option LogId
  pub last_log_id : Option LogId

module _ {Entry LogId Vote : Type 0} (c : LogTypes Entry LogId Vote) where
  unfoldable pub decode_entries : List Bytes → Stored (List Entry)
  decode_entries [] = ok []
  decode_entries (v ∷ vs) = do
    entry ← decoded (c.entry_from_bytes v)
    entries ← decode_entries vs
    ok (entry ∷ entries)

  unfoldable pub read_log_entries : Bound → Bound → Tree → Stored (List Entry)
  unfolding log_range_keys decode_entries
  read_log_entries start end t = log_range_keys c.shard_id start end >>= λ range. elim range [
    | none ↦ ok []
    | some (low, high) ↦
        if not (is_before low high)
        then ok []
        else decode_entries (values (retain (is_between low high) t))
  ]

  unfoldable pub read_last_log_id : Tree → Stored (Option LogId)
  unfolding last
  read_last_log_id t = log_upper c.shard_id >>= λ upper.
      elim (last (retain (is_between (raft_log_prefix c.shard_id) upper) t)) [
        | none ↦ ok none
        | some (k, v) ↦ decoded (c.entry_from_bytes v) >>= λ entry. ok (some (c.log_id entry))
      ]

  -- A key that is there holds an identity.
  unfoldable pub read_last_purged : Tree → Stored (Option LogId)
  read_last_purged t = elim (get (raft_last_purged c.shard_id) t) [
    | none ↦ ok none
    | some bytes ↦ decoded (c.log_id_from_bytes bytes) >>= λ stored. elim stored [
      | some id ↦ ok (some id)
      | none ↦ err purged_is_none
    ]
  ]

  unfoldable pub get_log_state : Tree → Stored (LogState LogId)
  unfolding read_last_purged read_last_log_id
  get_log_state t = do
    last_purged ← read_last_purged t
    last_in_log ← read_last_log_id t
    ok (record {
      last_purged_log_id = last_purged;
      last_log_id = elim last_in_log [ some id ↦ some id | none ↦ last_purged ];
    })

  abbrev pub save_committed : Option LogId → Tree → Tree
  save_committed committed t = insert (raft_committed c.shard_id) (c.log_id_to_bytes committed) t

  unfoldable pub read_committed : Tree → Stored (Option LogId)
  read_committed t = elim (get (raft_committed c.shard_id) t) [
    | none ↦ ok none
    | some bytes ↦ decoded (c.log_id_from_bytes bytes)
  ]

  abbrev pub save_vote : Vote → Tree → Tree
  save_vote vote t = insert (raft_vote c.shard_id) (c.vote_to_bytes vote) t

  unfoldable pub read_vote : Tree → Stored (Option Vote)
  read_vote t = elim (get (raft_vote c.shard_id) t) [
    | none ↦ ok none
    | some bytes ↦ decoded (c.vote_from_bytes bytes) >>= λ vote. ok (some vote)
  ]

  abbrev pub record_of : Entry → Record
  record_of entry = (raft_log_entry c.shard_id (c.index (c.log_id entry)), c.entry_to_bytes entry)

  -- One transaction
  abbrev pub append : List Entry → Tree → Tree
  append entries t = insert_all (map record_of entries) t

  unfoldable pub truncate : LogId → Tree → Stored Tree
  unfolding collect_keys
  truncate log_id t = log_upper c.shard_id >>= λ end.
      ok (delete_batch (collect_keys (raft_log_entry c.shard_id (c.index log_id)) end t) t)

  -- The marker of a purge, which is written before the log is cut.
  abbrev pub mark_purged : LogId → Tree → Tree
  mark_purged log_id t = insert (raft_last_purged c.shard_id) (c.log_id_to_bytes (some log_id)) t

  abbrev pub purge_end : LogId → Stored Bytes
  purge_end log_id = elim (checked_suc64 (c.index log_id)) [
    | some next ↦ ok (raft_log_entry c.shard_id next)
    | none ↦ log_upper c.shard_id
  ]

  unfoldable pub purge : LogId → Tree → Stored Tree
  unfolding collect_keys
  purge log_id t = purge_end log_id >>= λ end.
      let marked = mark_purged log_id t in
      ok (delete_batch (collect_keys (raft_log_prefix c.shard_id) end marked) marked)
