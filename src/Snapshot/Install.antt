-- ===== src/Snapshot/Install.antt =====
-- `collect_sm_entries`, `build_snapshot` and `install_snapshot` of es-storage/src/state_machine.rs on the
-- ordered keys of the engine, with `collect_keys` of es-storage/src/storage.rs. The encoding of the
-- applied state (bincode) and the printing of a snapshot identity are parameters.
pub mod Laws
use eventfs.Prelude.{
  ℕ, Option, none, some, List, [], ◌∷◌, ◌++◌, Text, nat_ord, list_ord, Bool, true, false, not, ◌&&◌,
  Result, ok, err, ◌>>=◌, ◌>>◌,
}
use Prim.Native.Nat.Ordering.{lt, eq, gt}
use eventfs.Prelude.Ordered.{list_cmp}
use eventfs.Bytes.{Bytes, to_be_bytes}
use eventfs.BTreeMap.{BTreeMap, keys, insert, remove, retain}
use eventfs.Key.{successor, encode, applied_state_key}
use eventfs.StateMachine.Apply.{AppliedState}
use eventfs.Snapshot.{
  Compression, SnapshotError, no_successor, Answer, SnapshotMeta, Codec, Record, build_file,
  read_file,
}

-- The keys of all shards and their values.
abbrev pub Tree : Type 0
Tree = BTreeMap Bytes Bytes

abbrev pub is_before : Bytes → Bytes → Bool
is_before a b = elim (list_cmp a b) [ lt ↦ true | eq ↦ false | gt ↦ false ]

-- The keys of a range: from the start on and below the end.
abbrev pub is_between : Bytes → Bytes → Bytes → Bool
is_between start end k = not (is_before k start) && is_before k end

unfoldable pub sm_start : ℕ → Bytes
sm_start shard = 0x02 ∷ to_be_bytes 8 shard

unfoldable pub sm_range : ℕ → Answer (Bytes × Bytes)
sm_range shard = elim (successor (sm_start shard)) [
  | none ↦ err no_successor
  | some end ↦ ok (sm_start shard, end)
]

unfoldable pub collect_sm_entries : ℕ → Tree → Answer (List Record)
collect_sm_entries shard t = do (start, end) ← sm_range shard; ok (retain (is_between start end) t)

unfoldable pub remove_all : List Bytes → Tree → Tree
remove_all [] t = t
remove_all (k ∷ ks) t = remove_all ks (remove k t)

unfoldable pub insert_all : List Record → Tree → Tree
insert_all [] t = t
insert_all ((k, v) ∷ entries) t = insert_all entries (insert k v t)

-- The state machine of a shard: the engine and the cache.
pub record Replica (LogId Membership : Type 0) : Type 0 where
  pub tree : Tree
  pub sm_cache : AppliedState LogId Membership

module _ {LogId Membership : Type 0} (c : Codec (SnapshotMeta LogId Membership))
    (encode_applied : AppliedState LogId Membership → Bytes)
    (snapshot_id_of : ℕ → Option LogId → Text) (shard : ℕ) where
  abbrev pub meta_of : AppliedState LogId Membership → SnapshotMeta LogId Membership
  meta_of applied = record {
    last_log_id = applied.last_applied;
    last_membership = applied.membership;
    snapshot_id = snapshot_id_of shard applied.last_applied;
  }

  -- The meta data and the file of a new snapshot.
  unfoldable pub build_snapshot :
      Compression → Replica LogId Membership → Answer (SnapshotMeta LogId Membership × Bytes)
  build_snapshot compression r = do
    entries ← collect_sm_entries shard r.tree
    file ← build_file c compression shard (meta_of r.sm_cache) entries
    ok (meta_of r.sm_cache, file)

  -- A failure leaves the replica as it was.
  unfoldable pub install_snapshot :
      SnapshotMeta LogId Membership
      → Bytes
      → Replica LogId Membership
      → Answer (Replica LogId Membership)
  install_snapshot meta file r = do
    (start, end) ← sm_range shard
    entries ← read_file c meta.snapshot_id file
    let old_keys = keys (retain (is_between start end) r.tree) in
        let applied : AppliedState LogId Membership = record {
          last_applied = meta.last_log_id;
          membership = meta.last_membership;
        } in
        ok (record {
          tree =
              insert (encode shard applied_state_key) (encode_applied applied)
                (insert_all entries (remove_all old_keys r.tree));
          sm_cache = applied;
        })
