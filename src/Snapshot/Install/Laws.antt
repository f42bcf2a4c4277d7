-- ===== src/Snapshot/Install/Laws.antt =====
-- What a snapshot takes to another replica.
use eventfs.Prelude.{
  ℕ, ◌^◌, ◌≤◌, ◌<◌, ◌≡◌, refl, Option, none, some, List, [], ◌∷◌, length, ◌==◌, eq_iff, nat_ord,
  list_ord, Bool, false, ◌||◌, if◌then◌else◌, ok, Text, is_some, arith,
}
use eventfs.Bytes.{Bytes}
use eventfs.BTreeMap.{keys, get, insert, remove, retain}
use eventfs.BTreeMap.Laws.{IsUnique, retain-IsUnique, get-insert, get-remove, get-retain}
use eventfs.Key.{encode, applied_state_key}
use eventfs.StateMachine.Apply.{AppliedState, or_else}
use eventfs.Snapshot.{
  max_meta_len, Compression, SnapshotMeta, Codec, Record, payload_len_for, payload_bytes,
}
use eventfs.Snapshot.Laws.{AreStorable, read_file-build_file}
use eventfs.Snapshot.Install.{
  Tree, is_between, sm_range, collect_sm_entries, remove_all, insert_all, Replica, meta_of,
  build_snapshot, install_snapshot,
}

pub get-insert_all :
    (k : Bytes) (entries : List Record) (t : Tree)
    → IsUnique entries
    → get k (insert_all entries t) ≡ or_else (get k entries) (get k t)
unfolding insert_all get IsUnique
get-insert_all k [] t u = refl
get-insert_all k ((j, v) ∷ entries) t (fresh, u) =
    ground (arith, get-insert_all k entries (insert j v t) u, get-insert k j v t, eq_iff k j)

abbrev has : Bytes → List Bytes → Bool
has k [] = false
has k (j ∷ ks) = k == j || has k ks

get-remove_all :
    (k : Bytes) (ks : List Bytes) (t : Tree)
    → get k (remove_all ks t) ≡ (if has k ks then none else get k t)
unfolding remove_all
get-remove_all k [] t = refl
get-remove_all k (j ∷ ks) t = ground (arith, get-remove_all k ks (remove j t), get-remove k j t)

has-keys : (k : Bytes) (t : Tree) → has k (keys t) ≡ is_some (get k t)
unfolding get
has-keys k [] = refl
has-keys k ((j, v) ∷ t) = ground (arith, has-keys k t)

-- The keys of a range are gone, and the others stay.
pub get-cleared :
    (k : Bytes) (p : Bytes → Bool) (t : Tree)
    → get k (remove_all (keys (retain p t)) t) ≡ (if p k then none else get k t)
get-cleared k p t =
    ground
      (arith, get-remove_all k (keys (retain p t)) t, has-keys k (retain p t), get-retain k p t)

-- A snapshot that one replica builds is installed by another: then both have the same state machine
-- keys of the shard, but for the applied state, which is stored as the builder has it in its cache,
-- and all other keys of the second replica are as before. The keys of the builder are unique, the
-- payload and the meta data are read back as they were written, and all numbers and parts are in the
-- ranges that a reader accepts.
pub install_snapshot-build_snapshot :
    {LogId Membership : Type 0} (c : Codec (SnapshotMeta LogId Membership))
    → (encode_applied : AppliedState LogId Membership → Bytes)
      (snapshot_id_of : ℕ → Option LogId → Text) (shard : ℕ) (compression : Compression)
      (source target : Replica LogId Membership) (start end : Bytes)
    → sm_range shard ≡ ok (start, end)
    → IsUnique source.tree
    → let entries = retain (is_between start end) source.tree in
      let meta = meta_of c encode_applied snapshot_id_of shard source.sm_cache in
      c.reader compression (c.writer compression (payload_bytes entries)) ≡ payload_bytes entries
      → c.from_slice (c.to_vec meta) ≡ some meta
      → length (c.to_vec meta) ≤ max_meta_len
      → shard < 2 ^ 64
      → payload_len_for entries < 2 ^ 64
      → AreStorable entries
      → (file : Bytes) × (after : Replica LogId Membership) × (build_snapshot c encode_applied
            snapshot_id_of shard compression source
          ≡ ok (meta, file))
        × (install_snapshot c encode_applied snapshot_id_of shard meta file target ≡ ok after)
        × (after.sm_cache ≡ source.sm_cache)
        × ((k : Bytes)
            → get k after.tree ≡ (
                if k == encode shard applied_state_key
                then some (encode_applied source.sm_cache)
                else if is_between start end k
                then get k source.tree
                else get k target.tree))
unfolding build_snapshot install_snapshot collect_sm_entries
install_snapshot-build_snapshot c encode_applied snapshot_id_of shard compression source target
      start end range unique unpacks decodes short hs hp storable =
    let p = is_between start end in
    let entries = retain p source.tree in
    let meta = meta_of c encode_applied snapshot_id_of shard source.sm_cache in
    let (file, built, found) =
      read_file-build_file c compression shard meta entries unpacks decodes short hs hp storable in
    let cleared = remove_all (keys (retain p target.tree)) target.tree in
    let filled = insert_all entries cleared in
    let key = encode shard applied_state_key in
    let value = encode_applied source.sm_cache in
    (
      file,
      record { tree = insert key value filled; sm_cache = source.sm_cache },
      rw (range, built) refl,
      rw (range, found) refl,
      refl,
      λ k. ground (
        arith,
        get-insert k key value filled,
        get-insert_all k entries cleared (retain-IsUnique p source.tree unique),
        get-cleared k p target.tree,
        get-retain k p source.tree,
      ),
    )
