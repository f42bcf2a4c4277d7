-- ===== src/Tests/Snapshots.antt =====
-- A snapshot that goes from one replica to another.
use eventfs.Prelude.{
  ℕ, ◌≡◌, refl, Option, none, some, [], ◌∷◌, ◌==◌, nat_ord, list_ord, if◌then◌else◌, Text, ok,
  arith,
}
use eventfs.Prelude.Ordered.{list_cmp}
use eventfs.Bytes.{Bytes, to_be_bytes}
use eventfs.BTreeMap.{get, retain}
use eventfs.BTreeMap.Laws.{IsUnique}
use eventfs.Key.{successor, encode, applied_state_key}
use eventfs.StateMachine.Apply.{AppliedState}
use eventfs.Snapshot.{uncompressed, SnapshotMeta, Codec, record_len, record_lens, payload_len_for}
use eventfs.Snapshot.Laws.{AreStorable}
use eventfs.Snapshot.Install.{
  is_between, sm_start, sm_range, Replica, meta_of, build_snapshot, install_snapshot,
}
use eventfs.Snapshot.Install.Laws.{install_snapshot-build_snapshot}

-- Meta data that are written as their identity, and no compression.
abbrev plain : Codec (SnapshotMeta ℕ ℕ)
plain = record {
  to_vec = λ m. m.snapshot_id;
  from_slice = λ b. some (record { last_log_id = some 5; last_membership = 3; snapshot_id = b });
  writer = λ c b. b;
  reader = λ c b. b;
}

abbrev applied_bytes : AppliedState ℕ ℕ → Bytes
applied_bytes applied = applied.membership ∷ []

abbrev identity_of : ℕ → Option ℕ → Text
identity_of shard last = shard ∷ []

abbrev source : Replica ℕ ℕ
source = record {
  tree = (2 ∷ 0 ∷ 0 ∷ 0 ∷ 0 ∷ 0 ∷ 0 ∷ 0 ∷ 1 ∷ 7 ∷ [], 9 ∷ []) ∷ [];
  sm_cache = record { last_applied = some 5; membership = 3 };
}

abbrev target : Replica ℕ ℕ
target = record {
  tree = (2 ∷ 0 ∷ 0 ∷ 0 ∷ 0 ∷ 0 ∷ 0 ∷ 0 ∷ 1 ∷ 8 ∷ [], 5 ∷ []) ∷ (3 ∷ [], 4 ∷ []) ∷ [];
  sm_cache = record { last_applied = none; membership = 0 };
}

abbrev shard_start : Bytes
shard_start = 2 ∷ 0 ∷ 0 ∷ 0 ∷ 0 ∷ 0 ∷ 0 ∷ 0 ∷ 1 ∷ []

abbrev shard_end : Bytes
shard_end = 2 ∷ 0 ∷ 0 ∷ 0 ∷ 0 ∷ 0 ∷ 0 ∷ 0 ∷ 2 ∷ []

shard_range : sm_range 1 ≡ ok (shard_start, shard_end)
unfolding sm_range sm_start successor to_be_bytes
shard_range = refl

source-IsUnique : IsUnique source.tree
unfolding IsUnique get
source-IsUnique = (refl, tt)

source_lem :
    (payload_len_for (retain (is_between shard_start shard_end) source.tree) ≡ 43)
    × AreStorable (retain (is_between shard_start shard_end) source.tree)
unfolding payload_len_for record_lens record_len retain list_cmp AreStorable
source_lem = (refl, (record { key = omega arith; value = omega arith }, tt))

install_snapshot-build_snapshot_example :
    (file : Bytes) × (after : Replica ℕ ℕ) × (build_snapshot plain applied_bytes identity_of 1
        uncompressed source
      ≡ ok (meta_of plain applied_bytes identity_of 1 source.sm_cache, file))
    × (install_snapshot plain applied_bytes identity_of 1
          (meta_of plain applied_bytes identity_of 1 source.sm_cache)
          file
          target
        ≡ ok after)
    × (after.sm_cache ≡ source.sm_cache)
    × ((k : Bytes)
        → get k after.tree ≡ (
            if k == encode 1 applied_state_key
            then some (3 ∷ [])
            else if is_between shard_start shard_end k
            then get k source.tree
            else get k target.tree))
install_snapshot-build_snapshot_example =
    install_snapshot-build_snapshot plain applied_bytes identity_of 1 uncompressed source target
      shard_start shard_end shard_range source-IsUnique refl refl (omega arith) (omega arith)
      (omega (arith, source_lem.0)) source_lem.1
