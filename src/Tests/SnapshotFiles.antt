-- ===== src/Tests/SnapshotFiles.antt =====
-- A directory with snapshots of two shards and a damaged file.
use mathlib.Core.List.{Perm}
use eventfs.Prelude.{
  ℕ, ◌≡◌, ◌⊎◌, min, true, none, some, List, [], ◌∷◌, ◌++◌, map, length, ok, arith,
}
use eventfs.Snapshot.{SnapshotHeader, zstd}
use eventfs.Snapshot.Store.{SnapshotEntry, at_most, Found, latest, retain}
use eventfs.Snapshot.Store.Laws.{IsEntryOf, IsSnapshot, latest_lem}
use eventfs.Snapshot.Store.Own.{AreOwn}
use eventfs.Snapshot.Store.Retention.{AreBefore, retain_lem}

abbrev header_of : ℕ → SnapshotHeader
header_of shard = record {
  version = 1;
  compression = zstd;
  shard_id = shard;
  meta_len = 0;
  payload_len = 0;
}

-- A snapshot of term 2; an identity is its index.
abbrev file_of : ℕ → ℕ → SnapshotEntry ℕ ℕ
file_of shard index = record {
  path = shard ∷ index ∷ [];
  header = some (header_of shard);
  meta = some (record { last_log_id = some index; last_membership = 0; snapshot_id = [] });
}

abbrev damaged : SnapshotEntry ℕ ℕ
damaged = record { path = 9 ∷ []; header = none; meta = none }

abbrev directory : List (SnapshotEntry ℕ ℕ)
directory = file_of 1 20 ∷ file_of 2 90 ∷ damaged ∷ file_of 1 70 ∷ file_of 1 40 ∷ []

abbrev term_two : ℕ → ℕ
term_two i = 2

abbrev index_itself : ℕ → ℕ
index_itself i = i

latest_lem_example :
    ((latest term_two index_itself 1 (some 50) directory ≡ none)
      × ((e : SnapshotEntry ℕ ℕ) (f : Found)
          → IsEntryOf e directory
          → ¬ IsSnapshot term_two index_itself 1 (some 50) e f))
    ⊎ ((e : SnapshotEntry ℕ ℕ) × (f : Found) × IsEntryOf e directory
        × IsSnapshot term_two index_itself 1 (some 50) e f
        × (latest term_two index_itself 1 (some 50) directory ≡ some f.1)
        × ((d : SnapshotEntry ℕ ℕ) (g : Found)
            → IsEntryOf d directory
            → IsSnapshot term_two index_itself 1 (some 50) d g
            → at_most g.0 f.0 ≡ true))
latest_lem_example = latest_lem term_two index_itself 1 (some 50) directory

retain_lem_example :
    (mine : List Found) × (gone : List Found) × (kept : List Found) × AreOwn term_two index_itself 1
      directory mine
    × Perm (gone ++ kept) mine
    × (retain term_two index_itself 1 2 directory ≡ ok (map (λ f. f.1) gone))
    × (length kept ≡ min 2 (length mine))
    × AreBefore gone kept
retain_lem_example = retain_lem term_two index_itself 1 2 directory (omega arith)
