-- ===== src/Snapshot.antt =====
-- The format of snapshot files: es-storage/src/snapshot.rs, with `build_snapshot` and the reading part
-- of `install_snapshot` of es-storage/src/state_machine.rs. The encoding of the meta data (serde_json)
-- and the compression (zstd, lz4) are parameters; memory is taken to suffice for what is read.
pub mod Laws
pub mod Install
pub mod Store
use eventfs.Prelude.{
  ℕ, zero, suc, ◌+◌, ◌*◌, ◌^◌, Option, none, some, List, [], ◌∷◌, ◌++◌, length, Text, ◌==◌, nat_ord,
  list_ord, Bool, true, false, not, if◌then◌else◌, ltb, Result, ok, err, ◌>>=◌, ◌>>◌,
}
use eventfs.Prelude.Words.{u64_max}
use eventfs.Bytes.{Bytes, to_le_bytes, from_le_bytes}

abbrev pub snap_magic : Bytes
snap_magic = b'E' ∷ b'S' ∷ b'N' ∷ b'P' ∷ []

abbrev pub snap_version : ℕ
snap_version = 1

abbrev pub end_marker : ℕ
end_marker = u64_max

abbrev pub max_meta_len : ℕ
max_meta_len = 64 * 1024 * 1024

abbrev pub max_record_len : ℕ
max_record_len = 2 ^ 30

pub data Compression : Type 0 where
  zstd lz4 uncompressed : Compression

-- The reasons of the errors.
pub data SnapshotError : Type 0 where
  end_of_file bad_magic bad_meta no_successor early_marker key_too_long value_too_long
        missing_marker wrong_id :
      SnapshotError
  unknown_version unknown_tag meta_too_long : ℕ → SnapshotError
  wrong_meta_len wrong_payload_len : ℕ → ℕ → SnapshotError

abbrev pub Answer {ℓ} : Type ℓ → Type ℓ
Answer A = Result SnapshotError A

abbrev pub tag : Compression → ℕ
tag uncompressed = 0
tag zstd = 1
tag lz4 = 2

unfoldable pub from_tag : ℕ → Answer Compression
from_tag n =
    if n == 0
    then ok uncompressed
    else if n == 1
    then ok zstd
    else if n == 2
    then ok lz4
    else err (unknown_tag n)

pub record SnapshotHeader : Type 0 where
  pub version : ℕ
  pub compression : Compression
  pub shard_id : ℕ
  pub meta_len : ℕ
  pub payload_len : ℕ

-- `openraft::SnapshotMeta`
pub record SnapshotMeta (LogId Membership : Type 0) : Type 0 where
  pub last_log_id : Option LogId
  pub last_membership : Membership
  pub snapshot_id : Text

-- The encoding of meta data, and the writers and readers of the compressions. A reader gives the bytes
-- that can be read before the end or the first failure.
pub record Codec (Meta : Type 0) : Type 0 where
  pub to_vec : Meta → Bytes
  pub from_slice : Bytes → Option Meta
  pub writer : Compression → Bytes → Bytes
  pub reader : Compression → Bytes → Bytes

-- `Read::read_exact`, with what is left
unfoldable pub read_exact : ℕ → Bytes → Answer (Bytes × Bytes)
read_exact zero s = ok ([], s)
read_exact (suc n) [] = err end_of_file
read_exact (suc n) (b ∷ s) = do (bytes, rest) ← read_exact n s; ok (b ∷ bytes, rest)

unfoldable pub slice : ℕ → ℕ → Bytes → Bytes
slice zero zero bytes = []
slice zero (suc n) [] = []
slice zero (suc n) (b ∷ bytes) = b ∷ slice zero n bytes
slice (suc i) n [] = []
slice (suc i) n (b ∷ bytes) = slice i n bytes

unfoldable pub byte_at : ℕ → Bytes → ℕ
byte_at i [] = 0
byte_at zero (b ∷ bytes) = b
byte_at (suc i) (b ∷ bytes) = byte_at i bytes

unfoldable pub head_bytes : SnapshotHeader → Bytes
head_bytes h =
    snap_magic
    ++ h.version
      ∷ tag h.compression
      ∷ 0
      ∷ 0
      ∷ (to_le_bytes 8 h.shard_id ++ to_le_bytes 8 h.meta_len ++ to_le_bytes 8 h.payload_len)

unfoldable pub read_head : Bytes → Answer SnapshotHeader
read_head head =
    if not (slice 0 4 head == snap_magic)
    then err bad_magic
    else if not (byte_at 4 head == snap_version)
    then err (unknown_version (byte_at 4 head))
    else do
      compression ← from_tag (byte_at 5 head)
      ok (record {
        version = byte_at 4 head;
        compression = compression;
        shard_id = from_le_bytes (slice 8 8 head);
        meta_len = from_le_bytes (slice 16 8 head);
        payload_len = from_le_bytes (slice 24 8 head);
      })

module _ {Meta : Type 0} (c : Codec Meta) where
  unfoldable pub write_header : SnapshotHeader → Meta → Answer Bytes
  write_header h meta =
      let meta_bytes = c.to_vec meta in
      if not (length meta_bytes == h.meta_len)
      then err (wrong_meta_len h.meta_len (length meta_bytes))
      else ok (head_bytes h ++ meta_bytes)

  unfoldable pub read_meta : SnapshotHeader → Bytes → Answer (SnapshotHeader × Meta × Bytes)
  read_meta h s = if ltb max_meta_len h.meta_len then err (meta_too_long h.meta_len) else do
    (meta_bytes, rest) ← read_exact h.meta_len s
    elim (c.from_slice meta_bytes) [ none ↦ err bad_meta | some meta ↦ ok (h, meta, rest) ]

  unfoldable pub read_header : Bytes → Answer (SnapshotHeader × Meta × Bytes)
  read_header s = do (head, rest) ← read_exact 32 s; h ← read_head head; read_meta h rest

abbrev pub Record : Type 0
Record = Bytes × Bytes

unfoldable pub record_len : Bytes → Bytes → ℕ
record_len key value = 16 + length key + length value

unfoldable pub record_lens : List Record → ℕ
record_lens [] = 0
record_lens ((key, value) ∷ entries) = record_len key value + record_lens entries

unfoldable pub payload_len_for : List Record → ℕ
payload_len_for entries = 8 + record_lens entries + 8

unfoldable pub write_record : Bytes → Bytes → Bytes
write_record key value = to_le_bytes 8 (length key) ++ key ++ to_le_bytes 8 (length value) ++ value

unfoldable pub write_records : List Record → Bytes
write_records [] = []
write_records ((key, value) ∷ entries) = write_record key value ++ write_records entries

-- The count, the records and the marker.
unfoldable pub payload_bytes : List Record → Bytes
payload_bytes entries =
    to_le_bytes 8 (length entries) ++ write_records entries ++ to_le_bytes 8 end_marker

unfoldable pub read_u64 : Bytes → Answer (ℕ × Bytes)
read_u64 s = do (bytes, rest) ← read_exact 8 s; ok (from_le_bytes bytes, rest)

-- One round of the loop, with the number of bytes that have been read.
unfoldable pub read_record : ℕ → Bytes → Answer (Record × ℕ × Bytes)
read_record read_bytes s = do
  (key_len, s1) ← read_u64 s
  if key_len == end_marker
      then err early_marker
      else if ltb max_record_len key_len
      then err key_too_long
      else do
        (key, s2) ← read_exact key_len s1
        (value_len, s3) ← read_u64 s2
        if ltb max_record_len value_len then err value_too_long else do
          (value, s4) ← read_exact value_len s3
          ok ((key, value), read_bytes + 8 + key_len + 8 + value_len, s4)

unfoldable pub read_records : ℕ → ℕ → Bytes → Answer (List Record × ℕ × Bytes)
read_records zero read_bytes s = ok ([], read_bytes, s)
read_records (suc count) read_bytes s = do
  (entry, read_bytes', s1) ← read_record read_bytes s
  (entries, read_bytes'', s2) ← read_records count read_bytes' s1
  ok (entry ∷ entries, read_bytes'', s2)

-- The records and the number of bytes that have been read.
unfoldable pub for_each_record : Bytes → Answer (List Record × ℕ)
for_each_record s = do
  (count, s1) ← read_u64 s
  (entries, read_bytes, s2) ← read_records count 8 s1
  (marker, rest) ← read_u64 s2
  if not (marker == end_marker) then err missing_marker else ok (entries, read_bytes + 8)

module _ {LogId Membership : Type 0} (c : Codec (SnapshotMeta LogId Membership)) where
  -- The file of a snapshot.
  unfoldable pub build_file :
      Compression → ℕ → SnapshotMeta LogId Membership → List Record → Answer Bytes
  build_file compression shard meta entries = do
    head ←
        write_header c
          (record {
            version = snap_version;
            compression = compression;
            shard_id = shard;
            meta_len = length (c.to_vec meta);
            payload_len = payload_len_for entries;
          })
          meta
    ok (head ++ c.writer compression (payload_bytes entries))

  -- The records of a file that is installed for the snapshot of an identity.
  unfoldable pub read_file : Text → Bytes → Answer (List Record)
  read_file snapshot_id file = do
    (header, file_meta, rest) ← read_header c file
    if not (file_meta.snapshot_id == snapshot_id) then err wrong_id else do
      (entries, read_bytes) ← for_each_record (c.reader header.compression rest)
      if not (read_bytes == header.payload_len)
          then err (wrong_payload_len read_bytes header.payload_len)
          else ok entries
