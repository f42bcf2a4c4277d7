-- ===== src/Snapshot/Laws.antt =====
-- A snapshot file is read back.
use mathlib.Core.List.{append_assoc}
use eventfs.Prelude.{
  ℕ, ◌+◌, ◌^◌, ◌≤◌, ◌<◌, ◌≡◌, refl, sym, ap, ◌∙◌, some, List, [], ◌∷◌, ◌++◌, length, ◌==◌, eq_iff,
  eq_refl, nat_ord, list_ord, false, ltb, ok, arith,
}
use eventfs.Bytes.{Bytes, to_le_bytes, from_le_bytes}
use eventfs.Bytes.Laws.{from-to_le_bytes, length-to_le_bytes}
use eventfs.Prelude.Ordered.{list_cmp}
use eventfs.Snapshot.{
  snap_magic, snap_version, end_marker, max_record_len, max_meta_len, Compression, zstd, lz4,
  uncompressed, tag, from_tag, SnapshotHeader, SnapshotMeta, Codec, Record, read_exact, slice,
  byte_at, head_bytes, write_header, read_meta, read_head, read_header, record_len, record_lens,
  payload_len_for, write_record, write_records, payload_bytes, read_u64, read_record, read_records,
  for_each_record, build_file, read_file,
}

read_exact-append : (a s : Bytes) → read_exact (length a) (a ++ s) ≡ ok (a, s)
unfolding read_exact
read_exact-append [] s = refl
read_exact-append (b ∷ a) s = rw (read_exact-append a s) refl

-- As many bytes as a string has, whatever the number is called.
read_part : (n : ℕ) (a s : Bytes) → n ≡ length a → read_exact n (a ++ s) ≡ ok (a, s)
read_part n a s h = ap (λ k. read_exact k (a ++ s)) h ∙ read_exact-append a s

read_u64-append : (v : ℕ) (s : Bytes) → v < 2 ^ 64 → read_u64 (to_le_bytes 8 v ++ s) ≡ ok (v, s)
unfolding read_u64
read_u64-append v s h =
    rw
      (
        read_part 8 (to_le_bytes 8 v) s (sym (length-to_le_bytes 8 v)),
        from-to_le_bytes 8 v (omega (arith, h)),
      )
      refl

-- A record whose parts are short enough to be read.
pub record IsStorable (entry : Record) : Type 0 where
  pub key : length entry.0 ≤ max_record_len
  pub value : length entry.1 ≤ max_record_len

read_record-write_record :
    (n : ℕ) (entry : Record) (s : Bytes)
    → IsStorable entry
    → read_record n (write_record entry.0 entry.1 ++ s)
      ≡ ok (entry, n + record_len entry.0 entry.1, s)
unfolding read_record write_record record_len
read_record-write_record n (key, value) s h =
    let after_key = to_le_bytes 8 (length value) ++ (value ++ s) in
    let parts : write_record key value ++ s ≡ to_le_bytes 8 (length key) ++ (key ++ after_key) =
      unfold write_record in simp append_assoc in
    let no_marker : (length key == end_marker) ≡ false =
      ground (arith, h.key, eq_iff (length key) end_marker) in
    let key_fits : ltb max_record_len (length key) ≡ false = ground (arith, h.key) in
    let value_fits : ltb max_record_len (length value) ≡ false = ground (arith, h.value) in
    rw
      (
        parts,
        read_u64-append (length key) (key ++ after_key) (omega (arith, h.key)),
        no_marker,
        key_fits,
        read_exact-append key after_key,
        read_u64-append (length value) (value ++ s) (omega (arith, h.value)),
        value_fits,
        read_exact-append value s,
      )
      (ap (λ z. ok ((key, value), z, s)) (omega arith))

unfoldable pub AreStorable : List Record → Type 0
AreStorable [] = Unit
AreStorable (entry ∷ entries) = IsStorable entry × AreStorable entries

read_records-write_records :
    (n : ℕ) (entries : List Record) (s : Bytes)
    → AreStorable entries
    → read_records (length entries) n (write_records entries ++ s)
      ≡ ok (entries, n + record_lens entries, s)
unfolding read_records write_records record_lens AreStorable
read_records-write_records n [] s h = ap (λ z. ok ([], z, s)) (omega arith)
read_records-write_records n ((key, value) ∷ entries) s (one, rest) =
    let m = n + record_len key value in
    rw
      (
        append_assoc (write_record key value) (write_records entries) s,
        read_record-write_record n (key, value) (write_records entries ++ s) one,
        read_records-write_records m entries s rest,
      )
      (ap (λ z. ok ((key, value) ∷ entries, z, s)) (omega arith))

-- The records are read back, and all bytes of the payload are counted.
for_each_record-payload_bytes :
    (entries : List Record)
    → length entries < 2 ^ 64
    → AreStorable entries
    → for_each_record (payload_bytes entries) ≡ ok (entries, payload_len_for entries)
unfolding for_each_record payload_len_for
for_each_record-payload_bytes entries h storable =
    let marker = to_le_bytes 8 end_marker in
    let end : read_u64 marker ≡ ok (end_marker, []) =
      unfold read_u64 read_exact to_le_bytes from_le_bytes in refl in
    let parts : payload_bytes entries
        ≡ to_le_bytes 8 (length entries) ++ (write_records entries ++ marker) =
      unfold payload_bytes in simp append_assoc in
    rw
      (
        parts,
        read_u64-append (length entries) (write_records entries ++ marker) h,
        read_records-write_records 8 entries marker storable,
        end,
      )
      (ap (λ z. ok (entries, z)) (omega arith))

-- The numbers of a header are `u64`, and its meta data are not longer than a reader accepts.
pub record IsHeader (h : SnapshotHeader) : Type 0 where
  pub version : h.version ≡ 1
  pub shard_id : h.shard_id < 2 ^ 64
  pub meta_len : h.meta_len ≤ max_meta_len
  pub payload_len : h.payload_len < 2 ^ 64

from_tag-tag : (c : Compression) → from_tag (tag c) ≡ ok c
unfolding from_tag
from_tag-tag zstd = refl
from_tag-tag lz4 = refl
from_tag-tag uncompressed = refl

-- The fields of a header stand at their places.
head_fields :
    (h : SnapshotHeader)
    → (slice 0 4 (head_bytes h) ≡ snap_magic)
      × (byte_at 4 (head_bytes h) ≡ h.version)
      × (byte_at 5 (head_bytes h) ≡ tag h.compression)
      × (slice 8 8 (head_bytes h) ≡ to_le_bytes 8 h.shard_id)
      × (slice 16 8 (head_bytes h) ≡ to_le_bytes 8 h.meta_len)
      × (slice 24 8 (head_bytes h) ≡ to_le_bytes 8 h.payload_len)
      × (length (head_bytes h) ≡ 32)
unfolding head_bytes to_le_bytes slice byte_at
head_fields h = (refl, refl, refl, refl, refl, refl, refl)

read_head-head_bytes : (h : SnapshotHeader) → IsHeader h → read_head (head_bytes h) ≡ ok h
unfolding read_head list_cmp
read_head-head_bytes h v =
    let (magic, version, compression, shard_id, meta_len, payload_len, total) = head_fields h in
    let at_version : byte_at 4 (head_bytes h) ≡ 1 = version ∙ v.version in
    rw
      (
        magic,
        at_version,
        compression,
        from_tag-tag h.compression,
        shard_id,
        meta_len,
        payload_len,
        from-to_le_bytes 8 h.shard_id (omega (arith, v.shard_id)),
        from-to_le_bytes 8 h.meta_len (omega (arith, v.meta_len)),
        from-to_le_bytes 8 h.payload_len (omega (arith, v.payload_len)),
      )
      (ap (λ z. ok (record h { version = z })) (sym v.version))

module _ {Meta : Type 0} (c : Codec Meta) (h : SnapshotHeader) (meta : Meta) (v : IsHeader h)
    (decodes : c.from_slice (c.to_vec meta) ≡ some meta)
    (fits : h.meta_len ≡ length (c.to_vec meta)) where
  -- The header and the meta data are read back.
  pub read_header-write_header :
      (payload : Bytes)
      → (file : Bytes) × (write_header c h meta ≡ ok file)
        × (read_header c (file ++ payload) ≡ ok (h, meta, payload))
  unfolding write_header read_header read_meta
  read_header-write_header payload =
      let meta_bytes = c.to_vec meta in
      let (magic, version, compression, shard_id, meta_len, payload_len, total) = head_fields h in
      let small : ltb max_meta_len h.meta_len ≡ false = ground (arith, v.meta_len) in
      (
        head_bytes h ++ meta_bytes,
        ground (arith, fits, eq_iff (length meta_bytes) h.meta_len),
        rw
            (
              append_assoc (head_bytes h) meta_bytes payload,
              read_part 32 (head_bytes h) (meta_bytes ++ payload) (sym total),
              read_head-head_bytes h v,
              small,
              read_part h.meta_len meta_bytes payload fits,
              decodes,
            )
            refl,
      )

length-record_lens : (entries : List Record) → length entries ≤ record_lens entries
unfolding record_lens record_len
length-record_lens [] = omega arith
length-record_lens ((key, value) ∷ entries) = omega (arith, length-record_lens entries)

-- A snapshot that is built is read back for its own identity with the same records, if the payload is
-- read back as it was written, the meta data are read back and are no longer than a reader accepts,
-- the shard and the length of the payload are `u64`, and the parts
-- of the records are short enough.
pub read_file-build_file :
    {LogId Membership : Type 0} (c : Codec (SnapshotMeta LogId Membership))
    (compression : Compression)
    → (shard : ℕ) (meta : SnapshotMeta LogId Membership) (entries : List Record)
    → c.reader compression (c.writer compression (payload_bytes entries)) ≡ payload_bytes entries
    → c.from_slice (c.to_vec meta) ≡ some meta
    → length (c.to_vec meta) ≤ max_meta_len
    → shard < 2 ^ 64
    → payload_len_for entries < 2 ^ 64
    → AreStorable entries
    → (file : Bytes) × (build_file c compression shard meta entries ≡ ok file)
      × (read_file c meta.snapshot_id file ≡ ok entries)
unfolding build_file read_file
read_file-build_file c compression shard meta entries unpacks decodes short hs hp storable =
    let hn : length entries < 2 ^ 64 =
      unfold payload_len_for in omega (arith, hp, length-record_lens entries) in
    let header : SnapshotHeader = record {
      version = snap_version;
      compression = compression;
      shard_id = shard;
      meta_len = length (c.to_vec meta);
      payload_len = payload_len_for entries;
    } in
    let packed = c.writer compression (payload_bytes entries) in
    let v : IsHeader header = record {
      version = refl;
      shard_id = hs;
      meta_len = short;
      payload_len = hp;
    } in
    let (head, written, found) = read_header-write_header c header meta v decodes refl packed in
    (
      head ++ packed,
      rw written refl,
      rw
          (
            found,
            eq_refl meta.snapshot_id,
            unpacks,
            for_each_record-payload_bytes entries hn storable,
            eq_refl (payload_len_for entries),
          )
          refl,
    )
