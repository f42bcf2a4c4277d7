-- ===== src/RaftLog/Ranges.antt =====
-- The ranges of indices that a reader of the Raft log asks for.
use eventfs.Prelude.Words.{u64_max}
use eventfs.Prelude.{
  ℕ, ◌+◌, ◌<◌, ◌^◌, ◌≡◌, refl, ap, ◌∙◌, Bool, true, false, ◌&&◌, Option, none, some, leb, ltb,
  Bool-cases, inl, inr, ok, arith,
}
use eventfs.Bytes.{Bytes}
use eventfs.Key.{raft_log_entry, raft_vote}
use eventfs.Snapshot.Install.{is_between}
use eventfs.RaftLog.{Bound, included, excluded, unbounded, start_index, end_key, log_range_keys}
use eventfs.RaftLog.Keys.{between_entries, between_entry-vote}
use eventfs.RaftLog.Laws.{log_upper_lem}

-- `RangeBounds::contains`
abbrev pub starts_at : Bound → ℕ → Bool
starts_at (included a) i = leb a i
starts_at (excluded a) i = ltb a i
starts_at unbounded i = true

abbrev pub ends_at : Bound → ℕ → Bool
ends_at (included b) i = leb i b
ends_at (excluded b) i = ltb i b
ends_at unbounded i = true

-- A key is in the range, where there is one.
abbrev pub is_in : Option (Bytes × Bytes) → Bytes → Bool
is_in none k = false
is_in (some (low, high)) k = is_between low high k

abbrev pub IsWord : Bound → Type 0
IsWord (included a) = a < 2 ^ 64
IsWord (excluded a) = a < 2 ^ 64
IsWord unbounded = Unit

abbrev paired : ℕ → ℕ → Option Bytes → Option (Bytes × Bytes)
paired s from none = none
paired s from (some key) = some (raft_log_entry s from, key)

end_key_lem :
    (s from i : ℕ) (end : Bound)
    → from < 2 ^ 64
    → i < 2 ^ 64
    → IsWord end
    → (key : Option Bytes) × (end_key s from end ≡ ok key)
      × (is_in (paired s from key) (raft_log_entry s i) ≡ (leb from i && ends_at end i))
unfolding end_key
end_key_lem s from i (excluded b) hf hi hb = elim (Bool-cases (leb b from)) [
  | inl empty ↦ (none, rw empty refl, ground (arith, empty))
  | inr full ↦ (some (raft_log_entry s b), rw full refl, between_entries s from b i hf hb hi)
]
end_key_lem s from i (included b) hf hi hb = elim (Bool-cases (ltb b from)) [
  | inl empty ↦ (none, rw empty refl, ground (arith, empty))
  | inr full ↦ elim (Bool-cases (ltb b u64_max)) [
    | inl room ↦ (
      some (raft_log_entry s (b + 1)),
      rw (full, room) refl,
      between_entries s from (b + 1) i hf (ground (arith, room)) hi ∙ ground arith,
    )
    | inr last ↦ (
      some (raft_vote s),
      rw (full, last, log_upper_lem s) refl,
      between_entry-vote s from i hf hi ∙ ground (arith, last),
    )
  ]
]
end_key_lem s from i unbounded hf hi hb = (
  some (raft_vote s),
  rw (log_upper_lem s) refl,
  between_entry-vote s from i hf hi ∙ ground arith,
)

from_index :
    (s i from : ℕ) (start end : Bound)
    → start_index start ≡ some from
    → from < 2 ^ 64
    → i < 2 ^ 64
    → IsWord end
    → (range : Option (Bytes × Bytes)) × (log_range_keys s start end ≡ ok range)
      × (is_in range (raft_log_entry s i) ≡ (leb from i && ends_at end i))
unfolding log_range_keys
from_index s i from start end found hf hi hb =
    let (key, ends, range) = end_key_lem s from i end hf hi hb in
    (paired s from key, rw (log_range_keys, found, ends) (ap ok (pairs key)), range)
  where
    pairs :
        (key : Option Bytes)
        → (elim key [ none ↦ none | some k ↦ some (raft_log_entry s from, k) ]) ≡ paired s from key
    pairs none = refl
    pairs (some k) = refl

-- `log_range_keys` finds, without an error, a range of keys that holds the key of an entry exactly when the
-- asked range of indices holds the index; no range of keys stands for an empty one. All bounds and the index
-- are `u64`, the greatest one included.
pub log_range_keys_lem :
    (s i : ℕ) (start end : Bound)
    → i < 2 ^ 64
    → IsWord start
    → IsWord end
    → (range : Option (Bytes × Bytes)) × (log_range_keys s start end ≡ ok range)
      × (is_in range (raft_log_entry s i) ≡ (starts_at start i && ends_at end i))
unfolding log_range_keys start_index
log_range_keys_lem s i (included a) end hi ha hb = from_index s i a (included a) end refl ha hi hb
log_range_keys_lem s i unbounded end hi ha hb =
    let (range, found, holds) = from_index s i 0 unbounded end refl (omega arith) hi hb in
    (range, found, holds ∙ ground arith)
log_range_keys_lem s i (excluded a) end hi ha hb = elim (Bool-cases (ltb a u64_max)) [
  | inl room ↦
      let (range, found, holds) =
        from_index s i (a + 1) (excluded a) end (rw room refl) (ground (arith, room)) hi hb in
      (range, found, holds ∙ ground arith)
  | inr last ↦ (none, rw (log_range_keys, last) refl, ground (arith, last))
]
