-- ===== src/Tests/Logs.antt =====
-- A Raft log that is appended to, truncated and purged.
use eventfs.Prelude.{
  ℕ, ◌<◌, ◌^◌, ◌≡◌, ◌∙◌, ap, sym, inl, inr, eq_iff, ◌==◌, Bool-cases, ◌⊎◌, refl, ◌&&◌, Option, none,
  some, List, [], ◌∷◌, nat_ord, list_ord, leb, ltb, ok, arith,
}
use eventfs.Prelude.Ordered.{list_cmp}
use eventfs.Prelude.Words.{u64_max}
use eventfs.Bytes.{Bytes, to_be_bytes}
use eventfs.BTreeMap.{get, retain}
use eventfs.Key.{raft_log_prefix, raft_log_entry, raft_vote, sub_prefix}
use eventfs.Snapshot.Install.{Tree}
use eventfs.RaftLog.{LogTypes, included, excluded, log_range_keys, read_last_log_id}
use eventfs.RaftLog.Refinement.{
  Operation, append_op, truncate_op, purge_op, run, log_run, log_of, AreStorable, AreIndexed,
  run-log_run,
}
use eventfs.RaftLog.Ranges.{is_in, log_range_keys_lem}
use eventfs.RaftLog.Last.{IsSorted, IsEntry, log_records, read_last_log_id_lem}

-- Entries are their indices, and bytes of one number.
abbrev plain : LogTypes ℕ ℕ ℕ
plain = record {
  shard_id = 3;
  log_id = λ e. e;
  index = λ i. i;
  entry_to_bytes = λ e. e ∷ [];
  entry_from_bytes = λ b. elim b [ [] ↦ none | x ∷ xs ↦ some x ];
  log_id_to_bytes = λ o. elim o [ none ↦ [] | some i ↦ i ∷ [] ];
  log_id_from_bytes = λ b. elim b [ [] ↦ some none | x ∷ xs ↦ some (some x) ];
  vote_to_bytes = λ v. v ∷ [];
  vote_from_bytes = λ b. elim b [ [] ↦ none | x ∷ xs ↦ some x ];
}

abbrev changes : List (Operation ℕ ℕ)
changes = append_op (4 ∷ 5 ∷ 6 ∷ 7 ∷ []) ∷ truncate_op 7 ∷ append_op (7 ∷ 8 ∷ []) ∷ purge_op 5 ∷ []

changes-AreStorable : AreStorable plain changes
unfolding AreStorable AreIndexed
changes-AreStorable = (
  (omega arith, (omega arith, (omega arith, (omega arith, tt)))),
  (omega arith, ((omega arith, (omega arith, tt)), (omega arith, refl, tt))),
)

run-log_run_example :
    (after : Tree) × (run plain changes [] ≡ ok after)
    × ((i : ℕ) → i < 2 ^ 64 → log_of plain after i ≡ log_run plain changes (log_of plain []) i)
run-log_run_example = run-log_run plain changes [] changes-AreStorable

abbrev last_index : ℕ
last_index = u64_max

log_range_keys_lem_example :
    (range : Option (Bytes × Bytes)) × (log_range_keys 3 (excluded 5) (included last_index)
      ≡ ok range)
    × (is_in range (raft_log_entry 3 last_index) ≡ (ltb 5 last_index && leb last_index last_index))
log_range_keys_lem_example =
    log_range_keys_lem 3 last_index (excluded 5) (included last_index) (omega arith) (omega arith)
      (omega arith)

abbrev key_four : Bytes
key_four = 1 ∷ 0 ∷ 0 ∷ 0 ∷ 0 ∷ 0 ∷ 0 ∷ 0 ∷ 3 ∷ 1 ∷ 0 ∷ 0 ∷ 0 ∷ 0 ∷ 0 ∷ 0 ∷ 0 ∷ 4 ∷ []

abbrev key_five : Bytes
key_five = 1 ∷ 0 ∷ 0 ∷ 0 ∷ 0 ∷ 0 ∷ 0 ∷ 0 ∷ 3 ∷ 1 ∷ 0 ∷ 0 ∷ 0 ∷ 0 ∷ 0 ∷ 0 ∷ 0 ∷ 5 ∷ []

abbrev two_entries : Tree
two_entries = (key_four, 4 ∷ []) ∷ (key_five, 5 ∷ []) ∷ []

two_entries-IsSorted : IsSorted two_entries
unfolding IsSorted list_cmp
two_entries-IsSorted = ((refl, tt), (tt, tt))

two_records : log_records plain two_entries ≡ two_entries
unfolding retain raft_log_prefix raft_vote sub_prefix to_be_bytes list_cmp
two_records = refl

one_of_two :
    (k v : Bytes)
    → get k two_entries ≡ some v
    → ((k ≡ key_four) × (v ≡ 4 ∷ [])) ⊎ ((k ≡ key_five) × (v ≡ 5 ∷ []))
unfolding get
one_of_two k v h = elim (Bool-cases (k == key_four)) [
  | inl four ↦ inl ((eq_iff k key_four).0 four, ground (arith, h, four))
  | inr other ↦ elim (Bool-cases (k == key_five)) [
    | inl five ↦ inr ((eq_iff k key_five).0 five, ground (arith, h, other, five))
    | inr neither ↦ absurd (ground (arith, h, other, neither))
  ]
]

two_entries_lem : (k v : Bytes) → get k (log_records plain two_entries) ≡ some v → IsEntry plain k v
unfolding raft_log_entry raft_log_prefix sub_prefix to_be_bytes
two_entries_lem k v h = elim (one_of_two k v (ap (get k) (sym two_records) ∙ h)) [
  | inl (key, value) ↦ record {
    entry = 4;
    at_index = key;
    word = omega arith;
    written = value;
    decodes = ap plain.entry_from_bytes value;
  }
  | inr (key, value) ↦ record {
    entry = 5;
    at_index = key;
    word = omega arith;
    written = value;
    decodes = ap plain.entry_from_bytes value;
  }
]

read_last_log_id_lem_example :
    ((read_last_log_id plain two_entries ≡ ok none)
      × ((i : ℕ) → get (raft_log_entry 3 i) two_entries ≡ none))
    ⊎ ((e : ℕ) × (read_last_log_id plain two_entries ≡ ok (some e))
        × (get (raft_log_entry 3 e) two_entries ≡ some (e ∷ []))
        × ((i : ℕ) → i < 2 ^ 64 → e < i → get (raft_log_entry 3 i) two_entries ≡ none))
read_last_log_id_lem_example =
    read_last_log_id_lem plain two_entries two_entries-IsSorted two_entries_lem
