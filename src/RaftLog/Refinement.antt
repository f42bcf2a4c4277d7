-- ===== src/RaftLog/Refinement.antt =====
-- The Raft log against an abstract log: a function from indices to stored entries.
use eventfs.Prelude.{
  ℕ, ◌<◌, ◌^◌, ◌≡◌, refl, ap, ◌∙◌, Option, none, some, List, [], ◌∷◌, nat_ord, list_ord, leb,
  if◌then◌else◌, ok, ◌>>=◌, arith, ◌==◌,
}
use eventfs.Prelude.Ordered.{is_eq}
use eventfs.Bytes.{Bytes}
use eventfs.BTreeMap.{get, insert}
use eventfs.BTreeMap.Laws.{get-insert}
use eventfs.Key.{raft_log_entry, raft_log_prefix, sub_prefix}
use eventfs.Snapshot.Install.{Tree, insert_all}
use eventfs.RaftLog.{LogTypes, Stored, append, truncate, purge}
use eventfs.RaftLog.Keys.{entry_order}
use eventfs.RaftLog.Laws.{IsOutside, get-truncate, get-purge}

-- A log: what is stored at each index.
abbrev pub Log : Type 0
Log = ℕ → Option Bytes

pub data Operation (Entry LogId : Type 0) : Type 0 where
  append_op : List Entry → Operation Entry LogId
  truncate_op purge_op : LogId → Operation Entry LogId

module _ {Entry LogId Vote : Type 0} (c : LogTypes Entry LogId Vote) where
  unfoldable pub step : Operation Entry LogId → Tree → Stored Tree
  unfolding truncate purge
  step (append_op entries) t = ok (append c entries t)
  step (truncate_op log_id) t = truncate c log_id t
  step (purge_op log_id) t = purge c log_id t

  unfoldable pub run : List (Operation Entry LogId) → Tree → Stored Tree
  unfolding step
  run [] t = ok t
  run (op ∷ ops) t = step op t >>= run ops

  -- The same operations on the abstract log.
  abbrev pub append_log : List Entry → Log → Log
  append_log [] log = log
  append_log (entry ∷ entries) log =
      append_log entries
        (λ i. if i == c.index (c.log_id entry) then some (c.entry_to_bytes entry) else log i)

  abbrev pub log_step : Operation Entry LogId → Log → Log
  log_step (append_op entries) log = append_log entries log
  log_step (truncate_op log_id) log = λ i. if leb (c.index log_id) i then none else log i
  log_step (purge_op log_id) log = λ i. if leb i (c.index log_id) then none else log i

  abbrev pub log_run : List (Operation Entry LogId) → Log → Log
  log_run [] log = log
  log_run (op ∷ ops) log = log_run ops (log_step op log)

  abbrev pub log_of : Tree → Log
  log_of t i = get (raft_log_entry c.shard_id i) t

  -- All indices are `u64`, and the identity of a purge is read back.
  unfoldable pub AreIndexed : List Entry → Type 0
  AreIndexed [] = Unit
  AreIndexed (entry ∷ entries) = (c.index (c.log_id entry) < 2 ^ 64) × AreIndexed entries

  unfoldable pub AreStorable : List (Operation Entry LogId) → Type 0
  AreStorable [] = Unit
  AreStorable (append_op entries ∷ ops) = AreIndexed entries × AreStorable ops
  AreStorable (truncate_op log_id ∷ ops) = (c.index log_id < 2 ^ 64) × AreStorable ops
  AreStorable (purge_op log_id ∷ ops) =
      (c.index log_id < 2 ^ 64)
      × (c.log_id_from_bytes (c.log_id_to_bytes (some log_id)) ≡ some (some log_id))
      × AreStorable ops

  Agrees : Tree → Log → Type 0
  Agrees t log = (i : ℕ) → i < 2 ^ 64 → log_of t i ≡ log i

  append-Agrees :
      (entries : List Entry) (t : Tree) (log : Log)
      → AreIndexed entries
      → Agrees t log
      → Agrees (append c entries t) (append_log entries log)
  unfolding Agrees AreIndexed insert_all
  append-Agrees [] t log v a = a
  append-Agrees (entry ∷ entries) t log (h, v) a =
      let key = raft_log_entry c.shard_id (c.index (c.log_id entry)) in
      let value = c.entry_to_bytes entry in
      append-Agrees entries (insert key value t)
        (λ i. if i == c.index (c.log_id entry) then some value else log i) v
        (λ i hi.
          get-insert (raft_log_entry c.shard_id i) key value t
          ∙ ap (λ o. if is_eq o then some value else log_of t i)
              (entry_order c.shard_id i (c.index (c.log_id entry)) hi h)
          ∙ ap (λ z. if i == c.index (c.log_id entry) then some value else z) (a i hi))

  nothing-IsOutside : IsOutside c.shard_id []
  unfolding raft_log_prefix sub_prefix
  nothing-IsOutside = (tt, λ rest e. ground arith)

  -- Two outcomes of one step are the same.
  one_outcome :
      (t u v : Tree) (op : Operation Entry LogId) → step op t ≡ ok u → step op t ≡ ok v → v ≡ u
  one_outcome t u v op a b = ground (arith, a, b)

  step-Agrees :
      (op : Operation Entry LogId) (t : Tree) (log : Log)
      → AreStorable (op ∷ [])
      → Agrees t log
      → (after : Tree) × (step op t ≡ ok after) × Agrees after (log_step op log)
  unfolding Agrees step AreStorable
  step-Agrees (append_op entries) t log (v, u) a =
      (append c entries t, refl, append-Agrees entries t log v a)
  step-Agrees (truncate_op log_id) t log (h, u) a =
      let (after, cut, at, others) =
        get-truncate c log_id t 0 [] h (omega arith) nothing-IsOutside in
      (
        after,
        cut,
        λ i hi.
            let (same, cut_too, there, rest) =
              get-truncate c log_id t i [] h hi nothing-IsOutside in
            ap (λ z. log_of z i) (one_outcome t same after (truncate_op log_id) cut_too cut)
            ∙ there
            ∙ ap (λ z. if leb (c.index log_id) i then none else z) (a i hi),
      )
  step-Agrees (purge_op log_id) t log (h, d, u) a =
      let (after, cut, at, read, others) =
        get-purge c log_id t 0 [] h d (omega arith) nothing-IsOutside in
      (
        after,
        cut,
        λ i hi.
            let (same, cut_too, there, read_too, rest) =
              get-purge c log_id t i [] h d hi nothing-IsOutside in
            ap (λ z. log_of z i) (one_outcome t same after (purge_op log_id) cut_too cut)
            ∙ there
            ∙ ap (λ z. if leb i (c.index log_id) then none else z) (a i hi),
      )

  first_of :
      (op : Operation Entry LogId) (ops : List (Operation Entry LogId))
      → AreStorable (op ∷ ops)
      → AreStorable (op ∷ []) × AreStorable ops
  unfolding AreStorable
  first_of (append_op entries) ops (v, u) = ((v, tt), u)
  first_of (truncate_op log_id) ops (h, u) = ((h, tt), u)
  first_of (purge_op log_id) ops (h, d, u) = ((h, d, tt), u)

  run-Agrees :
      (ops : List (Operation Entry LogId)) (t : Tree) (log : Log)
      → AreStorable ops
      → Agrees t log
      → (after : Tree) × (run ops t ≡ ok after) × Agrees after (log_run ops log)
  unfolding run
  run-Agrees [] t log v a = (t, refl, a)
  run-Agrees (op ∷ ops) t log v a =
      let (here, later) = first_of op ops v in
      let (next, stepped, b) = step-Agrees op t log here a in
      let (after, ran, e) = run-Agrees ops next (log_step op log) later b in
      (after, rw (stepped, ran) refl, e)

  -- Appends, truncations and purges in any order succeed, and at every `u64` index the engine then
  -- has what the same operations on the abstract log leave there: an append puts its entries at their
  -- indices, the last one for an index over the others, a truncation removes the indices from its own on, and
  -- a purge those up to its own. The indices of the entries and of the operations are `u64`, and the
  -- identities of the purges are read back from their encoding.
  pub run-log_run :
      (ops : List (Operation Entry LogId)) (t : Tree)
      → AreStorable ops
      → (after : Tree) × (run ops t ≡ ok after)
        × ((i : ℕ) → i < 2 ^ 64 → log_of after i ≡ log_run ops (log_of t) i)
  unfolding Agrees
  run-log_run ops t v = run-Agrees ops t (log_of t) v (λ i hi. refl)
