-- ===== src/StateMachine/Writes.antt =====
-- The pending writes of a batch and the storage that they lead to.
use mathlib.Core.List.{append_assoc, append-nil}
use mathlib.Core.Path.{subst}
use eventfs.Prelude.{
  ℕ, ◌≡◌, refl, ◌∙◌, sym, ap, List, [], ◌∷◌, ◌++◌, ◌==◌, eq_iff, nat_ord, list_ord, pair_ord, Bool,
  true, false, all, Bool-cases, inl, inr, arith,
}
use eventfs.BTreeMap.{get, insert}
use eventfs.BTreeMap.Laws.{get-insert}
use eventfs.Identifier.{type_id_ord}
use eventfs.Group.{AggregateGroupPartition}
use eventfs.StateMachine.{
  PartitionKey, InstanceKey, Storage, ApplyOp, put_event, put_meta, put_partition_index,
  put_next_position, put_state, put_state_modified, put_idempotency, put_partition_fence,
  put_catalog, put_group_catalog, put_group_partition, write, write_all,
}
use eventfs.StateMachine.Batch.{is_write_of, drop_writes_of}
use eventfs.StateMachine.Tracking.{forget, Written}

pub write_all-append :
    (a b : List ApplyOp) (s : Storage) → write_all (a ++ b) s ≡ write_all b (write_all a s)
unfolding write_all
write_all-append [] b s = refl
write_all-append (op ∷ a) b s = write_all-append a b (write op s)

-- A write has the same effect on storages that agree.
forget-write :
    (op : ApplyOp) (s m : Storage) → forget s ≡ forget m → forget (write op s) ≡ forget (write op m)
unfolding write
forget-write (put_event k v) s m h = ap (λ z. forget (write (put_event k v) z)) h
forget-write (put_meta k v) s m h = ap (λ z. forget (write (put_meta k v) z)) h
forget-write (put_partition_index k v) s m h =
    ap (λ z. forget (write (put_partition_index k v) z)) h
forget-write (put_next_position k v) s m h = ap (λ z. forget (write (put_next_position k v) z)) h
forget-write (put_state k v) s m h = ap (λ z. forget (write (put_state k v) z)) h
forget-write (put_state_modified k v) s m h = ap (λ z. forget (write (put_state_modified k v) z)) h
forget-write (put_idempotency k v) s m h = ap (λ z. forget (write (put_idempotency k v) z)) h
forget-write (put_partition_fence k v) s m h =
    ap (λ z. forget (write (put_partition_fence k v) z)) h
forget-write (put_catalog v) s m h = ap (λ z. forget (write (put_catalog v) z)) h
forget-write (put_group_catalog v) s m h = ap (λ z. forget (write (put_group_catalog v) z)) h
forget-write (put_group_partition k v) s m h =
    ap (λ z. forget (write (put_group_partition k v) z)) h

-- Neither a position nor a group partition is written.
unfoldable pub is_plain : ApplyOp → Bool
is_plain (put_next_position k v) = false
is_plain (put_group_partition k v) = false
is_plain _ = true

plain_rest :
    (op : ApplyOp) (s : Storage)
    → is_plain op ≡ true
    → ((write op s).next_positions ≡ s.next_positions)
      × ((write op s).group_partitions ≡ s.group_partitions)
unfolding write is_plain
plain_rest (put_event k v) s h = (refl, refl)
plain_rest (put_meta k v) s h = (refl, refl)
plain_rest (put_partition_index k v) s h = (refl, refl)
plain_rest (put_next_position k v) s h = ground arith
plain_rest (put_state k v) s h = (refl, refl)
plain_rest (put_state_modified k v) s h = (refl, refl)
plain_rest (put_idempotency k v) s h = (refl, refl)
plain_rest (put_partition_fence k v) s h = (refl, refl)
plain_rest (put_catalog v) s h = (refl, refl)
plain_rest (put_group_catalog v) s h = (refl, refl)
plain_rest (put_group_partition k v) s h = ground arith

Written-plain :
    (op : ApplyOp) (ops : List ApplyOp) (s m : Storage)
    → is_plain op ≡ true
    → Written ops s m
    → Written (ops ++ op ∷ []) s (write op m)
unfolding write_all
Written-plain op ops s m p w =
    let e : write_all (ops ++ op ∷ []) s ≡ write op (write_all ops s) =
      write_all-append ops (op ∷ []) s in
    let (positions, groups) = plain_rest op (write_all ops s) p in
    let (positions', groups') = plain_rest op m p in
    record {
      same = ap forget e ∙ forget-write op (write_all ops s) m w.same;
      positions = ap (λ z. z.next_positions) e ∙ positions ∙ w.positions;
      groups = λ k.
          ap (λ z. get k z.group_partitions) e
          ∙ ap (get k) groups
          ∙ w.groups k
          ∙ sym (ap (get k) groups');
    }

-- Plain writes at the end of a batch.
pub Written-append :
    (new ops : List ApplyOp) (s m : Storage)
    → all is_plain new ≡ true
    → Written ops s m
    → Written (ops ++ new) s (write_all new m)
unfolding write_all
Written-append [] ops s m p w = rw append-nil w
Written-append (op ∷ new) ops s m p w =
    subst (λ l. Written l s (write_all new (write op m))) (append_assoc ops (op ∷ []) new)
      (Written-append new (ops ++ op ∷ []) s (write op m) (ground arith)
        (Written-plain op ops s m (ground arith) w))

pub Written-position :
    (k : PartitionKey) (n : ℕ) (ops : List ApplyOp) (s m : Storage)
    → Written ops s m
    → Written ops s (write (put_next_position k n) m)
unfolding write
Written-position k n ops s m w = record {
  same = w.same;
  positions = w.positions;
  groups = w.groups;
}

-- Storages that differ in one group partition at most.
record Similar (k : InstanceKey) (s m : Storage) : Type 0 where
  same : forget s ≡ forget m
  positions : s.next_positions ≡ m.next_positions
  groups :
      (j : InstanceKey) → (j == k) ≡ false → get j s.group_partitions ≡ get j m.group_partitions

module _ (k : InstanceKey) where
  positions-write :
      (op : ApplyOp) (s m : Storage)
      → s.next_positions ≡ m.next_positions
      → (write op s).next_positions ≡ (write op m).next_positions
  unfolding write
  positions-write (put_event i v) s m h = h
  positions-write (put_meta i v) s m h = h
  positions-write (put_partition_index i v) s m h = h
  positions-write (put_next_position i v) s m h = ap (insert i v) h
  positions-write (put_state i v) s m h = h
  positions-write (put_state_modified i v) s m h = h
  positions-write (put_idempotency i v) s m h = h
  positions-write (put_partition_fence i v) s m h = h
  positions-write (put_catalog v) s m h = h
  positions-write (put_group_catalog v) s m h = h
  positions-write (put_group_partition i v) s m h = h

  groups-write :
      (op : ApplyOp) (j : InstanceKey) (s m : Storage)
      → get j s.group_partitions ≡ get j m.group_partitions
      → get j (write op s).group_partitions ≡ get j (write op m).group_partitions
  unfolding write
  groups-write (put_event i v) j s m h = h
  groups-write (put_meta i v) j s m h = h
  groups-write (put_partition_index i v) j s m h = h
  groups-write (put_next_position i v) j s m h = h
  groups-write (put_state i v) j s m h = h
  groups-write (put_state_modified i v) j s m h = h
  groups-write (put_idempotency i v) j s m h = h
  groups-write (put_partition_fence i v) j s m h = h
  groups-write (put_catalog v) j s m h = h
  groups-write (put_group_catalog v) j s m h = h
  groups-write (put_group_partition i v) j s m h =
      ground (arith, get-insert j i v s.group_partitions, get-insert j i v m.group_partitions)

  Similar-write :
      (op : ApplyOp) (s m : Storage) → Similar k s m → Similar k (write op s) (write op m)
  Similar-write op s m h = record {
    same = forget-write op s m h.same;
    positions = positions-write op s m h.positions;
    groups = λ j n. groups-write op j s m (h.groups j n);
  }

  Similar-dropped :
      (op : ApplyOp) (s m : Storage)
      → is_write_of k op ≡ true
      → Similar k s m
      → Similar k s (write op m)
  unfolding write is_write_of
  Similar-dropped (put_event i v) s m e h = ground arith
  Similar-dropped (put_meta i v) s m e h = ground arith
  Similar-dropped (put_partition_index i v) s m e h = ground arith
  Similar-dropped (put_next_position i v) s m e h = ground arith
  Similar-dropped (put_state i v) s m e h = ground arith
  Similar-dropped (put_state_modified i v) s m e h = ground arith
  Similar-dropped (put_idempotency i v) s m e h = ground arith
  Similar-dropped (put_partition_fence i v) s m e h = ground arith
  Similar-dropped (put_catalog v) s m e h = ground arith
  Similar-dropped (put_group_catalog v) s m e h = ground arith
  Similar-dropped (put_group_partition i v) s m e h = record {
    same = h.same;
    positions = h.positions;
    groups = λ j n. ground (
      arith,
      h.groups j n,
      get-insert j i v m.group_partitions,
      eq_iff i k,
      eq_iff j i,
      eq_iff j k,
    );
  }

  Similar-drop :
      (ops : List ApplyOp) (s m : Storage)
      → Similar k s m
      → Similar k (write_all (drop_writes_of k ops) s) (write_all ops m)
  unfolding drop_writes_of write_all
  Similar-drop [] s m h = h
  Similar-drop (op ∷ ops) s m h = elim (Bool-cases (is_write_of k op)) [
    | inl e ↦ rw e (Similar-drop ops s (write op m) (Similar-dropped op s m e h))
    | inr e ↦ rw e (Similar-drop ops (write op s) (write op m) (Similar-write op s m h))
  ]

  -- The writes to a group partition are replaced by one at the end.
  pub Written-group :
      (v : AggregateGroupPartition) (ops : List ApplyOp) (s m : Storage)
      → Written ops s m
      → Written
          (drop_writes_of k ops ++ put_group_partition k v ∷ [])
          s
          (write (put_group_partition k v) m)
  unfolding write write_all
  Written-group v ops s m w =
      let dropped = drop_writes_of k ops in
      let op = put_group_partition k v in
      let e : write_all (dropped ++ op ∷ []) s ≡ write op (write_all dropped s) =
        write_all-append dropped (op ∷ []) s in
      let h =
        Similar-drop ops s s (record { same = refl; positions = refl; groups = λ j n. refl }) in
      record {
        same = ap forget e ∙ h.same ∙ w.same;
        positions = ap (λ z. z.next_positions) e ∙ h.positions ∙ w.positions;
        groups = λ j.
            ap (λ z. get j z.group_partitions) e
            ∙ ground (
              arith,
              get-insert j k v (write_all dropped s).group_partitions,
              get-insert j k v m.group_partitions,
              h.groups j,
              w.groups j,
            );
      }
