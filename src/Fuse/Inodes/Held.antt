-- ===== src/Fuse/Inodes/Held.antt =====
-- Inodes that the kernel holds a lookup of.
use eventfs.Prelude.Words.{u64_max}
use eventfs.Prelude.{
  ℕ, suc, ◌+◌, ◌-◌, ◌%◌, ◌^◌, ◌≤◌, ◌<◌, ◌≡◌, ◌||◌, some, List, [], ◌∷◌, length, Ord, ◌==◌, eq_iff,
  nat_ord, unwrap_or, if◌then◌else◌, Option-cases, Bool-cases, inl, inr, arith,
}
use eventfs.BTreeMap.{BTreeMap, get, contains_key}
use eventfs.BTreeMap.Laws.{get-insert, get-remove}
use eventfs.Fuse.Inodes.{
  root_inode, InodeTable, node, inode, count_up, count_down, retain_directory, ensure,
  remember_lookup, remove_if_unreferenced, forget, release_directory,
}
use eventfs.Fuse.Inodes.Laws.{
  Operation, ensure_op, lookup_op, forget_op, retain_op, release_op, step, run, IsTable,
  step-IsTable, run-IsTable,
}

-- How many lookups of an inode the operations forget.
unfoldable pub forgotten : {Node : Type 0} → ℕ → List (Operation Node) → ℕ
forgotten ino [] = 0
forgotten ino (forget_op i count ∷ ops) = (if i == ino then count else 0) + forgotten ino ops
forgotten ino (ensure_op n bytes ∷ ops) = forgotten ino ops
forgotten ino (lookup_op n bytes ∷ ops) = forgotten ino ops
forgotten ino (retain_op i ∷ ops) = forgotten ino ops
forgotten ino (release_op i ∷ ops) = forgotten ino ops

count_up_lem :
    (ino i k : ℕ) (refs : BTreeMap ℕ ℕ)
    → k < u64_max
    → get ino refs ≡ some k
    → (more : ℕ) × (get ino (count_up i refs) ≡ some more) × (k ≤ more) × (more ≤ k + 1)
count_up_lem ino i k refs room h = elim (Bool-cases (ino == i)) [
  | inl same ↦ (
    k + 1,
    ground (arith, same, h, room, eq_iff ino i, get-insert ino i ((k + 1) % 2 ^ 64) refs),
    omega arith,
    omega arith,
  )
  | inr other ↦ (
    k,
    ground (arith, other, h, get-insert ino i ((unwrap_or (get i refs) 0 + 1) % 2 ^ 64) refs),
    omega arith,
    omega arith,
  )
]

-- Fewer lookups are forgotten than are counted.
count_down_lem :
    (ino i k forgets : ℕ) (refs : BTreeMap ℕ ℕ)
    → get ino refs ≡ some k
    → (ino ≡ i → forgets < k)
    → get ino (count_down i forgets refs) ≡ some (if i == ino then k - forgets else k)
unfolding count_down
count_down_lem ino i k forgets refs h fewer = elim (Option-cases (get i refs)) [
  | inl absent ↦ ground (arith, absent, h, eq_iff i ino)
  | inr (v, present) ↦ ground (
    arith,
    present,
    h,
    fewer,
    eq_iff i ino,
    eq_iff ino i,
    get-remove ino i refs,
    get-insert ino i (v - forgets) refs,
  )
]

forgotten-cons :
    {Node : Type 0} (ino : ℕ) (op : Operation Node) (ops : List (Operation Node))
    → forgotten ino (op ∷ ops) ≡ forgotten ino (op ∷ []) + forgotten ino ops
unfolding forgotten
forgotten-cons ino (ensure_op n bytes) ops = omega arith
forgotten-cons ino (lookup_op n bytes) ops = omega arith
forgotten-cons ino (forget_op i count) ops = omega arith
forgotten-cons ino (retain_op i) ops = omega arith
forgotten-cons ino (release_op i) ops = omega arith

module _ {Node : Type 0} ⦃o : Ord Node⦄ where
  -- The inode has its node and more than `count` lookups, with room for `room` more.
  record IsHeld (ino : ℕ) (n : Node) (count room : ℕ) (t : InodeTable Node) : Type 0 where
    has_node : node t ino ≡ some n
    lookups : ℕ
    counted : get ino t.lookup_refs ≡ some lookups
    enough : count < lookups
    fits : lookups + room ≤ u64_max

  ensure-IsHeld :
      (ino count room : ℕ) (n m : Node) (bytes : ℕ) (t : InodeTable Node)
      → ino < t.next
      → IsHeld ino n count room t
      → IsHeld ino n count room (ensure t m bytes).0
  unfolding ensure
  ensure-IsHeld ino count room n m bytes t old h = elim (Option-cases (get m t.by_node)) [
    | inl absent ↦
        rw (absent, ensure)
          (record {
            has_node =
                ground
                  (arith, get-insert ino t.next m t.by_inode, eq_iff ino t.next, old, h.has_node);
            lookups = h.lookups;
            counted = h.counted;
            enough = h.enough;
            fits = h.fits;
          })
    | inr (i, present) ↦
        rw (present, ensure)
          (record {
            has_node = h.has_node;
            lookups = h.lookups;
            counted = h.counted;
            enough = h.enough;
            fits = h.fits;
          })
  ]

  -- A held inode is not removed.
  remove-IsHeld :
      (ino i count room : ℕ) (n : Node) (t : InodeTable Node)
      → IsHeld ino n count room t
      → IsHeld ino n count room (remove_if_unreferenced t i)
  unfolding remove_if_unreferenced
  remove-IsHeld ino i count room n t h =
      elim (Bool-cases
        (i == root_inode || contains_key i t.lookup_refs || contains_key i t.directory_refs)) [
          | inl kept ↦ rw kept h
          | inr free ↦ elim (Option-cases (get i t.by_inode)) [
            | inl absent ↦ rw (free, absent) h
            | inr (m, present) ↦
                rw (free, present)
                  (record {
                    has_node = ground (
                      arith,
                      free,
                      h.has_node,
                      h.counted,
                      get-remove ino i t.by_inode,
                      eq_iff ino i,
                    );
                    lookups = h.lookups;
                    counted = h.counted;
                    enough = h.enough;
                    fits = h.fits;
                  })
          ]
        ]

  -- The table with other counts, and the inode still held.
  recount :
      (ino count room lookups : ℕ) (n : Node) (t : InodeTable Node)
      → node t ino ≡ some n
      → get ino t.lookup_refs ≡ some lookups
      → count < lookups
      → lookups + room ≤ u64_max
      → IsHeld ino n count room t
  recount ino count room lookups n t a b c d = record {
    has_node = a;
    lookups = lookups;
    counted = b;
    enough = c;
    fits = d;
  }

  step-IsHeld :
      (ino count room : ℕ) (n : Node) (t : InodeTable Node) (op : Operation Node)
      → ino < t.next
      → IsHeld ino n (forgotten ino (op ∷ []) + count) (suc room) t
      → IsHeld ino n count room (step t op)
  unfolding step remember_lookup forget release_directory forgotten
  step-IsHeld ino count room n t (ensure_op m bytes) old h =
      ensure-IsHeld ino count room n m bytes t old (
        recount ino count room h.lookups n t h.has_node h.counted (omega (arith, h.enough))
          (omega (arith, h.fits)))
  step-IsHeld ino count room n t (lookup_op m bytes) old h =
      let (u, i) = ensure t m bytes in
      let k = ensure-IsHeld ino count (suc room) n m bytes t old (
        recount ino count (suc room) h.lookups n t h.has_node h.counted (omega (arith, h.enough))
          h.fits) in
      let (more, counted, at_least, at_most) =
        count_up_lem ino i k.lookups u.lookup_refs (omega (arith, k.fits)) k.counted in
      recount ino count room more n (remember_lookup t m bytes).0 k.has_node counted
        (omega (arith, k.enough, at_least)) (omega (arith, k.fits, at_most))
  step-IsHeld ino count room n t (forget_op i forgets) old h =
      let u : InodeTable Node = record t { lookup_refs = count_down i forgets t.lookup_refs } in
      remove-IsHeld ino i count room n u (
        recount ino count room (if i == ino then h.lookups - forgets else h.lookups) n u h.has_node
          (count_down_lem ino i h.lookups forgets t.lookup_refs h.counted
            (λ same. ground (arith, same, h.enough, eq_iff i ino)))
          (ground (arith, h.enough)) (ground (arith, h.fits)))
  step-IsHeld ino count room n t (retain_op i) old h =
      recount ino count room h.lookups n (retain_directory t i) h.has_node h.counted
        (omega (arith, h.enough)) (omega (arith, h.fits))
  step-IsHeld ino count room n t (release_op i) old h =
      let u : InodeTable Node = record t { directory_refs = count_down i 1 t.directory_refs } in
      remove-IsHeld ino i count room n u (
        recount ino count room h.lookups n u h.has_node h.counted (omega (arith, h.enough))
          (omega (arith, h.fits)))

  run-IsHeld :
      (root : Node) (ino : ℕ) (n : Node) (t : InodeTable Node) (ops : List (Operation Node))
      → t.next + length ops ≤ u64_max
      → IsTable root t
      → IsHeld ino n (forgotten ino ops) (length ops) t
      → node (run t ops) ino ≡ some n
  unfolding run
  run-IsHeld root ino n t [] room v h = h.has_node
  run-IsHeld root ino n t (op ∷ ops) room v h =
      let (w, next) = step-IsTable root t op (omega (arith, room)) v in
      let k = step-IsHeld ino (forgotten ino ops) (length ops) n t op (v.below ino n h.has_node) (
        recount ino (forgotten ino (op ∷ []) + forgotten ino ops) (suc (length ops)) h.lookups n t
          h.has_node h.counted (omega (arith, h.enough, forgotten-cons ino op ops)) h.fits) in
      run-IsHeld root ino n (step t op) ops (omega (arith, room, next)) w k

  -- In a table whose maps are inverse to each other, an inode keeps its node, and the node its inode,
  -- over any operations that forget fewer lookups of the inode than are counted, where neither the
  -- inode numbers nor the count can run out of a `u64`.
  pub run-node :
      (root n : Node) (ino lookups : ℕ) (t : InodeTable Node) (ops : List (Operation Node))
      → IsTable root t
      → t.next + length ops ≤ u64_max
      → lookups + length ops ≤ u64_max
      → node t ino ≡ some n
      → get ino t.lookup_refs ≡ some lookups
      → forgotten ino ops < lookups
      → (node (run t ops) ino ≡ some n) × (inode (run t ops) n ≡ some ino)
  run-node root n ino lookups t ops v room fits has_node counted enough =
      let kept =
        run-IsHeld root ino n t ops room v
          (recount ino (forgotten ino ops) (length ops) lookups n t has_node counted enough fits) in
      (kept, ((run-IsTable root t ops room v).inverse ino n).0 kept)
