-- ===== src/Fuse/Inodes/Laws.antt =====
-- The two maps of an `InodeTable`.
use eventfs.Prelude.Words.{u64_max}
use eventfs.Prelude.{
  ℕ, ◌+◌, ◌≤◌, ◌<◌, ◌≡◌, ◌↔◌, refl, ◌||◌, none, some, List, [], ◌∷◌, length, Ord, ◌==◌, eq_iff,
  eq_refl, nat_ord, Option-cases, Bool-cases, inl, inr, arith,
}
use eventfs.BTreeMap.{get, contains_key}
use eventfs.BTreeMap.Laws.{get-insert, get-remove}
use eventfs.Fuse.Inodes.{
  root_inode, InodeTable, new, node, inode, count_down, retain_directory, ensure, remember_lookup,
  remove_if_unreferenced, forget, release_directory,
}

-- What the front end does to the table.
pub data Operation (Node : Type 0) : Type 0 where
  ensure_op lookup_op : Node → ℕ → Operation Node
  forget_op : ℕ → ℕ → Operation Node
  retain_op release_op : ℕ → Operation Node

module _ {Node : Type 0} ⦃o : Ord Node⦄ where
  unfoldable pub step : InodeTable Node → Operation Node → InodeTable Node
  unfolding ensure remember_lookup forget release_directory
  step t (ensure_op n bytes) = (ensure t n bytes).0
  step t (lookup_op n bytes) = (remember_lookup t n bytes).0
  step t (forget_op ino count) = forget t ino count
  step t (retain_op ino) = retain_directory t ino
  step t (release_op ino) = release_directory t ino

  unfoldable pub run : InodeTable Node → List (Operation Node) → InodeTable Node
  unfolding step
  run t [] = t
  run t (op ∷ ops) = run (step t op) ops

  -- The maps are inverse to each other, the numbers in use are below the next one, and the root stays.
  pub record IsTable (root : Node) (t : InodeTable Node) : Type 0 where
    pub inverse : (ino : ℕ) (n : Node) → node t ino ≡ some n ↔ (inode t n ≡ some ino)
    pub below : (ino : ℕ) (n : Node) → node t ino ≡ some n → ino < t.next
    pub has_root : node t root_inode ≡ some root

  -- A new node is given the next number.
  grown :
      (root n : Node) (bytes : ℕ) (t : InodeTable Node)
      → inode t n ≡ none
      → t.next < u64_max
      → IsTable root t
      → IsTable root (ensure t n bytes).0
  unfolding ensure
  grown root n bytes t absent room v =
      rw (absent, ensure)
        (record {
          inverse = λ ino m. (
            λ h. ground (
              arith,
              h,
              get-insert ino t.next n t.by_inode,
              get-insert m n t.next t.by_node,
              eq_iff ino t.next,
              eq_iff m n,
              eq_refl n,
              (v.inverse ino m).0,
              absent,
            ),
            λ h. ground (
              arith,
              h,
              get-insert ino t.next n t.by_inode,
              get-insert m n t.next t.by_node,
              eq_iff ino t.next,
              eq_iff m n,
              (v.inverse ino m).1,
              v.below ino m,
            ),
          );
          below = λ ino m h. ground (
            arith,
            h,
            room,
            get-insert ino t.next n t.by_inode,
            eq_iff ino t.next,
            v.below ino m,
          );
          has_root = ground (
            arith,
            v.has_root,
            v.below root_inode root,
            get-insert root_inode t.next n t.by_inode,
            eq_iff root_inode t.next,
          );
        })

  ensure-IsTable :
      (root n : Node) (bytes : ℕ) (t : InodeTable Node)
      → t.next < u64_max
      → IsTable root t
      → IsTable root (ensure t n bytes).0 × ((ensure t n bytes).0.next ≤ t.next + 1)
  unfolding ensure
  ensure-IsTable root n bytes t room v = elim (Option-cases (get n t.by_node)) [
    | inl absent ↦ (grown root n bytes t absent room v, ground (arith, absent, room))
    | inr (ino, present) ↦
        rw (present, ensure)
          (record { inverse = v.inverse; below = v.below; has_root = v.has_root }, omega arith)
  ]

  remove-IsTable :
      (root : Node) (ino : ℕ) (t : InodeTable Node)
      → IsTable root t
      → IsTable root (remove_if_unreferenced t ino)
  unfolding remove_if_unreferenced
  remove-IsTable root ino t v =
      elim (Bool-cases (
        ino == root_inode || contains_key ino t.lookup_refs || contains_key ino t.directory_refs)) [
          | inl held ↦ rw held v
          | inr free ↦ elim (Option-cases (get ino t.by_inode)) [
            | inl absent ↦ rw (free, absent) v
            | inr (n, present) ↦
                rw (free, present)
                  (record {
                    inverse = λ i m. (
                      λ h. ground (
                        arith,
                        h,
                        get-remove i ino t.by_inode,
                        get-remove m n t.by_node,
                        eq_iff i ino,
                        eq_iff m n,
                        (v.inverse i m).0,
                        (v.inverse ino n).0 present,
                      ),
                      λ h. ground (
                        arith,
                        h,
                        get-remove i ino t.by_inode,
                        get-remove m n t.by_node,
                        eq_iff i ino,
                        eq_iff m n,
                        (v.inverse i m).1,
                        (v.inverse ino n).0 present,
                      ),
                    );
                    below = λ i m h. ground (arith, h, get-remove i ino t.by_inode, v.below i m);
                    has_root = ground (
                      arith,
                      free,
                      v.has_root,
                      get-remove root_inode ino t.by_inode,
                      eq_iff root_inode ino,
                      eq_iff ino root_inode,
                    );
                  })
          ]
        ]

  -- The counts are not in it.
  recounted :
      (root : Node) (t u : InodeTable Node)
      → u.by_inode ≡ t.by_inode
      → u.by_node ≡ t.by_node
      → u.next ≡ t.next
      → IsTable root t
      → IsTable root u
  recounted root t u a b c v = record {
    inverse = λ ino n. rw (a, b) (v.inverse ino n);
    below = λ ino n. rw (a, c) (v.below ino n);
    has_root = rw a v.has_root;
  }

  next-remove : (t : InodeTable Node) (ino : ℕ) → (remove_if_unreferenced t ino).next ≡ t.next
  unfolding remove_if_unreferenced
  next-remove t ino = elim (Option-cases (get ino t.by_inode)) [
    | inl absent ↦ ground (arith, absent)
    | inr (n, present) ↦ ground (arith, present)
  ]

  pub step-IsTable :
      (root : Node) (t : InodeTable Node) (op : Operation Node)
      → t.next < u64_max
      → IsTable root t
      → IsTable root (step t op) × ((step t op).next ≤ t.next + 1)
  unfolding step remember_lookup forget release_directory
  step-IsTable root t (ensure_op n bytes) room v = ensure-IsTable root n bytes t room v
  step-IsTable root t (lookup_op n bytes) room v =
      let (w, next) = ensure-IsTable root n bytes t room v in
      (recounted root (ensure t n bytes).0 (remember_lookup t n bytes).0 refl refl refl w, next)
  step-IsTable root t (forget_op ino count) room v =
      let u : InodeTable Node = record t { lookup_refs = count_down ino count t.lookup_refs } in
      (
        remove-IsTable root ino u (recounted root t u refl refl refl v),
        omega (arith, next-remove u ino),
      )
  step-IsTable root t (retain_op ino) room v =
      (recounted root t (retain_directory t ino) refl refl refl v, omega arith)
  step-IsTable root t (release_op ino) room v =
      let u : InodeTable Node = record t { directory_refs = count_down ino 1 t.directory_refs } in
      (
        remove-IsTable root ino u (recounted root t u refl refl refl v),
        omega (arith, next-remove u ino),
      )

  pub run-IsTable :
      (root : Node) (t : InodeTable Node) (ops : List (Operation Node))
      → t.next + length ops ≤ u64_max
      → IsTable root t
      → IsTable root (run t ops)
  unfolding run
  run-IsTable root t [] room v = v
  run-IsTable root t (op ∷ ops) room v =
      let (w, next) = step-IsTable root t op (omega (arith, room)) v in
      run-IsTable root (step t op) ops (omega (arith, room, next)) w

  new-IsTable : (root : Node) → IsTable root (new root)
  unfolding get
  new-IsTable root = record {
    inverse = λ ino n. (
      λ h. ground (arith, h, eq_refl n, eq_iff ino root_inode),
      λ h. ground (arith, h, eq_iff n root, eq_refl ino),
    );
    below = λ ino n h. ground (arith, h, eq_iff ino root_inode);
    has_root = ground (arith, eq_refl root_inode);
  }

  -- Over any operations on a new table, fewer than there are numbers, the two maps stay inverse to each
  -- other, every number in use is below the next one, and the root keeps its number.
  pub run-new-IsTable :
      (root : Node) (ops : List (Operation Node))
      → 2 + length ops ≤ u64_max
      → IsTable root (run (new root) ops)
  run-new-IsTable root ops room = run-IsTable root (new root) ops room (new-IsTable root)
