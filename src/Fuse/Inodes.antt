-- ===== src/Fuse/Inodes.antt =====
-- eventfs-fuse/src/fuse.rs: `InodeTable`, over any type of nodes with an order and a root. Its `HashMap`s,
-- which are never iterated, are maps in the order of their keys, and a reference count wraps as `+=`
-- does in a release build.
pub mod Laws
pub mod Held
use eventfs.Prelude.Words.{u64_max, sat_add64}
use eventfs.Prelude.{
  ℕ, ◌+◌, ◌-◌, ◌%◌, ◌^◌, Bool, true, false, ◌||◌, Option, none, some, List, [], ◌∷◌, Ord, ◌==◌,
  nat_ord, unwrap_or, if◌then◌else◌,
}
use eventfs.BTreeMap.{BTreeMap, get, insert, remove, contains_key}

-- `INodeNo::ROOT`
abbrev pub root_inode : ℕ
root_inode = 1

pub record InodeTable (Node : Type 0) : Type 0 where
  pub next : ℕ
  pub by_inode : BTreeMap ℕ Node
  pub by_node : BTreeMap Node ℕ
  pub sizes : BTreeMap ℕ ℕ
  pub lookup_refs : BTreeMap ℕ ℕ
  pub directory_refs : BTreeMap ℕ ℕ

-- `*refs.entry(ino).or_default() += 1`
abbrev pub count_up : ℕ → BTreeMap ℕ ℕ → BTreeMap ℕ ℕ
count_up ino refs = insert ino ((unwrap_or (get ino refs) 0 + 1) % 2 ^ 64) refs

-- The value goes down by `count`, and its entry goes with the last reference.
unfoldable pub count_down : ℕ → ℕ → BTreeMap ℕ ℕ → BTreeMap ℕ ℕ
count_down ino count refs = elim (get ino refs) [
  | none ↦ refs
  | some value ↦ if value - count == 0 then remove ino refs else insert ino (value - count) refs
]

module _ {Node : Type 0} where
  abbrev pub new : Node → InodeTable Node
  new root = record {
    next = root_inode + 1;
    by_inode = (root_inode, root) ∷ [];
    by_node = (root, root_inode) ∷ [];
    sizes = [];
    lookup_refs = [];
    directory_refs = [];
  }

  abbrev pub node : InodeTable Node → ℕ → Option Node
  node t ino = get ino t.by_inode

  abbrev pub size : InodeTable Node → ℕ → ℕ
  size t ino = unwrap_or (get ino t.sizes) 0

  abbrev pub retain_directory : InodeTable Node → ℕ → InodeTable Node
  retain_directory t ino = record t { directory_refs = count_up ino t.directory_refs }

module _ {Node : Type 0} ⦃o : Ord Node⦄ where
  abbrev pub inode : InodeTable Node → Node → Option ℕ
  inode t n = get n t.by_node

  unfoldable pub ensure : InodeTable Node → Node → ℕ → InodeTable Node × ℕ
  ensure t n bytes = elim (get n t.by_node) [
    | some ino ↦ (record t { sizes = insert ino bytes t.sizes }, ino)
    | none ↦ (
      record t {
        next = sat_add64 t.next 1;
        by_inode = insert t.next n t.by_inode;
        by_node = insert n t.next t.by_node;
        sizes = insert t.next bytes t.sizes;
      },
      t.next,
    )
  ]

  unfoldable pub remember_lookup : InodeTable Node → Node → ℕ → InodeTable Node × ℕ
  unfolding ensure
  remember_lookup t n bytes =
      let (after, ino) = ensure t n bytes in
      (record after { lookup_refs = count_up ino after.lookup_refs }, ino)

  unfoldable pub remove_if_unreferenced : InodeTable Node → ℕ → InodeTable Node
  remove_if_unreferenced t ino =
      if ino == root_inode || contains_key ino t.lookup_refs || contains_key ino t.directory_refs
      then t
      else elim (get ino t.by_inode) [
        | none ↦ t
        | some n ↦ record t {
          by_inode = remove ino t.by_inode;
          by_node = remove n t.by_node;
          sizes = remove ino t.sizes;
        }
      ]

  unfoldable pub forget : InodeTable Node → ℕ → ℕ → InodeTable Node
  unfolding remove_if_unreferenced
  forget t ino count =
      remove_if_unreferenced (record t { lookup_refs = count_down ino count t.lookup_refs }) ino

  unfoldable pub release_directory : InodeTable Node → ℕ → InodeTable Node
  unfolding remove_if_unreferenced
  release_directory t ino =
      remove_if_unreferenced (record t { directory_refs = count_down ino 1 t.directory_refs }) ino
