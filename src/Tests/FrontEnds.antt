-- ===== src/Tests/FrontEnds.antt =====
-- Paths, open files and inodes of the file system front end.
use mathlib.Core.Path.{subst}
use eventfs.Prelude.{
  ℕ, ◌≡◌, ◌↔◌, refl, true, false, some, List, [], ◌∷◌, ◌++◌, Text, nat_ord, list_ord, length,
  Result, ok, arith,
}
use eventfs.BTreeMap.{get, insert}
use eventfs.Fuse.Paths.{Node, consumer, parse}
use eventfs.Fuse.Paths.Laws.{path_of, IsNode}
use eventfs.Fuse.Paths.Parse.{parse-path_of}
use eventfs.Fuse.Handles
use eventfs.Fuse.Handles.{BufferedWrite, committed, new, begin, finish, empty_stream}
use eventfs.Fuse.Handles.Commits
use eventfs.Fuse.Handles.Commits.{
  write_call, begin_call, finish_call, Handed, run-new-Handed, begin-finish,
}
use eventfs.Fuse.Handles.Streams
use eventfs.Fuse.Handles.Streams.{push_call, read_call, close_call, produced, run-empty_stream}
use eventfs.Fuse.Inodes
use eventfs.Fuse.Inodes.{InodeTable, node, inode, remember_lookup, ensure}
use eventfs.Fuse.Inodes.Laws
use eventfs.Fuse.Inodes.Laws.{
  Operation, lookup_op, ensure_op, forget_op, retain_op, release_op, IsTable, run-new-IsTable,
}
use eventfs.Fuse.Inodes.Held.{forgotten, run-node}

-- "/s/o/groups/g/c.jsonl"
abbrev consumer_path : Text
consumer_path =
    b'/' ∷ b's' ∷ b'/' ∷ b'o' ∷ b'/' ∷ b'g' ∷ b'r' ∷ b'o' ∷ b'u' ∷ b'p' ∷ b's' ∷ b'/' ∷ b'g' ∷ b'/'
    ∷ b'c' ∷ b'.' ∷ b'j' ∷ b's' ∷ b'o' ∷ b'n' ∷ b'l' ∷ []

abbrev consumer_node : Node
consumer_node = consumer (b's' ∷ []) (b'o' ∷ []) (b'g' ∷ []) (b'c' ∷ [])

parse-path_of_example :
    parse consumer_path ≡ ok consumer_node
    ↔ (IsNode consumer_node × (consumer_path ≡ path_of consumer_node))
parse-path_of_example = parse-path_of consumer_path consumer_node

-- A request is its bytes.
abbrev prepare : Text → Result ℕ Text
prepare bytes = ok bytes

abbrev write_calls : List (Commits.Call Text ℕ)
write_calls =
    write_call 0 (b'a' ∷ [])
    ∷ begin_call prepare
    ∷ finish_call false
    ∷ begin_call prepare
    ∷ finish_call true
    ∷ []

run-new-Handed_example : Handed write_calls 16 (Commits.run (new 16) write_calls)
run-new-Handed_example = run-new-Handed 16 write_calls (omega arith)

abbrev begun_write : BufferedWrite Text
begun_write = record {
  bytes = [];
  max_bytes = 16;
  prepared = some [];
  commit_state = Handles.committing [];
}

first_begin : begin (new 16) prepare ≡ (begun_write, ok (some []))
unfolding begin
first_begin = refl

begin-finish_example :
    (begin (finish begun_write false) prepare ≡ (begun_write, ok (some [])))
    × (Commits.run (finish begun_write true) write_calls ≡ (finish begun_write true, []))
begin-finish_example = begin-finish (new 16) begun_write prepare prepare [] write_calls first_begin

abbrev read_calls : List Streams.Call
read_calls =
    push_call (1 ∷ 2 ∷ 3 ∷ [])
    ∷ read_call 0 2
    ∷ read_call 0 2
    ∷ close_call
    ∷ push_call (4 ∷ [])
    ∷ read_call 2 2
    ∷ []

few_bytes : length (produced read_calls) ≡ 3
unfolding produced
few_bytes = refl

run-empty_stream_example :
    ((Streams.run empty_stream read_calls).1 ++ (Streams.run empty_stream read_calls).0.bytes
      ≡ produced read_calls)
    × ((Streams.run empty_stream read_calls).0.consumed
        ≡ length (Streams.run empty_stream read_calls).1)
run-empty_stream_example = run-empty_stream read_calls (omega (arith, few_bytes))

-- Nodes are numbers, the root is 0.
abbrev operations : List (Operation ℕ)
operations = lookup_op 7 10 ∷ retain_op 2 ∷ ensure_op 8 3 ∷ forget_op 2 1 ∷ release_op 2 ∷ []

run-new-IsTable_example : IsTable 0 (Laws.run (Inodes.new 0) operations)
run-new-IsTable_example = run-new-IsTable 0 operations (omega arith)

abbrev looked_up : InodeTable ℕ
looked_up = record {
  next = 3;
  by_inode = (1, 0) ∷ (2, 7) ∷ [];
  by_node = (0, 1) ∷ (7, 2) ∷ [];
  sizes = (2, 10) ∷ [];
  lookup_refs = (2, 3) ∷ [];
  directory_refs = [];
}

abbrev lookups : List (Operation ℕ)
lookups = lookup_op 7 10 ∷ lookup_op 7 10 ∷ lookup_op 7 10 ∷ []

lookups_lem : Laws.run (Inodes.new 0) lookups ≡ looked_up
unfolding eventfs.Fuse.Inodes.Laws.run eventfs.Fuse.Inodes.Laws.step remember_lookup ensure get
    insert
lookups_lem = refl

abbrev kernel_calls : List (Operation ℕ)
kernel_calls = forget_op 2 1 ∷ lookup_op 9 1 ∷ release_op 2 ∷ forget_op 2 1 ∷ []

two_forgotten : forgotten 2 kernel_calls ≡ 2
unfolding forgotten
two_forgotten = refl

node_seven : (node looked_up 2 ≡ some 7) × (get 2 looked_up.lookup_refs ≡ some 3)
unfolding get
node_seven = (refl, refl)

run-node_example :
    (node (Laws.run looked_up kernel_calls) 2 ≡ some 7)
    × (inode (Laws.run looked_up kernel_calls) 7 ≡ some 2)
run-node_example =
    run-node 0 7 2 3 looked_up kernel_calls
      (subst (IsTable 0) lookups_lem (run-new-IsTable 0 lookups (omega arith))) (omega arith)
      (omega arith) node_seven.0 node_seven.1 (omega (arith, two_forgotten))
