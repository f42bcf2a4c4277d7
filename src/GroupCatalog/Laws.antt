-- ===== src/GroupCatalog/Laws.antt =====
-- Commands on the catalog of consumer groups that are sent again or change nothing.
use eventfs.Prelude.{
  ℕ, ◌+◌, ◌<◌, ◌≤◌, ◌≡◌, Bool, true, false, Text, nat_ord, list_ord, pair_ord, eq_refl, arith,
}
use eventfs.Prelude.Words.{u64_max}
use eventfs.BTreeMap.Laws.{get-insert, get-remove}
use eventfs.Identifier.{AggregateTypeId, type_id_ord}
use eventfs.GroupCatalog.{
  AggregateGroupDefinition, key_of, AggregateGroupCatalog, AggregateGroupCatalogCommand, create,
  replace, delete, GroupKey, AggregateGroupCatalogOutcome, group, deleted, not_found, conflict,
  invalid, run,
}

module _ (c : AggregateGroupCatalog) (below : c.revision < u64_max) where
  -- As long as the catalog revision can grow, a command that leaves the revision as it was has left
  -- the whole catalog as it was.
  pub run_same_revision :
      (command : AggregateGroupCatalogCommand)
      → (run command c).0.revision ≡ c.revision
      → (run command c).0 ≡ c
  unfolding run
  run_same_revision (create d n) h = ground arith
  run_same_revision (replace d r n reset) h = ground arith
  run_same_revision (delete t n r o) h = ground arith

-- A creation that is answered with a group is answered with the same group when it is sent again, and
-- changes nothing then.
pub create_again :
    (c c' : AggregateGroupCatalog) (d e : AggregateGroupDefinition) (n : ℕ)
    → run (create d n) c ≡ (c', group e)
    → run (create d n) c' ≡ (c', group e)
unfolding run
create_again c c' d e n h =
    ground (arith, get-insert (key_of d) (key_of d) e c.groups, eq_refl (key_of d))

-- A deletion that is answered with `deleted` is answered so when it is sent again, and changes nothing
-- then.
pub delete_again :
    (c c' : AggregateGroupCatalog) (t : AggregateTypeId) (n : Text) (r o : ℕ)
    → run (delete t n r o) c ≡ (c', deleted)
    → run (delete t n r o) c' ≡ (c', deleted)
unfolding run
delete_again c c' t n r o h =
    let key : GroupKey = (t, n) in
    ground
      (arith, get-insert key key o c.deleted_operations, get-remove key key c.groups, eq_refl key)

-- A replacement that is answered with a group is answered with the same group when it is sent again,
-- and changes nothing then.
pub replace_again :
    (c c' : AggregateGroupCatalog) (d e : AggregateGroupDefinition) (r n : ℕ) (reset : Bool)
    → run (replace d r n reset) c ≡ (c', group e)
    → run (replace d r n reset) c' ≡ (c', group e)
unfolding run
replace_again c c' d e r n reset h =
    ground (arith, get-insert (key_of d) (key_of d) e c.groups, eq_refl (key_of d))

-- A command raises the catalog revision by one at most.
pub revision-run :
    (command : AggregateGroupCatalogCommand) (c : AggregateGroupCatalog)
    → (run command c).0.revision ≤ c.revision + 1
unfolding run
revision-run (create d n) c = ground arith
revision-run (replace d r n reset) c = ground arith
revision-run (delete t n r o) c = ground arith

abbrev pub is_accepted : AggregateGroupCatalogOutcome → Bool
is_accepted (group e) = true
is_accepted deleted = true
is_accepted not_found = false
is_accepted (conflict revision) = false
is_accepted (invalid reason) = false

-- A command that is answered with a group or with a deletion is answered in the same way when it is
-- sent again, and changes nothing then.
pub accepted_again :
    (command : AggregateGroupCatalogCommand) (c c' : AggregateGroupCatalog)
    → (outcome : AggregateGroupCatalogOutcome) → is_accepted outcome ≡ true
    → run command c ≡ (c', outcome)
    → run command c' ≡ (c', outcome)
unfolding run
accepted_again (create d n) c c' (group e) a h = create_again c c' d e n h
accepted_again (create d n) c c' deleted a h = ground arith
accepted_again (replace d r n reset) c c' (group e) a h = replace_again c c' d e r n reset h
accepted_again (replace d r n reset) c c' deleted a h = ground arith
accepted_again (delete t n r o) c c' (group e) a h = ground arith
accepted_again (delete t n r o) c c' deleted a h = delete_again c c' t n r o h
accepted_again command c c' not_found a h = absurd (ground arith)
accepted_again command c c' (conflict revision) a h = absurd (ground arith)
accepted_again command c c' (invalid reason) a h = absurd (ground arith)
