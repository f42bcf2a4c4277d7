-- ===== src/BTreeMap/Laws.antt =====
-- The laws of the map operations, through which all proofs about maps go.
use eventfs.Prelude.{
  suc, ◌+◌, ◌≤◌, ◌≡◌, refl, Bool, true, false, none, some, [], ◌∷◌, length, Ord, ◌==◌, eq_iff,
  if◌then◌else◌, Bool-cases, inl, inr, arith,
}
use eventfs.BTreeMap.{BTreeMap, get, insert, remove, retain, any_value, count_values}

module _ {ℓ κ} {K : Type ℓ} {V : Type κ} ⦃o : Ord K⦄ where
  pub get-insert :
      (j k : K) (v : V) (m : BTreeMap K V)
      → get j (insert k v m) ≡ (if j == k then some v else get j m)
  unfolding get insert
  get-insert j k v [] = refl
  get-insert j k v ((i, w) ∷ m) = ground (
    arith,
    get-insert j k v m,
    o.eq_of_cmp k i,
    o.eq_of_cmp j k,
    o.eq_of_cmp j i,
    o.cmp_refl k,
    o.cmp_refl j,
  )

  pub get-remove :
      (j k : K) (m : BTreeMap K V) → get j (remove k m) ≡ (if j == k then none else get j m)
  unfolding get remove
  get-remove j k [] = ground arith
  get-remove j k ((i, w) ∷ m) = ground (arith, get-remove j k m, eq_iff k i, eq_iff j k, eq_iff j i)

  pub get-retain :
      (j : K) (p : K → Bool) (m : BTreeMap K V)
      → get j (retain p m) ≡ (if p j then get j m else none)
  unfolding get retain
  get-retain j p [] = ground arith
  get-retain j p ((i, w) ∷ m) = ground (arith, get-retain j p m, eq_iff j i)

  -- One more entry, where the key is new.
  pub length-insert :
      (k : K) (v : V) (m : BTreeMap K V) → get k m ≡ none → length (insert k v m) ≡ length m + 1
  unfolding get insert
  length-insert k v [] h = refl
  length-insert k v ((i, w) ∷ m) h = ground (arith, length-insert k v m)

  pub length-remove : (k : K) (m : BTreeMap K V) → length (remove k m) ≤ length m
  unfolding remove
  length-remove k [] = omega arith
  length-remove k ((i, w) ∷ m) = ground (arith, length-remove k m)

  -- A removal of a present key makes the map shorter.
  pub length-remove_present :
      (k : K) (v : V) (m : BTreeMap K V) → get k m ≡ some v → suc (length (remove k m)) ≤ length m
  unfolding remove get
  length-remove_present k v [] h = ground arith
  length-remove_present k v ((i, w) ∷ m) h =
      ground (arith, length-remove_present k v m, length-remove k m)

  pub count-insert :
      (p : V → Bool) (k : K) (v : V) (m : BTreeMap K V)
      → get k m ≡ none
      → count_values p (insert k v m) ≡ (if p v then 1 else 0) + count_values p m
  unfolding get insert count_values
  count-insert p k v [] h = refl
  count-insert p k v ((i, w) ∷ m) h = ground (arith, count-insert p k v m)

  -- A test that fails on all values fails on each.
  pub any_value-false :
      (p : V → Bool) (m : BTreeMap K V) (k : K) (v : V)
      → any_value p m ≡ false
      → get k m ≡ some v
      → p v ≡ false
  unfolding get any_value
  any_value-false p [] k v a h = ground arith
  any_value-false p ((i, w) ∷ m) k v a h = ground (arith, any_value-false p m k v)

  -- A test that holds of some value, with its key: maps in the sense of the type hold a key once.
  pub any_value-true :
      (p : V → Bool) (m : BTreeMap K V) (k : K) (v : V)
      → get k m ≡ some v
      → p v ≡ true
      → any_value p m ≡ true
  unfolding get any_value
  any_value-true p [] k v h e = ground arith
  any_value-true p ((i, w) ∷ m) k v h e = ground (arith, any_value-true p m k v)

-- Every key stands once.
unfoldable pub IsUnique {ℓ κ} : {K : Type ℓ} {V : Type κ} ⦃o : Ord K⦄ → BTreeMap K V → Type κ
IsUnique [] = Unit
IsUnique ((k, v) ∷ m) = (get k m ≡ none) × IsUnique m

pub retain-IsUnique {ℓ κ} :
    {K : Type ℓ} {V : Type κ} ⦃o : Ord K⦄ (p : K → Bool) (m : BTreeMap K V)
    → IsUnique m
    → IsUnique (retain p m)
unfolding retain IsUnique
retain-IsUnique p [] u = tt
retain-IsUnique p ((k, v) ∷ m) (fresh, u) = elim (Bool-cases (p k)) [
  | inl keep ↦ rw (keep, IsUnique) (ground (arith, get-retain k p m), retain-IsUnique p m u)
  | inr drop ↦ rw drop (retain-IsUnique p m u)
]
