-- ===== src/Container/ConcurrentMap.antt =====
-- `ConcurrentMap` of cpp_lib/container/concurrent_map.h, over the hash map of TBB.
use cpp_lib.Prelude.{
  ℕ, ◌+◌, ◌≡◌, refl, ◌≢◌, Bool, true, false, Option, none, some, Option-cases, inl, inr, arith,
}
use cpp_lib.Container.HashMap.{HashMap}

module _ {K V : Type 0} (hm : HashMap K V) where
  open hm use {Table, find as table_find, put, erase as table_erase, size as table_size}

  -- `table_.insert(value)`: a key that is there keeps its value.
  unfoldable pub insert : Table → K → V → Table
  insert t k v = elim (table_find t k) [ none ↦ put t k v | some old ↦ t ]

  unfoldable pub emplace : Table → K → V → Table
  emplace t k v = insert t k v

  unfoldable pub insert_and_assign : Table → K → V → Table
  insert_and_assign t k v = elim (table_find t k) [ none ↦ insert t k v | some old ↦ put t k v ]

  unfoldable pub find : Table → K → Bool
  find t k = elim (table_find t k) [ none ↦ false | some v ↦ true ]

  unfoldable pub erase : Table → K → Table × Bool
  erase t k = elim (table_find t k) [ none ↦ (t, false) | some v ↦ (table_erase t k, true) ]

  -- `operator[]`: the map, and the value that the reference stands for.
  unfoldable pub index : V → Table → K → Table × V
  index default t k = elim (table_find t k) [ none ↦ (put t k default, default) | some v ↦ (t, v) ]

  unfoldable pub count : Table → K → ℕ
  count t k = elim (table_find t k) [ none ↦ 0 | some v ↦ 1 ]

  -- `none` where the accessor is empty, and reading through it undefined.
  unfoldable pub at : Table → K → Option V
  at t k = table_find t k

  unfoldable pub find_with_value : Table → K → Option V
  find_with_value t k = elim (table_find t k) [ none ↦ none | some v ↦ some v ]

  unfoldable pub size : Table → ℕ
  size t = table_size t

  find_with_value-table_find : (t : Table) (k : K) → find_with_value t k ≡ table_find t k
  unfolding find_with_value
  find_with_value-table_find t k = ground arith

  -- Whichever branch `insert_and_assign` takes, it writes the value.
  insert_and_assign-put : (t : Table) (k : K) (v : V) → insert_and_assign t k v ≡ put t k v
  unfolding insert_and_assign insert
  insert_and_assign-put t k v = ground arith

  -- The value that `insert` leaves under its key.
  abbrev pub kept_or : Option V → V → V
  kept_or none v = v
  kept_or (some old) v = old

  insert_self :
      (t : Table) (k : K) (v : V) → table_find (insert t k v) k ≡ some (kept_or (table_find t k) v)
  unfolding insert
  insert_self t k v = elim (Option-cases (table_find t k)) [
    | inl e ↦ rw (e, insert) (hm.find-put_self t k v)
    | inr (old, e) ↦ rw (e, insert) e
  ]

  insert_ne : (t : Table) (k j : K) (v : V) → k ≢ j → table_find (insert t k v) j ≡ table_find t j
  unfolding insert
  insert_ne t k j v ne = elim (Option-cases (table_find t k)) [
    | inl e ↦ rw (e, insert) (hm.find-put_ne t k j v ne)
    | inr (old, e) ↦ rw (e, insert) refl
  ]

  -- `insert` keeps a value that is there and otherwise adds its own, `insert_and_assign` always
  -- writes its own, and both leave every other key alone.
  pub find_with_value-insert :
      (t : Table) (k : K) (v : V)
      → (find_with_value (insert t k v) k ≡ some (kept_or (find_with_value t k) v))
        × (find_with_value (insert_and_assign t k v) k ≡ some v)
        × ((j : K)
            → k ≢ j
            → (find_with_value (insert t k v) j ≡ find_with_value t j)
              × (find_with_value (insert_and_assign t k v) j ≡ find_with_value t j))
  find_with_value-insert t k v = (
    simp find_with_value-table_find (insert_self t k v),
    simp (find_with_value-table_find, insert_and_assign-put) (hm.find-put_self t k v),
    λ j ne. (
      simp find_with_value-table_find (insert_ne t k j v ne),
      simp (find_with_value-table_find, insert_and_assign-put) (hm.find-put_ne t k j v ne),
    ),
  )

  erase_self :
      (t : Table) (k : K)
      → ((erase t k).1 ≡ find t k)
        × (table_find (erase t k).0 k ≡ none)
        × (size (erase t k).0 + count t k ≡ size t)
  unfolding erase find size count
  erase_self t k = elim (Option-cases (table_find t k)) [
    | inl e ↦ (rw (e, erase, find) refl, rw (e, erase) e, rw (e, erase, count) (omega arith))
    | inr (v, e) ↦ (
      rw (e, erase, find) refl,
      rw (e, erase) (hm.find-erase_self t k),
      rw (e, erase, count) (hm.size-erase t k v e),
    )
  ]

  erase_ne : (t : Table) (k j : K) → k ≢ j → table_find (erase t k).0 j ≡ table_find t j
  unfolding erase
  erase_ne t k j ne = elim (Option-cases (table_find t k)) [
    | inl e ↦ rw (e, erase) refl
    | inr (v, e) ↦ rw (e, erase) (hm.find-erase_ne t k j ne)
  ]

  -- `erase` says whether the key was there, and afterwards it is not; the size falls by `count`
  -- of the key; every other key keeps its value.
  pub find_with_value-erase :
      (t : Table) (k : K)
      → ((erase t k).1 ≡ find t k)
        × (find_with_value (erase t k).0 k ≡ none)
        × (size (erase t k).0 + count t k ≡ size t)
        × ((j : K) → k ≢ j → find_with_value (erase t k).0 j ≡ find_with_value t j)
  find_with_value-erase t k =
      let (result, gone, smaller) = erase_self t k in
      (
        result,
        simp find_with_value-table_find gone,
        smaller,
        λ j ne. simp find_with_value-table_find (erase_ne t k j ne),
      )
