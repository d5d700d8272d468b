-- ===== src/Cache/Shard/Invariant.antt =====
-- The invariant of a shard of cpp_lib/cache/concurrent_lru_cache.h: the list and the map hold the
-- same entries. `xs` is the list of node addresses, the most recently used first.
use cpp_lib.Prelude.{
  ℕ, ◌≤◌, ◌<◌, ◌≡◌, ap, ◌≢◌, true, some, List, ◌∷◌, arith, length, has, Distinct, erase,
  has-erase_self, has-erase_absent, erase-Distinct,
}
use cpp_lib.Container.HashMap.{HashMap}
use cpp_lib.Cache.Links.{null, head, tail, first_free, is_in_list, Linked, prev-mem}
use cpp_lib.Cache.Shard.{Shard, HashMapValue}

module _ {K V : Type 0} (hm : HashMap K (HashMapValue V)) where
  open hm use {Table, find as map_find}

  pub record IsValid (c : Shard K Table) (xs : List ℕ) : Type 0 where
    pub chain : Linked c.links head xs tail
    pub distinct : Distinct (head ∷ tail ∷ xs)
    pub room : first_free ≤ c.fresh
    pub allocated : (x : ℕ) → has x xs ≡ true → (first_free ≤ x) × (x < c.fresh)
    pub stored :
        (x : ℕ)
        → has x xs ≡ true
        → (v : V) × (map_find c.m_map (c.m_key x) ≡ some (record { m_value = v; m_list_node = x }))
    pub owned :
        (k : K) (e : HashMapValue V)
        → map_find c.m_map k ≡ some e
        → (has e.m_list_node xs ≡ true) × (c.m_key e.m_list_node ≡ k)
    pub sized : c.m_size ≡ length xs

  -- A node of the list passes the guard of `set_entry`.
  pub linked_guard :
      (c : Shard K Table) (xs : List ℕ) (x : ℕ)
      → IsValid c xs
      → has x xs ≡ true
      → (x ≢ null) × (is_in_list c.links x ≡ true)
  linked_guard c xs x w m = (
    ground (arith, w.allocated x),
    ground (arith, prev-mem c.links head xs tail x w.chain m, w.allocated (c.links.m_prev x)),
  )

  -- The first node of distinct others, moved to the front of them.
  pub moved-Distinct :
      (x : ℕ) (xs : List ℕ)
      → Distinct (head ∷ tail ∷ xs)
      → first_free ≤ x
      → Distinct (head ∷ tail ∷ x ∷ erase x xs)
  moved-Distinct x xs d h = ground (
    arith,
    has-erase_absent head x xs,
    has-erase_absent tail x xs,
    has-erase_self x xs,
    erase-Distinct x xs,
  )

  -- A key has one node.
  pub node_of_key :
      (c : Shard K Table) (xs : List ℕ) (x : ℕ) (key : K) (e : HashMapValue V)
      → IsValid c xs
      → has x xs ≡ true
      → c.m_key x ≡ key
      → map_find c.m_map key ≡ some e
      → x ≡ e.m_list_node
  node_of_key c xs x key e w m p found = ground (arith, w.stored x m, ap (map_find c.m_map) p)
