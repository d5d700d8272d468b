-- ===== src/Cache/Shard/Insert.antt =====
-- `insert` and `find` of cpp_lib/cache/concurrent_lru_cache.h together: the size bound, what a
-- `find` returns after an `insert`, and that no other entry changes its value.
use cpp_lib.Prelude.{
  ℕ, ◌-◌, ◌≤◌, ◌<◌, ◌≡◌, refl, sym, ap, ◌∙◌, ◌≢◌, ◌⊎◌, inl, inr, true, false, none, some, List, [],
  ◌∷◌, arith, Option-cases, length, get_elem?, has,
}
use mathlib.Core.Path.{subst₂}
use cpp_lib.Container.HashMap.{HashMap}
use cpp_lib.Cache.Shard.{
  Shard, HashMapValue, CacheEvictType, evict_one, evict_batch, find, set_entry, evict, insert,
}
use cpp_lib.Cache.Shard.Invariant.{IsValid}
use cpp_lib.Cache.Shard.Keeps.{Keeps}
use cpp_lib.Cache.Shard.Evict.{Settled, evict-Keeps, quota}
use cpp_lib.Cache.Shard.Set.{Written, set_entry-Written}

first-mem : (x : ℕ) (ys : List ℕ) → get_elem? ys 0 ≡ some x → has x ys ≡ true
first-mem x [] h = absurd (ground arith)
first-mem x (y ∷ ys) h = ground arith

quota-pos : (type : CacheEvictType) → 0 < quota type
quota-pos evict_one = omega arith
quota-pos evict_batch = omega arith

module _ {K V : Type 0} (hm : HashMap K (HashMapValue V)) (dec : Discrete K) where
  open hm use {Table, find as map_find}

  module _ (c : Shard K Table) (xs : List ℕ) (key : K) (value : V) (now : ℕ) (w : IsValid hm c xs)
      (idle : c.m_evict_flag ≡ false) where
    insert-evict : (insert hm c key value now).0 ≡ evict hm (set_entry hm c key value now).0 now
    unfolding insert
    insert-evict = rw (set_entry-Written hm dec c xs key value now w).1

    pub wrote : Written hm dec c xs key value now (set_entry hm c key value now).0
    wrote = (set_entry-Written hm dec c xs key value now w).0

    -- The nodes after the eviction, out of those after `set_entry`.
    pub survivors :
        (ys : List ℕ) × Keeps hm dec now
          (set_entry hm c key value now).0
          (wrote.node ∷ wrote.rest)
          (insert hm c key value now).0
          ys
        × Settled hm dec now
            (set_entry hm c key value now).0
            (wrote.node ∷ wrote.rest)
            (insert hm c key value now).0
            ys
            c.m_evict_type
    survivors =
        let d = (set_entry hm c key value now).0 in
        let xs' = wrote.node ∷ wrote.rest in
        let r = evict-Keeps hm dec now d xs' wrote.valid (wrote.evict_flag ∙ idle) in
        subst₂
          (λ c' type.
            (ys : List ℕ) × Keeps hm dec now d xs' c' ys × Settled hm dec now d xs' c' ys type)
          (sym insert-evict) wrote.evict_type r

    insert-true : (insert hm c key value now).1 ≡ true
    unfolding insert
    insert-true = (set_entry-Written hm dec c xs key value now w).1

    -- For a valid shard of at most `m_max_size` nodes whose evict flag is down, `insert` returns
    -- true and gives again a valid shard, of the same `m_max_size`, with `m_size` at most that
    -- and the flag down.
    pub insert-IsValid :
        length xs ≤ c.m_max_size
        → (ys : List ℕ) × IsValid hm (insert hm c key value now).0 ys
          × ((insert hm c key value now).0.m_size ≤ c.m_max_size)
          × ((insert hm c key value now).0.m_max_size ≡ c.m_max_size)
          × ((insert hm c key value now).0.m_evict_flag ≡ false)
          × ((insert hm c key value now).1 ≡ true)
    insert-IsValid small =
        let (ys, keeps, settled) = survivors in
        (
          ys,
          keeps.valid,
          ground (
            arith,
            keeps.valid.sized,
            settled,
            wrote.no_more,
            wrote.max_size,
            quota-pos c.m_evict_type,
          ),
          keeps.settings.max_size ∙ wrote.max_size,
          keeps.settings.evict_flag ∙ wrote.evict_flag ∙ idle,
          insert-true,
        )

    -- After `insert` of a key into a valid shard with the evict flag down and a positive
    -- capacity, a `find` of the key returns true and the value, as long as the shard has no
    -- timeout or no more than the timeout has passed.
    pub find-insert_self :
        (later : ℕ)
        → 0 < c.m_max_size
        → (c.m_timeout ≡ 0) ⊎ (later - now ≤ c.m_timeout)
        → (e : HashMapValue V) × (find hm (insert hm c key value now).0 key later ≡ (true, some e))
          × (e.m_value ≡ value)
    unfolding find
    find-insert_self later room fresh =
        let (ys, keeps, settled) = survivors in
        let first = keeps.front wrote.node (rw wrote.max_size room) wrote.stamped refl in
        let at : map_find (insert hm c key value now).0.m_map key
            ≡ some (record { m_value = value; m_list_node = wrote.node }) =
          rw wrote.named at (keeps.kept wrote.node (first-mem _ _ first)) ∙ wrote.here in
        (
          record { m_value = value; m_list_node = wrote.node },
          rw (at, find)
              (ground (
                arith,
                keeps.settings.timeout,
                wrote.timeout,
                ap (λ (g : ℕ → ℕ). g wrote.node) keeps.settings.timestamp,
                wrote.stamped,
              )),
          refl,
        )

    -- `insert` of a key into a valid shard with the evict flag down leaves what the map holds
    -- under another key, or evicts it.
    pub find-insert_ne :
        (j : K)
        → key ≢ j
        → (map_find (insert hm c key value now).0.m_map j ≡ map_find c.m_map j)
          ⊎ (map_find (insert hm c key value now).0.m_map j ≡ none)
    find-insert_ne j ne =
        let (ys, keeps, settled) = survivors in
        elim (Option-cases (map_find (insert hm c key value now).0.m_map j)) [
          | inl gone ↦ inr gone
          | inr (e, found) ↦
              let (m, named) = keeps.valid.owned j e found in
              let at = ap (λ (g : ℕ → K). g e.m_list_node) (sym keeps.settings.key) ∙ named in
              inl (rw at at (keeps.kept e.m_list_node m) ∙ wrote.others j ne)
        ]
