-- ===== src/Cache/Shard/Remove.antt =====
-- `remove_node` of cpp_lib/cache/concurrent_lru_cache.h: the invariant is kept.
use cpp_lib.Prelude.{
  ℕ, ◌-◌, ◌≡◌, sym, ap, ◌∙◌, ◌≢◌, true, some, List, arith, has, erase, has-erase_of, has-erase_ne,
  has-erase_absent, has-erase_self, erase-Distinct, length-erase,
}
use cpp_lib.Container.HashMap.{HashMap}
use cpp_lib.Cache.Links.{head, tail, delink, delink-erase}
use cpp_lib.Cache.Shard.{Shard, HashMapValue, remove_last}
use cpp_lib.Cache.Shard.Invariant
use cpp_lib.Cache.Shard.Invariant.{IsValid}

module _ {K V : Type 0} (hm : HashMap K (HashMapValue V)) (dec : Discrete K) where
  open hm use {Table, find as map_find}

  module _ (c : Shard K Table) (xs : List ℕ) (node : ℕ) (w : IsValid hm c xs)
      (m : has node xs ≡ true) where
    -- What the removal computes to on a valid shard: the branch marked unreachable is not taken.
    unfoldable pub removed : Shard K Table
    removed = record c {
      links = delink c.links node;
      m_map = hm.erase c.m_map (c.m_key node);
      m_size = c.m_size - 1;
    }

    pub remove_last-removed : remove_last hm c node ≡ removed
    unfolding remove_last removed
    remove_last-removed = rw ((w.stored node m).1, remove_last)

    -- Another node of the list has another key.
    other_key : (x : ℕ) → has x xs ≡ true → x ≢ node → c.m_key node ≢ c.m_key x
    other_key x h ne p =
        ne (Invariant.node_of_key hm c xs x (c.m_key node) _ w h (sym p) (w.stored node m).1)

    pub removed-kept :
        (x : ℕ)
        → has x (erase node xs) ≡ true
        → map_find removed.m_map (c.m_key x) ≡ map_find c.m_map (c.m_key x)
    unfolding removed
    removed-kept x h =
        let old : has x xs ≡ true = has-erase_of x node xs h in
        let gone = has-erase_self node xs w.distinct.1.1 in
        let ne : x ≢ node = λ p. cc (h, gone, ap (λ y. has y (erase node xs)) p) in
        hm.find-erase_ne c.m_map (c.m_key node) (c.m_key x) (other_key x old ne)

    removed-stored :
        (x : ℕ)
        → has x (erase node xs) ≡ true
        → (v : V) × (map_find removed.m_map (removed.m_key x)
            ≡ some (record { m_value = v; m_list_node = x }))
    unfolding removed
    removed-stored x h =
        let (v, at) = w.stored x (has-erase_of x node xs h) in (v, removed-kept x h ∙ at)

    removed-owned :
        (k : K) (e : HashMapValue V)
        → map_find removed.m_map k ≡ some e
        → (has e.m_list_node (erase node xs) ≡ true) × (removed.m_key e.m_list_node ≡ k)
    unfolding removed
    removed-owned k e h = elim (dec (c.m_key node) k) [
      | yes p ↦ cc (
        hm.find-erase_self c.m_map (c.m_key node),
        h,
        ap (map_find (hm.erase c.m_map (c.m_key node))) p,
      )
      | no p ↦
          let old = w.owned k e (sym (hm.find-erase_ne c.m_map (c.m_key node) k p) ∙ h) in
          let ne : e.m_list_node ≢ node = λ q. p (sym (ap c.m_key q) ∙ old.1) in
          (has-erase_ne e.m_list_node node xs ne ∙ old.0, old.1)
    ]

    -- The removal of a node keeps the invariant, and finds its key in the map.
    pub remove_last-IsValid : IsValid hm (remove_last hm c node) (erase node xs)
    unfolding removed
    remove_last-IsValid = rw remove_last-removed (record {
      chain = delink-erase c.links head xs tail node w.distinct w.chain m;
      distinct = ground (
        arith,
        w.distinct,
        has-erase_absent head node xs,
        has-erase_absent tail node xs,
        erase-Distinct node xs,
      );
      room = w.room;
      allocated = λ x h. w.allocated x (has-erase_of x node xs h);
      stored = removed-stored;
      owned = removed-owned;
      sized = omega (arith, w.sized, length-erase node xs m);
    })
