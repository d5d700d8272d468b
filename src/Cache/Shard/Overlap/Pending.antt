-- ===== src/Cache/Shard/Overlap/Pending.antt =====
-- A shard of cpp_lib/cache/concurrent_lru_cache.h between the two halves of `remove_node`.
use mathlib.Core.Path.{subst}
use cpp_lib.Prelude.{
  ℕ, ◌-◌, ◌<◌, ◌≤◌, ◌≡◌, ◌≢◌, sym, ◌∙◌, true, false, some, List, ◌∷◌, arith, has, erase,
  has-erase_self, length-erase,
}
use cpp_lib.Container.HashMap.{HashMap}
use cpp_lib.Cache.Links.{
  Links, out_of_list_marker, head, tail, first_free, Linked, delink, push_front, next-mem,
}
use cpp_lib.Cache.Shard.{Shard, HashMapValue}
use cpp_lib.Cache.Shard.Invariant.{IsValid}
use cpp_lib.Cache.Shard.Remove
use cpp_lib.Cache.Shard.Overlap.{unlink}

module _ {K V : Type 0} (hm : HashMap K (HashMapValue V)) (dec : Discrete K) where
  open hm use {Table, find as map_find}

  -- The shard without the entry of the node.
  abbrev pub without : Shard K Table → ℕ → Shard K Table
  without c x = record c { m_map = hm.erase c.m_map (c.m_key x); m_size = c.m_size - 1 }

  -- The node `x` is out of the list, and its entry still in the map.
  pub record IsPending (c : Shard K Table) (xs : List ℕ) (x : ℕ) : Type 0 where
    pub valid : IsValid hm (without c x) xs
    pub there :
        (v : V) × (map_find c.m_map (c.m_key x) ≡ some (record { m_value = v; m_list_node = x }))
    pub out : c.links.m_prev x ≡ out_of_list_marker
    pub away : has x xs ≡ false
    pub allocated : (first_free ≤ x) × (x < c.fresh)
    pub counted : 0 < c.m_size

  -- Validity sees of the map what `find` gives.
  pub IsValid-map :
      (c : Shard K Table) (xs : List ℕ) (m : Table) (n : ℕ)
      → IsValid hm c xs
      → ((k : K) → map_find m k ≡ map_find c.m_map k)
      → n ≡ c.m_size
      → IsValid hm (record c { m_map = m; m_size = n }) xs
  IsValid-map c xs m n w same size = record {
    chain = w.chain;
    distinct = w.distinct;
    room = w.room;
    allocated = w.allocated;
    stored = λ x h. let (v, at) = w.stored x h in (v, same (c.m_key x) ∙ at);
    owned = λ k e h. w.owned k e (sym (same k) ∙ h);
    sized = size ∙ w.sized;
  }

  -- A write under another key and an erasure can change places.
  pub erase-put :
      (t : Table) (a k : K) (e : HashMapValue V) (j : K)
      → a ≢ k
      → map_find (hm.erase (hm.put t k e) a) j ≡ map_find (hm.put (hm.erase t a) k e) j
  erase-put t a k e j ne = elim (dec k j) [
    | yes p ↦
        subst (λ y. map_find (hm.erase (hm.put t k e) a) y ≡ map_find (hm.put (hm.erase t a) k e) y)
          p
          (hm.find-erase_ne (hm.put t k e) a k ne
            ∙ hm.find-put_self t k e
            ∙ sym (hm.find-put_self (hm.erase t a) k e))
    | no q ↦ elim (dec a j) [
      | yes p ↦
          subst
            (λ y. map_find (hm.erase (hm.put t k e) y) j ≡ map_find (hm.put (hm.erase t y) k e) j)
            (sym p)
            (hm.find-erase_self (hm.put t k e) j
              ∙ sym (hm.find-put_ne (hm.erase t j) k j e q ∙ hm.find-erase_self t j))
      | no p ↦
          hm.find-erase_ne (hm.put t k e) a j p
          ∙ hm.find-put_ne t k j e q
          ∙ sym (hm.find-put_ne (hm.erase t a) k j e q ∙ hm.find-erase_ne t a j p)
    ]
  ]

  -- An erasure hides a write under its key.
  pub erase-put_self :
      (t : Table) (a : K) (e : HashMapValue V) (j : K)
      → map_find (hm.erase (hm.put t a e) a) j ≡ map_find (hm.erase t a) j
  erase-put_self t a e j = elim (dec a j) [
    | yes p ↦
        subst (λ y. map_find (hm.erase (hm.put t a e) a) y ≡ map_find (hm.erase t a) y) p
          (hm.find-erase_self (hm.put t a e) a ∙ sym (hm.find-erase_self t a))
    | no p ↦
        hm.find-erase_ne (hm.put t a e) a j p
        ∙ hm.find-put_ne t a j e p
        ∙ sym (hm.find-erase_ne t a j p)
  ]

  pub unlink-IsPending :
      (c : Shard K Table) (xs : List ℕ) (x : ℕ)
      → IsValid hm c xs
      → has x xs ≡ true
      → IsPending (unlink hm c x) (erase x xs) x
  unfolding unlink delink Remove.removed
  unlink-IsPending c xs x w m =
      let gone =
        subst (λ d. IsValid hm d (erase x xs)) (Remove.remove_last-removed hm dec c xs x w m)
          (Remove.remove_last-IsValid hm dec c xs x w m) in
      record {
        valid = gone;
        there = w.stored x m;
        out = ground arith;
        away = has-erase_self x xs w.distinct.1.1;
        allocated = w.allocated x m;
        counted = omega (arith, w.sized, length-erase x xs m);
      }

  pub push_front-elsewhere :
      (l : Links) (node x : ℕ) (xs : List ℕ)
      → Linked l head xs tail
      → has x (tail ∷ xs) ≡ false
      → x ≢ node
      → (push_front l node).m_prev x ≡ l.m_prev x
  unfolding push_front
  push_front-elsewhere l node x xs h away ne = ground (arith, next-mem l head xs tail head h)

  pub delink-elsewhere :
      (l : Links) (node x : ℕ) (xs : List ℕ)
      → Linked l head xs tail
      → has node xs ≡ true
      → has x (tail ∷ xs) ≡ false
      → x ≢ node
      → (delink l node).m_prev x ≡ l.m_prev x
  unfolding delink
  delink-elsewhere l node x xs h m away ne = ground (arith, next-mem l head xs tail node h)
