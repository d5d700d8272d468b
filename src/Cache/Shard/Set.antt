-- ===== src/Cache/Shard/Set.antt =====
-- `set_entry` of cpp_lib/cache/concurrent_lru_cache.h on both of its branches.
use cpp_lib.Prelude.{
  ℕ, ◌≤◌, ◌≡◌, refl, ◌≢◌, true, Option, none, some, Option-cases, inl, inr, List, ◌∷◌, arith,
  length, erase, length-erase-le,
}
use cpp_lib.Container.HashMap.{HashMap}
use cpp_lib.Cache.Shard.{Shard, HashMapValue, add_entry, set_entry}
use cpp_lib.Cache.Shard.Invariant.{IsValid}
use cpp_lib.Cache.Shard.Update
use cpp_lib.Cache.Shard.Add.{add_entry-IsValid}

module _ {K V : Type 0} (hm : HashMap K (HashMapValue V)) (dec : Discrete K) where
  open hm use {Table, find as map_find}

  abbrev pub other_nodes : Option (HashMapValue V) → List ℕ → List ℕ
  other_nodes none xs = xs
  other_nodes (some e) xs = erase e.m_list_node xs

  -- What one `set_entry` of `key` to `value` at `now` makes of the shard `c` with the nodes `xs`.
  pub record Written (c : Shard K Table) (xs : List ℕ) (key : K) (value : V) (now : ℕ)
      (c' : Shard K Table) : Type 0 where
    pub node : ℕ
    pub rest : List ℕ
    pub valid : IsValid hm c' (node ∷ rest)
    pub here : map_find c'.m_map key ≡ some (record { m_value = value; m_list_node = node })
    pub others : (j : K) → key ≢ j → map_find c'.m_map j ≡ map_find c.m_map j
    pub stamped : c'.m_timestamp node ≡ now
    pub named : c'.m_key node ≡ key
    pub max_size : c'.m_max_size ≡ c.m_max_size
    pub timeout : c'.m_timeout ≡ c.m_timeout
    pub evict_type : c'.m_evict_type ≡ c.m_evict_type
    pub evict_flag : c'.m_evict_flag ≡ c.m_evict_flag
    pub other_keys : (x : ℕ) → x ≢ node → c'.m_key x ≡ c.m_key x
    pub other_times : (x : ℕ) → x ≢ node → c'.m_timestamp x ≡ c.m_timestamp x
    -- The nodes behind the first are those of before, less the one that has moved.
    pub moved_front : rest ≡ other_nodes (map_find c.m_map key) xs
    pub no_more : length rest ≤ length xs

  module _ (c : Shard K Table) (xs : List ℕ) (key : K) (value : V) (now : ℕ)
      (w : IsValid hm c xs) where
    updated-Written :
        (e : HashMapValue V)
        → map_find c.m_map key ≡ some e
        → Written c xs key value now (Update.moved hm dec c key value e now)
    unfolding Update.moved
    updated-Written e found = record {
      node = e.m_list_node;
      rest = erase e.m_list_node xs;
      valid = Update.moved-IsValid hm dec c xs key value e now w found;
      here = hm.find-put_self c.m_map key _;
      others = λ j h. hm.find-put_ne c.m_map key j _ h;
      stamped = ground arith;
      named = (w.owned key e found).1;
      max_size = refl;
      timeout = refl;
      evict_type = refl;
      evict_flag = refl;
      other_keys = λ x h. refl;
      other_times = λ x h. ground arith;
      moved_front = rw found;
      no_more = length-erase-le e.m_list_node xs;
    }

    added-Written :
        map_find c.m_map key ≡ none → Written c xs key value now (add_entry hm c key value now)
    unfolding add_entry
    added-Written new = record {
      node = c.fresh;
      rest = xs;
      valid = add_entry-IsValid hm dec c xs key value now w new;
      here = hm.find-put_self c.m_map key _;
      others = λ j h. hm.find-put_ne c.m_map key j _ h;
      stamped = ground arith;
      named = ground arith;
      max_size = refl;
      timeout = refl;
      evict_type = refl;
      evict_flag = refl;
      other_keys = λ x h. ground arith;
      other_times = λ x h. ground arith;
      moved_front = rw new;
      no_more = omega arith;
    }

    -- `set_entry` on a valid shard returns true and gives a valid shard with the same settings:
    -- the key holds the value on the first node, which has the key and the current time, every
    -- other key is as it was, and the nodes behind the first are the old ones less the one that
    -- moved.
    pub set_entry-Written :
        Written c xs key value now (set_entry hm c key value now).0
        × ((set_entry hm c key value now).1 ≡ true)
    unfolding set_entry
    set_entry-Written = elim (Option-cases (map_find c.m_map key)) [
      | inl new ↦ rw (new, set_entry) (added-Written new, refl)
      | inr (e, found) ↦
          rw (found, set_entry, Update.update_entry-moved hm dec c xs key value e now w found)
            (updated-Written e found, refl)
    ]
