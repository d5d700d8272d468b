-- ===== src/Cache/Shard/Reset.antt =====
-- The constructor and `clear` of cpp_lib/cache/concurrent_lru_cache.h establish the invariant.
use cpp_lib.Prelude.{ℕ, ◌≡◌, refl, false, none, List, [], arith}
use cpp_lib.Container.HashMap.{HashMap}
use cpp_lib.Cache.Shard.{Shard, HashMapValue, CacheEvictType, init, clear}
use cpp_lib.Cache.Shard.Invariant.{IsValid}

module _ {K V : Type 0} (hm : HashMap K (HashMapValue V)) where
  open hm use {Table, empty, find as map_find}

  pub init-IsValid :
      (default_key : K) (max_size timeout : ℕ) (type : CacheEvictType)
      → IsValid hm (init hm default_key max_size timeout type) []
        × ((init hm default_key max_size timeout type).m_evict_flag ≡ false)
  unfolding init
  init-IsValid default_key max_size timeout type = (
    record {
      chain = ground arith;
      distinct = ground arith;
      room = omega arith;
      allocated = λ x m. absurd (ground arith);
      stored = λ x m. absurd (ground arith);
      owned = λ k e h. absurd (ground (arith, h, hm.find-empty k));
      sized = refl;
    },
    refl,
  )

  -- `clear` makes of a valid shard a valid shard without nodes, in which no key is found, and
  -- leaves the evict flag.
  pub clear-IsValid :
      (c : Shard K Table) (xs : List ℕ)
      → IsValid hm c xs
      → IsValid hm (clear hm c) []
        × ((k : K) → map_find (clear hm c).m_map k ≡ none)
        × ((clear hm c).m_evict_flag ≡ c.m_evict_flag)
  unfolding clear
  clear-IsValid c xs w = (
    record {
      chain = ground arith;
      distinct = ground arith;
      room = w.room;
      allocated = λ x m. absurd (ground arith);
      stored = λ x m. absurd (ground arith);
      owned = λ k e h. absurd (ground (arith, h, hm.find-empty k));
      sized = refl;
    },
    hm.find-empty,
    refl,
  )
