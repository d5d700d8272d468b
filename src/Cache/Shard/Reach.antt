-- ===== src/Cache/Shard/Reach.antt =====
-- The shard of cpp_lib/cache/concurrent_lru_cache.h under its operations in any order. Outside
-- `TEST_MODE` an `insert` starts its `evict` on a thread of its own, so the steps are `set_entry`
-- and `evict`, each at a time of its own and in any order.
use cpp_lib.Prelude.{ℕ, ◌≡◌, ◌∙◌, false, List, [], ◌∷◌}
use cpp_lib.Container.HashMap.{HashMap}
use cpp_lib.Cache.Shard.{
  Shard, HashMapValue, CacheEvictType, init, set_entry, set_entries, evict, insert_all, clear,
}
use cpp_lib.Cache.Shard.Invariant.{IsValid}
use cpp_lib.Cache.Shard.Evict.{evict-Keeps}
use cpp_lib.Cache.Shard.Set.{set_entry-Written}
use cpp_lib.Cache.Shard.Reset.{init-IsValid, clear-IsValid}

module _ {K V : Type 0} (hm : HashMap K (HashMapValue V)) (dec : Discrete K) where
  open hm use {Table}

  pub data Step : Shard K Table → Shard K Table → Type 0 where
    write :
        (c : Shard K Table) (key : K) (value : V) (now : ℕ)
        → Step c (set_entry hm c key value now).0
    evicted : (c : Shard K Table) (now : ℕ) → Step c (evict hm c now)
    cleared : (c : Shard K Table) → Step c (clear hm c)

  pub data Reach (c : Shard K Table) : Shard K Table → Type 0 where
    here : Reach c c
    next : {d e : Shard K Table} → Reach c d → Step d e → Reach c e

  pub record IsIdle (c : Shard K Table) : Type 0 where
    pub nodes : List ℕ
    pub valid : IsValid hm c nodes
    pub idle : c.m_evict_flag ≡ false

  Step-IsIdle : {c d : Shard K Table} → Step c d → IsIdle c → IsIdle d
  Step-IsIdle (write c key value now) i =
      let (r, done) = set_entry-Written hm dec c i.nodes key value now i.valid in
      record { nodes = r.node ∷ r.rest; valid = r.valid; idle = r.evict_flag ∙ i.idle }
  Step-IsIdle (evicted c now) i =
      let (ys, keeps, settled) = evict-Keeps hm dec now c i.nodes i.valid i.idle in
      record { nodes = ys; valid = keeps.valid; idle = keeps.settings.evict_flag ∙ i.idle }
  Step-IsIdle (cleared c) i =
      let (valid, none_left, flag) = clear-IsValid hm c i.nodes i.valid in
      record { nodes = []; valid = valid; idle = flag ∙ i.idle }

  Reach-IsIdle : {c d : Shard K Table} → Reach c d → IsIdle c → IsIdle d
  Reach-IsIdle here i = i
  Reach-IsIdle (next r s) i = Step-IsIdle s (Reach-IsIdle r i)

  -- Every shard that `set_entry`, `evict` and `clear` reach from a constructed one, in any order,
  -- is valid and has its evict flag down.
  pub Reach-init :
      (default_key : K) (max_size timeout : ℕ) (type : CacheEvictType) {c : Shard K Table}
      → Reach (init hm default_key max_size timeout type) c
      → IsIdle c
  Reach-init default_key max_size timeout type r =
      let (valid, idle) = init-IsValid hm default_key max_size timeout type in
      Reach-IsIdle r (record { nodes = []; valid = valid; idle = idle })

  set_entries-Reach :
      (c d : Shard K Table) (entries : List (K × V)) (now : ℕ)
      → Reach c d
      → Reach c (set_entries hm d entries now)
  unfolding set_entries
  set_entries-Reach c d [] now r = r
  set_entries-Reach c d ((key, value) ∷ rest) now r =
      set_entries-Reach c (set_entry hm d key value now).0 rest now (next r (write d key value now))

  pub insert_all-Reach :
      (c : Shard K Table) (entries : List (K × V)) (now : ℕ) → Reach c (insert_all hm c entries now)
  unfolding insert_all
  insert_all-Reach c entries now = next (set_entries-Reach c c entries now here) (evicted _ now)
