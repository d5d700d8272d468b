-- ===== src/Cache/Shard/Serves.antt =====
-- The keys that a shard of cpp_lib/cache/concurrent_lru_cache.h holds: operations on keys of one
-- kind leave a shard that holds keys of that kind.
use mathlib.Core.Path.{subst}
use cpp_lib.Prelude.{ℕ, ◌≡◌, sym, ap, ◌∙◌, false, some, List, [], ◌∷◌, All, arith}
use cpp_lib.Container.HashMap.{HashMap}
use cpp_lib.Cache.Shard.{
  Shard, HashMapValue, CacheEvictType, init, set_entry, set_entries, evict, insert, insert_all,
  clear,
}
use cpp_lib.Cache.Shard.Invariant.{IsValid}
use cpp_lib.Cache.Shard.Evict.{evict-Keeps}
use cpp_lib.Cache.Shard.Set.{set_entry-Written}
use cpp_lib.Cache.Shard.Reset.{init-IsValid, clear-IsValid}

module _ {K V : Type 0} (hm : HashMap K (HashMapValue V)) (dec : Discrete K)
    (Own : K → Type 0) where
  open hm use {Table, find as map_find}

  -- A valid shard with the evict flag down, of which every key is one of its own.
  pub record Serves (c : Shard K Table) : Type 0 where
    pub nodes : List ℕ
    pub valid : IsValid hm c nodes
    pub idle : c.m_evict_flag ≡ false
    pub own : (k : K) (e : HashMapValue V) → map_find c.m_map k ≡ some e → Own k

  pub init-Serves :
      (default_key : K) (max_size timeout : ℕ) (type : CacheEvictType)
      → Serves (init hm default_key max_size timeout type)
  unfolding init
  init-Serves default_key max_size timeout type =
      let (valid, idle) = init-IsValid hm default_key max_size timeout type in
      record {
        nodes = [];
        valid = valid;
        idle = idle;
        own = λ k e h. absurd (ground (arith, h, hm.find-empty k));
      }

  pub clear-Serves : (c : Shard K Table) → Serves c → Serves (clear hm c)
  clear-Serves c s =
      let (valid, none_left, flag) = clear-IsValid hm c s.nodes s.valid in
      record {
        nodes = [];
        valid = valid;
        idle = flag ∙ s.idle;
        own = λ k e h. absurd (ground (arith, h, none_left k));
      }

  pub set_entry-Serves :
      (c : Shard K Table) (key : K) (value : V) (now : ℕ)
      → Own key
      → Serves c
      → Serves (set_entry hm c key value now).0
  set_entry-Serves c key value now mine s =
      let (r, done) = set_entry-Written hm dec c s.nodes key value now s.valid in
      record {
        nodes = r.node ∷ r.rest;
        valid = r.valid;
        idle = r.evict_flag ∙ s.idle;
        own = λ k e h. elim (dec key k) [
          | yes same ↦ subst Own same mine
          | no ne ↦ s.own k e (sym (r.others k ne) ∙ h)
        ];
      }

  pub evict-Serves : (c : Shard K Table) (now : ℕ) → Serves c → Serves (evict hm c now)
  evict-Serves c now s =
      let (ys, keeps, settled) = evict-Keeps hm dec now c s.nodes s.valid s.idle in
      record {
        nodes = ys;
        valid = keeps.valid;
        idle = keeps.settings.evict_flag ∙ s.idle;
        own = λ k e h.
            let (m, named) = keeps.valid.owned k e h in
            let at : c.m_key e.m_list_node ≡ k =
              ap (λ (g : ℕ → K). g e.m_list_node) (sym keeps.settings.key) ∙ named in
            s.own k e (rw at at (sym (keeps.kept e.m_list_node m)) ∙ h);
      }

  set_entries-Serves :
      (c : Shard K Table) (entries : List (K × V)) (now : ℕ)
      → All (λ p. Own p.0) entries
      → Serves c
      → Serves (set_entries hm c entries now)
  unfolding set_entries
  set_entries-Serves c [] now h s = s
  set_entries-Serves c ((key, value) ∷ rest) now h s =
      set_entries-Serves (set_entry hm c key value now).0 rest now h.1
        (set_entry-Serves c key value now h.0 s)

  pub insert_all-Serves :
      (c : Shard K Table) (entries : List (K × V)) (now : ℕ)
      → All (λ p. Own p.0) entries
      → Serves c
      → Serves (insert_all hm c entries now)
  unfolding insert_all
  insert_all-Serves c entries now h s =
      evict-Serves (set_entries hm c entries now) now (set_entries-Serves c entries now h s)

  pub insert-Serves :
      (c : Shard K Table) (key : K) (value : V) (now : ℕ)
      → Own key
      → Serves c
      → Serves (insert hm c key value now).0
  unfolding insert
  insert-Serves c key value now mine s =
      rw ((set_entry-Written hm dec c s.nodes key value now s.valid).1) (
        evict-Serves (set_entry hm c key value now).0 now (set_entry-Serves c key value now mine s))
