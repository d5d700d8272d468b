-- ===== src/Cache/Scalable/Bound.antt =====
-- The invariant of cpp_lib/cache/concurrent_scalable_cache.h, and the bound on its size.
use cpp_lib.Prelude.{
  ℕ, zero, suc, ◌+◌, ◌≤◌, ◌<◌, ◌≡◌, refl, ◌∙◌, true, false, some, List, [], ◌∷◌, arith, length,
  ◌==◌, if◌then◌else◌, All, All-set, All-get_elem?, get_elem?, set, length-set, get_elem?-lt,
}
use cpp_lib.Container.HashMap.{HashMap}
use cpp_lib.Cache.Shard
use cpp_lib.Cache.Shard.{Shard, HashMapValue, CacheEvictType}
use cpp_lib.Cache.Shard.Invariant.{IsValid}
use cpp_lib.Cache.Shard.Insert.{insert-IsValid}
use cpp_lib.Cache.Shard.Reset.{init-IsValid}
use cpp_lib.Cache.Scalable.{
  Scalable, make_shards, build, init, get_shard_ind, get_shard, set_shard, insert, total_size, size,
  shard_index,
}
use cpp_lib.Cache.Scalable.Capacity.{total_max_size, make_shards-length, make_shards-total}

total_max_size-set :
    {K Table : Type 0} (shards : List (Shard K Table)) (i : ℕ) (s s' : Shard K Table)
    → get_elem? shards i ≡ some s
    → s'.m_max_size ≡ s.m_max_size
    → total_max_size (set shards i s') ≡ total_max_size shards
unfolding total_max_size
total_max_size-set [] i s s' at same = refl
total_max_size-set (x ∷ shards) zero s s' at same = ground arith
total_max_size-set (x ∷ shards) (suc i) s s' at same =
    omega (arith, total_max_size-set shards i s s' at same)

module _ {K V : Type 0} (hm : HashMap K (HashMapValue V)) (hash : K → ℕ) (dec : Discrete K) where
  open hm use {Table}

  pub record IsBounded (s : Shard K Table) : Type 0 where
    pub nodes : List ℕ
    pub valid : IsValid hm s nodes
    pub idle : s.m_evict_flag ≡ false
    pub bounded : length nodes ≤ s.m_max_size

  pub record IsSound (c : Scalable K Table) : Type 0 where
    pub shards : All IsBounded c.m_shards
    pub counted : length c.m_shards ≡ c.m_num_shards
    pub positive : 0 < c.m_num_shards
    pub divided : total_max_size c.m_shards ≡ c.m_max_size

  make_shards-IsBounded :
      (default_key : K) (max_size timeout : ℕ) (type : CacheEvictType) (n left i : ℕ)
      → All IsBounded (make_shards hm hash default_key max_size timeout type n left i)
  unfolding make_shards
  make_shards-IsBounded default_key max_size timeout type n zero i = tt
  make_shards-IsBounded default_key max_size timeout type n (suc left) i =
      let (valid, idle) = init-IsValid hm default_key _ timeout type in
      (
        record { nodes = []; valid = valid; idle = idle; bounded = omega arith },
        make_shards-IsBounded default_key max_size timeout type n left (i + 1),
      )

  max_size-build :
      (default_key : K) (max_size timeout : ℕ) (type : CacheEvictType) (n : ℕ)
      → (build hm hash default_key max_size timeout type n).m_max_size ≡ max_size
  unfolding build
  max_size-build default_key max_size timeout type n = refl

  total_size-make_shards :
      (default_key : K) (max_size timeout : ℕ) (type : CacheEvictType) (n left i : ℕ)
      → total_size (make_shards hm hash default_key max_size timeout type n left i) ≡ 0
  unfolding total_size make_shards Shard.init
  total_size-make_shards default_key max_size timeout type n zero i = refl
  total_size-make_shards default_key max_size timeout type n (suc left) i =
      omega (arith, total_size-make_shards default_key max_size timeout type n left (i + 1))

  size-build :
      (default_key : K) (max_size timeout : ℕ) (type : CacheEvictType) (n : ℕ)
      → size (build hm hash default_key max_size timeout type n) ≡ 0
  unfolding size build
  size-build default_key max_size timeout type n =
      total_size-make_shards default_key max_size timeout type n n 0

  build-IsSound :
      (default_key : K) (max_size timeout : ℕ) (type : CacheEvictType) (n : ℕ)
      → 0 < n
      → IsSound (build hm hash default_key max_size timeout type n)
  unfolding build
  build-IsSound default_key max_size timeout type zero h = absurd (omega arith)
  build-IsSound default_key max_size timeout type (suc n) h = record {
    shards = make_shards-IsBounded default_key max_size timeout type (suc n) (suc n) 0;
    counted = make_shards-length hm hash default_key max_size timeout type (suc n) (suc n) 0;
    positive = omega arith;
    divided = make_shards-total hm hash default_key max_size timeout type n;
  }

  -- If the hardware concurrency is positive, the constructor makes a sound cache of size 0 with
  -- the given `max_size`, which its shards divide exactly.
  pub init-IsSound :
      (cores : ℕ) (default_key : K) (max_size timeout num_shards : ℕ) (type : CacheEvictType)
      → 0 < cores
      → IsSound (init hm hash cores default_key max_size timeout num_shards type)
        × ((init hm hash cores default_key max_size timeout num_shards type).m_max_size ≡ max_size)
        × (size (init hm hash cores default_key max_size timeout num_shards type) ≡ 0)
  unfolding init
  init-IsSound cores default_key max_size timeout num_shards type h =
      let n = if num_shards == 0 then cores else num_shards in
      let pos : 0 < n = ground arith in
      (
        build-IsSound default_key max_size timeout type n pos,
        max_size-build default_key max_size timeout type n,
        size-build default_key max_size timeout type n,
      )

  total_size-le :
      (shards : List (Shard K Table))
      → All IsBounded shards
      → total_size shards ≤ total_max_size shards
  unfolding total_size total_max_size
  total_size-le [] h = omega arith
  total_size-le (s ∷ shards) h =
      omega (arith, h.0.bounded, h.0.valid.sized, total_size-le shards h.1)

  -- The size of a sound cache, summed over the shards, is at most its `m_max_size`.
  pub size-le-max_size : (c : Scalable K Table) → IsSound c → size c ≤ c.m_max_size
  unfolding size
  size-le-max_size c h = omega (arith, total_size-le c.m_shards h.shards, h.divided)

  -- The index of a key is the index of a shard: `m_shards.at` does not throw.
  pub get_shard-some :
      (c : Scalable K Table) (key : K)
      → IsSound c
      → (s : Shard K Table) × (get_shard hm hash c key ≡ some s) × IsBounded s
  unfolding get_shard shard_index
  get_shard-some c key h =
      let i = get_shard_ind hm hash c key in
      let (s, at) = get_elem?-lt c.m_shards i (omega (arith, h.counted, h.positive)) in
      (s, at, All-get_elem? IsBounded c.m_shards i h.shards at)

  -- On a sound cache `insert` does not throw and returns true; the cache is again sound, with the
  -- same `m_max_size`, and its size is at most that.
  pub insert-IsSound :
      (c : Scalable K Table) (key : K) (value : V) (now : ℕ)
      → IsSound c
      → (c' : Scalable K Table) × (insert hm hash c key value now ≡ some (c', true))
        × IsSound c'
        × (c'.m_max_size ≡ c.m_max_size)
        × (size c' ≤ c.m_max_size)
  unfolding insert get_shard
  insert-IsSound c key value now h =
      let i = get_shard_ind hm hash c key in
      let (s, at, b) = get_shard-some c key h in
      let (ys, valid, small, same, idle, flag) =
        insert-IsValid hm dec s b.nodes key value now b.valid b.idle b.bounded in
      let s' = (Shard.insert hm s key value now).0 in
      let c' = set_shard hm hash c i s' in
      let sound : IsSound c' = record {
        shards = All-set IsBounded c.m_shards i s' h.shards (record {
          nodes = ys;
          valid = valid;
          idle = idle;
          bounded = omega (arith, valid.sized);
        });
        counted = length-set c.m_shards i s' ∙ h.counted;
        positive = h.positive;
        divided = total_max_size-set c.m_shards i s s' at same ∙ h.divided;
      } in
      (c', rw (at, insert, flag) refl, sound, refl, size-le-max_size c' sound)
