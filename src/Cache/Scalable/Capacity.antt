-- ===== src/Cache/Scalable/Capacity.antt =====
-- The constructor of cpp_lib/cache/concurrent_scalable_cache.h divides the capacity exactly.
use Prim.Native.Nat.{◌/◌}
use native.Mathlib.Nat.{div-add-mod}
use cpp_lib.Prelude.{ℕ, zero, suc, ◌+◌, ◌*◌, ◌<◌, ◌≡◌, refl, List, [], ◌∷◌, arith, length}
use cpp_lib.Container.HashMap.{HashMap}
use cpp_lib.Cache.Shard
use cpp_lib.Cache.Shard.{Shard, HashMapValue, CacheEvictType}
use cpp_lib.Cache.Scalable.{shard_capacity, make_shards}

-- The sum of the capacities of the shards.
unfoldable pub total_max_size : {K Table : Type 0} → List (Shard K Table) → ℕ
total_max_size [] = 0
total_max_size (s ∷ shards) = s.m_max_size + total_max_size shards

module _ {K V : Type 0} (hm : HashMap K (HashMapValue V)) (hash : K → ℕ) where
  open hm use {Table}

  pub make_shards-length :
      (default_key : K) (max_size timeout : ℕ) (type : CacheEvictType) (n left i : ℕ)
      → length (make_shards hm hash default_key max_size timeout type n left i) ≡ left
  unfolding make_shards
  make_shards-length default_key max_size timeout type n zero i = refl
  make_shards-length default_key max_size timeout type n (suc left) i =
      omega (arith, make_shards-length default_key max_size timeout type n left (i + 1))

  -- From the second shard on, each has the quotient.
  make_shards-rest :
      (default_key : K) (max_size timeout : ℕ) (type : CacheEvictType) (n left i : ℕ)
      → 0 < i
      → total_max_size (make_shards hm hash default_key max_size timeout type n left i)
        ≡ left * (max_size / n)
  unfolding make_shards total_max_size shard_capacity Shard.init
  make_shards-rest default_key max_size timeout type n zero i h = omega arith
  make_shards-rest default_key max_size timeout type n (suc left) i h =
      ground (arith, make_shards-rest default_key max_size timeout type n left (i + 1))

  pub make_shards-total :
      (default_key : K) (max_size timeout : ℕ) (type : CacheEvictType) (n : ℕ)
      → total_max_size (make_shards hm hash default_key max_size timeout type (suc n) (suc n) 0)
        ≡ max_size
  unfolding make_shards total_max_size shard_capacity Shard.init
  make_shards-total default_key max_size timeout type n = ground (
    arith,
    make_shards-rest default_key max_size timeout type (suc n) n 1,
    div-add-mod max_size (suc n),
  )
