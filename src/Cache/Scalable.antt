-- ===== src/Cache/Scalable.antt =====
-- `ConcurrentScalableCache` of cpp_lib/cache/concurrent_scalable_cache.h: shards behind a hash.
pub mod Capacity
pub mod Routing
pub mod Bound
pub mod Routed
pub mod Snapshot
use Prim.Native.Nat.{◌/◌, ◌%◌, ◌^◌}
use cpp_lib.Prelude.{
  ℕ, zero, suc, ◌+◌, Bool, true, false, Option, none, some, List, [], ◌∷◌, ◌++◌, map, ◌==◌,
  if◌then◌else◌, get_elem?, set,
}
use cpp_lib.Container.HashMap.{HashMap}
use cpp_lib.Cache.Shard
use cpp_lib.Cache.Shard.{Shard, HashMapValue, CacheEvictType}

pub record Scalable (K Table : Type 0) : Type 0 where
  pub m_max_size : ℕ
  pub m_num_shards : ℕ
  pub m_shards : List (Shard K Table)

-- The capacity of shard `i` out of `n`.
unfoldable pub shard_capacity : ℕ → ℕ → ℕ → ℕ
shard_capacity max_size n i = max_size / n + (if i == 0 then max_size % n else 0)

-- `get_shard_ind`: the top 16 bits of the 64-bit hash, modulo the number of shards.
unfoldable pub shard_index : ℕ → ℕ → ℕ
shard_index hash n = hash / 2 ^ 48 % n

module _ {K V : Type 0} (hm : HashMap K (HashMapValue V)) (hash : K → ℕ) where
  open hm use {Table}

  -- The loop of the constructor, with the count of shards left and the index of the next one.
  unfoldable pub make_shards : K → ℕ → ℕ → CacheEvictType → ℕ → ℕ → ℕ → List (Shard K Table)
  make_shards default_key max_size timeout type n zero i = []
  make_shards default_key max_size timeout type n (suc left) i =
      Shard.init hm default_key (shard_capacity max_size n i) timeout type
      ∷ make_shards default_key max_size timeout type n left (i + 1)

  unfoldable pub build : K → ℕ → ℕ → CacheEvictType → ℕ → Scalable K Table
  build default_key max_size timeout type n = record {
    m_max_size = max_size;
    m_num_shards = n;
    m_shards = make_shards default_key max_size timeout type n n 0;
  }

  -- The constructor; `hardware_concurrency` is what the standard library reports.
  unfoldable pub init : ℕ → K → ℕ → ℕ → ℕ → CacheEvictType → Scalable K Table
  init hardware_concurrency default_key max_size timeout num_shards type =
      build default_key max_size timeout type
        (if num_shards == 0 then hardware_concurrency else num_shards)

  abbrev pub get_shard_ind : Scalable K Table → K → ℕ
  get_shard_ind c key = shard_index (hash key) c.m_num_shards

  -- `none` is the exception of `m_shards.at`.
  unfoldable pub get_shard : Scalable K Table → K → Option (Shard K Table)
  get_shard c key = get_elem? c.m_shards (get_shard_ind c key)

  unfoldable pub find : Scalable K Table → K → ℕ → Option (Bool × Option (HashMapValue V))
  find c key now = elim (get_shard c key) [ none ↦ none | some s ↦ some (Shard.find hm s key now) ]

  abbrev set_shard : Scalable K Table → ℕ → Shard K Table → Scalable K Table
  set_shard c i s = record c { m_shards = set c.m_shards i s }

  unfoldable pub insert : Scalable K Table → K → V → ℕ → Option (Scalable K Table × Bool)
  insert c key value now = elim (get_shard c key) [
    | none ↦ none
    | some s ↦
        let (s', flag) = Shard.insert hm s key value now in
        some (set_shard c (get_shard_ind c key) s', flag)
  ]

  -- `data_vec[i].insert(pair)`.
  unfoldable pub add_to : List (List (K × V)) → ℕ → K × V → List (List (K × V))
  add_to buckets i pair = elim (get_elem? buckets i) [
    | none ↦ buckets
    | some b ↦ set buckets i (b ++ (pair ∷ []))
  ]

  -- The first loop of the batch `insert`: each pair goes into the bucket of its shard.
  unfoldable pub distribute : ℕ → List (List (K × V)) → List (K × V) → List (List (K × V))
  distribute n buckets [] = buckets
  distribute n buckets (pair ∷ rest) =
      distribute n (add_to buckets (shard_index (hash pair.0) n) pair) rest

  -- The second loop: an empty bucket leaves its shard alone.
  unfoldable pub insert_buckets :
      List (Shard K Table) → List (List (K × V)) → ℕ → List (Shard K Table)
  insert_buckets [] buckets now = []
  insert_buckets (s ∷ shards) [] now = s ∷ shards
  insert_buckets (s ∷ shards) ([] ∷ buckets) now = s ∷ insert_buckets shards buckets now
  insert_buckets (s ∷ shards) ((p ∷ b) ∷ buckets) now =
      Shard.insert_all hm s (p ∷ b) now ∷ insert_buckets shards buckets now

  unfoldable pub empty_buckets : ℕ → List (List (K × V))
  empty_buckets zero = []
  empty_buckets (suc n) = [] ∷ empty_buckets n

  unfoldable pub insert_all : Scalable K Table → List (K × V) → ℕ → Scalable K Table
  insert_all c entries now =
      let buckets = distribute c.m_num_shards (empty_buckets c.m_num_shards) entries in
      record c { m_shards = insert_buckets c.m_shards buckets now }

  unfoldable pub clear : Scalable K Table → Scalable K Table
  clear c = record c { m_shards = map (Shard.clear hm) c.m_shards }

  -- The loop of `snapshot_keys`, over the shards from the first.
  unfoldable pub snapshot_shards : List (Shard K Table) → List K → Option (List K)
  snapshot_shards [] keys = some keys
  snapshot_shards (s ∷ shards) keys = elim (Shard.snapshot_keys hm s) [
    | none ↦ none
    | some ks ↦ snapshot_shards shards (keys ++ ks)
  ]

  unfoldable pub snapshot_keys : Scalable K Table → List K → Option (List K)
  snapshot_keys c keys = snapshot_shards c.m_shards keys

-- The loop of `size`.
unfoldable pub total_size : {K Table : Type 0} → List (Shard K Table) → ℕ
total_size [] = 0
total_size (s ∷ shards) = s.m_size + total_size shards

unfoldable pub size : {K Table : Type 0} → Scalable K Table → ℕ
size c = total_size c.m_shards
