-- ===== src/Tests/Caches.antt =====
-- A cache of four shards, and the theorems on cpp_lib/cache/concurrent_scalable_cache.h and
-- lru_cache.h at it.
use native.Mathlib.Decide.{ℕ_discrete}
use Prim.Native.Nat.{◌*◌, ◌^◌}
use cpp_lib.Prelude.{ℕ, ◌≤◌, ◌≡◌, refl, true, Option, some, none, List, [], ◌∷◌, ◌++◌, inr, arith}
use cpp_lib.Container.HashMap.{HashMap}
use cpp_lib.Container.ListMap.{list_map}
use cpp_lib.Cache.Shard
use cpp_lib.Cache.Shard.{Shard, HashMapValue, evict_batch}
use cpp_lib.Cache.Scalable.{
  Scalable, shard_capacity, make_shards, build, init, get_shard, find, insert, shard_index, size,
  insert_all, snapshot_keys,
}
use cpp_lib.Cache.Scalable.Capacity.{total_max_size, make_shards-total}
use cpp_lib.Cache.Scalable.Bound.{IsSound, init-IsSound, insert-IsSound}
use cpp_lib.Cache.Scalable.Routing.{find-insert_routed}
use cpp_lib.Cache.Scalable.Routed.{Reach, here, next, inserted as inserted_step, batch_inserted}
use cpp_lib.Cache.Scalable.Snapshot.{count, filled, snapshot_keys-find}
use cpp_lib.Cache.Front.{mget_values}
use cpp_lib.Cache.Front.Reads.{missed, batch_hit, or_else, mget_values-hit}

abbrev table : HashMap ℕ (HashMapValue ℕ)
table = list_map (HashMapValue ℕ)

abbrev hash : ℕ → ℕ
hash k = k * 2 ^ 48

abbrev empty_cache : Scalable ℕ table.Table
empty_cache = init table hash 2 0 10 60 4 evict_batch

-- The shard of the key 5.
abbrev shard_of_five : Shard ℕ table.Table
shard_of_five = Shard.init table 0 2 60 evict_batch

sound : IsSound table hash ℕ_discrete empty_cache
sound = (init-IsSound table hash ℕ_discrete 2 0 10 60 4 evict_batch (omega arith)).0

at_five : get_shard table hash empty_cache 5 ≡ some shard_of_five
unfolding get_shard init build make_shards shard_capacity shard_index
at_five = refl

insert-IsSound_example :
    (c' : Scalable ℕ table.Table) × (insert table hash empty_cache 5 50 3 ≡ some (c', true))
    × IsSound table hash ℕ_discrete c'
    × (c'.m_max_size ≡ empty_cache.m_max_size)
    × (size c' ≤ empty_cache.m_max_size)
insert-IsSound_example = insert-IsSound table hash ℕ_discrete empty_cache 5 50 3 sound

abbrev Inserted : Type 0
Inserted =
    (c' : Scalable ℕ table.Table) × (insert table hash empty_cache 5 50 3 ≡ some (c', true))
    × IsSound table hash ℕ_discrete c'
    × (c'.m_max_size ≡ empty_cache.m_max_size)
    × (size c' ≤ empty_cache.m_max_size)

inserted : Inserted
inserted = insert-IsSound table hash ℕ_discrete empty_cache 5 50 3 sound

find-insert_routed_example :
    (e : HashMapValue ℕ) × (find table hash inserted.0 5 63 ≡ some (true, some e))
    × (e.m_value ≡ 50)
unfolding Shard.init
find-insert_routed_example =
    find-insert_routed table hash ℕ_discrete empty_cache inserted.0 5 50 3 63 shard_of_five sound
      at_five (omega arith) (inr (omega arith)) inserted.1

make_shards-total_example : total_max_size (make_shards table hash 0 10 60 evict_batch 4 4 0) ≡ 10
make_shards-total_example = make_shards-total table hash 0 10 60 evict_batch 3

mget_values-hit_example :
    (values' : ℕ → Option ℕ) × (mget_values table hash ℕ_discrete inserted.0
        (5 ∷ 9 ∷ [])
        (λ k. none)
        []
        4
      ≡ some (values', [] ++ missed table hash ℕ_discrete inserted.0 (5 ∷ 9 ∷ []) 4))
    × ((k : ℕ)
        → values' k
          ≡ or_else table hash ℕ_discrete none
              (batch_hit table hash ℕ_discrete inserted.0 (5 ∷ 9 ∷ []) k 4))
mget_values-hit_example =
    mget_values-hit table hash ℕ_discrete inserted.0 (5 ∷ 9 ∷ []) (λ k. none) [] 4 inserted.2

-- A key written, and a batch of two keys of one shard.
abbrev batch : Scalable ℕ table.Table
batch = insert_all table hash inserted.0 ((9, 90) ∷ (13, 130) ∷ []) 4

batch-Reach : Reach table hash ℕ_discrete empty_cache batch
batch-Reach =
    next (next here (inserted_step empty_cache inserted.0 5 50 3 true inserted.1))
      (batch_inserted inserted.0 ((9, 90) ∷ (13, 130) ∷ []) 4)

snapshot_keys-find_example :
    (ks : List ℕ) × (snapshot_keys table hash batch (7 ∷ []) ≡ some ((7 ∷ []) ++ ks))
    × ((k now : ℕ)
        → count table hash ℕ_discrete k ks
          ≡ filled table hash ℕ_discrete (find table hash batch k now))
snapshot_keys-find_example =
    snapshot_keys-find table hash ℕ_discrete 2 0 10 60 4 evict_batch batch (7 ∷ []) batch-Reach
