-- ===== src/Tests/Shards.antt =====
-- A shard with room for one entry, and the theorems on the shards of
-- cpp_lib/cache/concurrent_lru_cache.h at it.
use native.Mathlib.Decide.{ℕ_discrete}
use cpp_lib.Prelude.{
  ◌⊎◌, ℕ, ◌≤◌, ◌≡◌, refl, true, false, none, some, List, [], ◌∷◌, ◌++◌, map, inl, arith, length,
}
use cpp_lib.Container.HashMap.{HashMap}
use cpp_lib.Container.ListMap.{list_map}
use cpp_lib.Cache.Links.{delink, push_front}
use cpp_lib.Cache.Shard.{
  Shard, HashMapValue, evict_one, init, find, set_entry, add_entry, is_last_node_timeout,
  evict_body, evict_holding_flag, remove_node, remove_last, update_entry, evict, insert, insert_all,
  snapshot_keys,
}
use cpp_lib.Cache.Shard.Invariant.{IsValid}
use cpp_lib.Cache.Shard.Keeps.{Keeps}
use cpp_lib.Cache.Shard.Evict.{Settled, quota, evict-Keeps}
use cpp_lib.Cache.Shard.Insert.{insert-IsValid, find-insert_self}
use cpp_lib.Cache.Shard.Order.{Entry, entries, lru_put, insert-lru_put}
use cpp_lib.Cache.Shard.Batch.{lru_puts, insert_all-lru_puts}
use cpp_lib.Cache.Shard.Accessor.{get_value, empty, get_timestamp}
use cpp_lib.Cache.Shard.Lookup.{live, value_at, time_at, is_missing, lru_find, find-lru_find}
use cpp_lib.Cache.Shard.Snapshot.{snapshot_keys-map}
use cpp_lib.Cache.Shard.Overlap.{unlink, erase_entry, writes}
use cpp_lib.Cache.Shard.Settle.{most, evicts, evicts_settle}
use cpp_lib.Cache.Shard.Overlap.Evicted.{unlink-writes-erase_entry}
use cpp_lib.Cache.Shard.Reset.{init-IsValid}
use cpp_lib.Cache.Shard.Reach.{
  Reach, here, next, evicted, write, IsIdle, Reach-init, insert_all-Reach,
}

abbrev table : HashMap ℕ (HashMapValue ℕ)
table = list_map (HashMapValue ℕ)

abbrev empty_shard : Shard ℕ table.Table
empty_shard = init table 0 1 0 evict_one

abbrev one_shard : Shard ℕ table.Table
one_shard = (insert table empty_shard 7 70 5).0

-- What `insert` shows of `one_shard`.
abbrev Held : Type 0
Held =
    (ys : List ℕ) × IsValid table one_shard ys
    × (one_shard.m_size ≤ 1)
    × (one_shard.m_max_size ≡ 1)
    × (one_shard.m_evict_flag ≡ false)
    × ((insert table empty_shard 7 70 5).1 ≡ true)

held : Held
unfolding init
held =
    insert-IsValid table ℕ_discrete empty_shard [] 7 70 5 (init-IsValid table 0 1 0 evict_one).0
      refl (omega arith)

small : length held.0 ≤ one_shard.m_max_size
small = omega (arith, held.1.sized, held.2, held.3)

insert-IsValid_example :
    (ys : List ℕ) × IsValid table (insert table one_shard 8 80 6).0 ys
    × ((insert table one_shard 8 80 6).0.m_size ≤ one_shard.m_max_size)
    × ((insert table one_shard 8 80 6).0.m_max_size ≡ one_shard.m_max_size)
    × ((insert table one_shard 8 80 6).0.m_evict_flag ≡ false)
    × ((insert table one_shard 8 80 6).1 ≡ true)
insert-IsValid_example = insert-IsValid table ℕ_discrete one_shard held.0 8 80 6 held.1 held.4 small

insert-lru_put_example :
    (ys : List ℕ) × (more : List (Entry table ℕ_discrete)) × IsValid table
      (insert table one_shard 8 80 6).0
      ys
    × (entries table ℕ_discrete (insert table one_shard 8 80 6).0 ys ++ more
        ≡ lru_put table ℕ_discrete 8 80 6 (entries table ℕ_discrete one_shard held.0))
insert-lru_put_example = insert-lru_put table ℕ_discrete one_shard held.0 8 80 6 held.1 held.4

insert_all-lru_puts_example :
    let batch : List (ℕ × ℕ) = (8, 80) ∷ (7, 71) ∷ [] in
    let c' = insert_all table one_shard batch 6 in
    (ys : List ℕ) × (more : List (Entry table ℕ_discrete)) × IsValid table c' ys
    × (entries table ℕ_discrete c' ys ++ more
        ≡ lru_puts table ℕ_discrete batch 6 (entries table ℕ_discrete one_shard held.0))
    × (length more ≤ most one_shard.m_evict_type)
    × (((length ys ≤ one_shard.m_max_size) × (is_last_node_timeout table c' 6 ≡ false))
        ⊎ (quota one_shard.m_evict_type ≤ length more))
insert_all-lru_puts_example =
    insert_all-lru_puts table ℕ_discrete one_shard held.0 ((8, 80) ∷ (7, 71) ∷ []) 6 held.1 held.4

find-lru_find_example :
    let found = lru_find table ℕ_discrete 7 (entries table ℕ_discrete one_shard held.0) in
    let ac = (find table one_shard 7 9).1 in
    ((find table one_shard 7 9).0 ≡ live table ℕ_discrete one_shard.m_timeout 9 found)
    × (empty ac ≡ is_missing table ℕ_discrete found)
    × (get_value ac ≡ value_at table ℕ_discrete found)
    × (get_timestamp table one_shard ac ≡ time_at table ℕ_discrete found)
find-lru_find_example = find-lru_find table ℕ_discrete one_shard held.0 7 9 held.1

no_timeout : one_shard.m_timeout ≡ 0
unfolding init insert set_entry add_entry evict evict_holding_flag evict_body is_last_node_timeout
    list_map
no_timeout = refl

find-insert_self_example :
    (e : HashMapValue ℕ) × (find table (insert table one_shard 8 80 6).0 8 9 ≡ (true, some e))
    × (e.m_value ≡ 80)
find-insert_self_example =
    find-insert_self table ℕ_discrete one_shard held.0 8 80 6 held.1 held.4 9
      (omega (arith, held.3)) (inl no_timeout)

evict-Keeps_example :
    (ys : List ℕ) × Keeps table ℕ_discrete 6 one_shard held.0 (evict table one_shard 6) ys
    × Settled table ℕ_discrete 6 one_shard held.0
        (evict table one_shard 6)
        ys
        one_shard.m_evict_type
evict-Keeps_example = evict-Keeps table ℕ_discrete 6 one_shard held.0 held.1 held.4

snapshot_keys-map_example : snapshot_keys table one_shard ≡ some (map one_shard.m_key held.0)
snapshot_keys-map_example = snapshot_keys-map table one_shard held.0 held.1

Reach-init_example : IsIdle table ℕ_discrete (evict table (set_entry table empty_shard 7 70 5).0 6)
Reach-init_example =
    Reach-init table ℕ_discrete 0 1 0 evict_one
      (next (next here (write empty_shard 7 70 5)) (evicted _ 6))

insert_all-Reach_example :
    Reach table ℕ_discrete empty_shard (insert_all table empty_shard ((7, 70) ∷ (8, 80) ∷ []) 5)
insert_all-Reach_example = insert_all-Reach table ℕ_discrete empty_shard ((7, 70) ∷ (8, 80) ∷ []) 5

abbrev stored : HashMapValue ℕ
stored = record { m_value = 70; m_list_node = 4 }

seven_stored : table.find one_shard.m_map 7 ≡ some stored
unfolding insert set_entry add_entry update_entry evict evict_holding_flag evict_body remove_node
    remove_last is_last_node_timeout init delink push_front list_map
seven_stored = refl

-- The key that is being evicted is written, and another.
abbrev late_writes : List (ℕ × ℕ × ℕ)
late_writes = (7, 71, 6) ∷ (8, 80, 6) ∷ []

unlink-writes-erase_entry_example :
    let mid = writes table (unlink table one_shard 4) late_writes in
    let last = erase_entry table mid 4 in
    (ys : List ℕ) × IsValid table last ys
    × (table.find last.m_map (one_shard.m_key 4) ≡ none)
    × ((k : ℕ) → table.find last.m_map k ≡ table.find (table.erase mid.m_map (one_shard.m_key 4)) k)
unlink-writes-erase_entry_example =
    unlink-writes-erase_entry table ℕ_discrete one_shard held.0 4 late_writes held.1
      (held.1.owned 7 stored seven_stored).0

evicts_settle_example :
    (m : ℕ) × (m ≤ one_shard.m_size)
    × (ys : List ℕ) × IsValid table (evicts table 6 m one_shard) ys
    × ((evicts table 6 m one_shard).m_size ≤ one_shard.m_max_size)
    × (is_last_node_timeout table (evicts table 6 m one_shard) 6 ≡ false)
evicts_settle_example = evicts_settle table 6 ℕ_discrete one_shard held.0 held.1 held.4
