-- ===== src/Cache/Shard/Overlap.antt =====
-- `remove_node` of cpp_lib/cache/concurrent_lru_cache.h in its two halves, which take the list mutex
-- and the lock of the map one after the other, and calls of `set_entry` that run between them.
pub mod Pending
pub mod Writes
pub mod Evicted
use cpp_lib.Prelude.{ℕ, ◌-◌, ◌≡◌, refl, Option, none, some, Option-cases, inl, inr, List, [], ◌∷◌}
use cpp_lib.Container.HashMap.{HashMap}
use cpp_lib.Cache.Links.{delink}
use cpp_lib.Cache.Shard.{Shard, HashMapValue, remove_last, set_entry}

module _ {K V : Type 0} (hm : HashMap K (HashMapValue V)) where
  open hm use {Table, find as map_find, erase as map_erase}

  -- Under the list mutex.
  unfoldable pub unlink : Shard K Table → ℕ → Shard K Table
  unlink c moribund = record c { links = delink c.links moribund }

  -- Under the lock of the entry.
  unfoldable pub erase_entry : Shard K Table → ℕ → Shard K Table
  erase_entry c moribund = elim (map_find c.m_map (c.m_key moribund)) [
    | none ↦ c
    | some e ↦ record c { m_map = map_erase c.m_map (c.m_key moribund); m_size = c.m_size - 1 }
  ]

  -- One after the other they are what `remove_node` does when it runs alone.
  pub remove_last-halves :
      (c : Shard K Table) (moribund : ℕ)
      → remove_last hm c moribund ≡ erase_entry (unlink c moribund) moribund
  unfolding remove_last erase_entry unlink
  remove_last-halves c moribund = elim (Option-cases (map_find c.m_map (c.m_key moribund))) [
    | inl e ↦ rw (remove_last, erase_entry, e) refl
    | inr (v, e) ↦ rw (remove_last, erase_entry, e) refl
  ]

  -- Calls of `set_entry`, each with its key, value and time.
  unfoldable pub writes : Shard K Table → List (K × V × ℕ) → Shard K Table
  writes c [] = c
  writes c ((key, value, now) ∷ rest) = writes (set_entry hm c key value now).0 rest
