-- ===== src/Cache/Shard/Snapshot.antt =====
-- `snapshot_keys` of cpp_lib/cache/concurrent_lru_cache.h: the walk ends, at the tail.
use cpp_lib.Prelude.{
  ℕ, zero, suc, ◌<◌, ◌≡◌, ap, false, some, List, [], ◌∷◌, map, arith, ◌==◌, length, has,
}
use cpp_lib.Container.HashMap.{HashMap}
use cpp_lib.Cache.Links.{head, tail, Linked}
use cpp_lib.Cache.Shard.{Shard, HashMapValue, walk_keys, snapshot_keys}
use cpp_lib.Cache.Shard.Invariant.{IsValid}

module _ {K V : Type 0} (hm : HashMap K (HashMapValue V)) where
  open hm use {Table, find as map_find}

  walk_keys-map :
      (c : Shard K Table) (n a : ℕ) (xs : List ℕ)
      → Linked c.links a xs tail
      → has tail xs ≡ false
      → length xs < n
      → walk_keys hm n c (c.links.m_next a) ≡ some (map c.m_key xs)
  unfolding walk_keys
  walk_keys-map c zero a xs h t f = absurd (omega arith)
  walk_keys-map c (suc n) a [] h t f = rw h.0
  walk_keys-map c (suc n) a (x ∷ xs) h t f =
      let ne : (x == tail) ≡ false = ground arith in
      let rest = walk_keys-map c n x xs h.2 (ground arith) (omega arith) in
      rw (h.0, ne, rest) (ap (λ y. some (c.m_key y ∷ map c.m_key xs)) h.0)

  -- The walk of `snapshot_keys` over a valid shard ends at the tail, and gives the keys of the
  -- nodes from the most to the least recently used.
  pub snapshot_keys-map :
      (c : Shard K Table) (xs : List ℕ)
      → IsValid hm c xs
      → snapshot_keys hm c ≡ some (map c.m_key xs)
  unfolding snapshot_keys
  snapshot_keys-map c xs w =
      walk_keys-map c _ head xs w.chain (ground (arith, w.distinct)) (omega (arith, w.sized))
