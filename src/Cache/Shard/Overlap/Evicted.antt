-- ===== src/Cache/Shard/Overlap/Evicted.antt =====
-- An eviction of cpp_lib/cache/concurrent_lru_cache.h with calls of `set_entry` between its halves.
use cpp_lib.Prelude.{ℕ, ◌≡◌, refl, sym, ap, ◌∙◌, true, none, List, [], ◌∷◌, has, erase}
use cpp_lib.Container.HashMap.{HashMap}
use cpp_lib.Cache.Shard.{Shard, HashMapValue, set_entry}
use cpp_lib.Cache.Shard.Invariant.{IsValid}
use cpp_lib.Cache.Shard.Overlap.{unlink, erase_entry, writes}
use cpp_lib.Cache.Shard.Overlap.Pending.{without, IsPending, unlink-IsPending}
use cpp_lib.Cache.Shard.Overlap.Writes.{set_entry-Kept}

module _ {K V : Type 0} (hm : HashMap K (HashMapValue V)) (dec : Discrete K) where
  open hm use {Table, find as map_find}

  writes-Kept :
      (c : Shard K Table) (xs : List ℕ) (x : ℕ) (ws : List (K × V × ℕ))
      → IsPending hm dec c xs x
      → (ys : List ℕ) × IsPending hm dec (writes hm c ws) ys x
        × ((writes hm c ws).m_key x ≡ c.m_key x)
  unfolding writes
  writes-Kept c xs x [] p = (xs, p, refl)
  writes-Kept c xs x ((key, value, now) ∷ rest) p =
      let (ys, q, same) = set_entry-Kept hm dec c xs x p key value now in
      let (zs, r, same') = writes-Kept (set_entry hm c key value now).0 ys x rest q in
      (zs, r, same' ∙ same)

  -- Whatever calls of `set_entry` run between the two halves of `remove_node` on a node of a
  -- valid shard, the shard ends valid. The key of the node is then not found, also if one of
  -- those calls has written it; every other key is as they left it.
  pub unlink-writes-erase_entry :
      (c : Shard K Table) (xs : List ℕ) (x : ℕ) (ws : List (K × V × ℕ))
      → IsValid hm c xs
      → has x xs ≡ true
      → let mid = writes hm (unlink hm c x) ws in
        let last = erase_entry hm mid x in
        (ys : List ℕ) × IsValid hm last ys
        × (map_find last.m_map (c.m_key x) ≡ none)
        × ((k : K) → map_find last.m_map k ≡ map_find (hm.erase mid.m_map (c.m_key x)) k)
  unfolding erase_entry unlink
  unlink-writes-erase_entry c xs x ws w m =
      let (ys, p, same) =
        writes-Kept (unlink hm c x) (erase x xs) x ws (unlink-IsPending hm dec c xs x w m) in
      let mid = writes hm (unlink hm c x) ws in
      let gone : erase_entry hm mid x ≡ without hm dec mid x = rw (erase_entry, p.there.1) refl in
      rw gone (
        ys,
        p.valid,
        ap (map_find (hm.erase mid.m_map (mid.m_key x))) (sym same)
            ∙ hm.find-erase_self mid.m_map (mid.m_key x),
        λ k. ap (λ a. map_find (hm.erase mid.m_map a) k) same,
      )
