-- ===== src/Cache/Shard/Batch.antt =====
-- A batch `insert` of cpp_lib/cache/concurrent_lru_cache.h on the list of entries: all pairs are
-- written, then one `evict` runs.
use cpp_lib.Prelude.{
  ℕ, ◌≤◌, ◌+◌, ◌≡◌, ◌∙◌, refl, ap, ◌⊎◌, inl, inr, false, List, [], ◌∷◌, ◌++◌, map, length,
  length-append, length-map, arith,
}
use cpp_lib.Container.HashMap.{HashMap}
use cpp_lib.Cache.Shard.{
  Shard, HashMapValue, is_last_node_timeout, set_entry, set_entries, evict, insert_all,
}
use cpp_lib.Cache.Shard.Invariant.{IsValid}
use cpp_lib.Cache.Shard.Evict.{Settled, quota, evict-Keeps}
use cpp_lib.Cache.Shard.Set.{set_entry-Written}
use cpp_lib.Cache.Shard.Order.{Entry, entry, entries, lru_put, Written-lru_put, Keeps-entries}
use cpp_lib.Cache.Shard.Settle.{most, insert_all-size}

-- The length of a mapped list, in two parts.
length-parts :
    {A : Type 0} (f g : ℕ → A) (xs ys : List ℕ) (more : List A)
    → map f ys ++ more ≡ map g xs
    → length ys + length more ≡ length xs
length-parts f g xs ys more e =
    omega (arith, length-map f ys, length-map g xs, length-append (map f ys) more, ap length e)

module _ {K V : Type 0} (hm : HashMap K (HashMapValue V)) (dec : Discrete K) where
  open hm use {Table}

  -- The pairs are written one after the other.
  unfoldable pub lru_puts : List (K × V) → ℕ → List (Entry hm dec) → List (Entry hm dec)
  lru_puts [] now es = es
  lru_puts ((key, value) ∷ rest) now es = lru_puts rest now (lru_put hm dec key value now es)

  -- A valid shard with the evict flag down that holds `es`, with the settings of `c`.
  record Holds (c d : Shard K Table) (es : List (Entry hm dec)) : Type 0 where
    nodes : List ℕ
    valid : IsValid hm d nodes
    held : entries hm dec d nodes ≡ es
    idle : d.m_evict_flag ≡ false
    max_size : d.m_max_size ≡ c.m_max_size
    evict_type : d.m_evict_type ≡ c.m_evict_type

  set_entries-Holds :
      (c d : Shard K Table) (es : List (Entry hm dec)) (batch : List (K × V)) (now : ℕ)
      → Holds c d es
      → Holds c (set_entries hm d batch now) (lru_puts batch now es)
  unfolding set_entries lru_puts
  set_entries-Holds c d es [] now h = h
  set_entries-Holds c d es ((key, value) ∷ rest) now h =
      let r = (set_entry-Written hm dec d h.nodes key value now h.valid).0 in
      let d' = (set_entry hm d key value now).0 in
      set_entries-Holds c d' (lru_put hm dec key value now es) rest now (record {
        nodes = r.node ∷ r.rest;
        valid = r.valid;
        held =
            Written-lru_put hm dec d h.nodes key value now h.valid d' r
            ∙ ap (lru_put hm dec key value now) h.held;
        idle = r.evict_flag ∙ h.idle;
        max_size = r.max_size ∙ h.max_size;
        evict_type = r.evict_type ∙ h.evict_type;
      })

  settled_as :
      (now : ℕ) (c d d' : Shard K Table) (xs ys : List ℕ) (more : List (Entry hm dec))
      → d.m_max_size ≡ c.m_max_size
      → d.m_evict_type ≡ c.m_evict_type
      → length ys + length more ≡ length xs
      → Settled hm dec now d xs d' ys d.m_evict_type
      → ((length ys ≤ c.m_max_size) × (is_last_node_timeout hm d' now ≡ false))
        ⊎ (quota c.m_evict_type ≤ length more)
  settled_as now c d d' xs ys more size type count (inl (fits, live)) =
      inl (omega (arith, fits, size), live)
  settled_as now c d d' xs ys more size type count (inr gone) =
      inr (omega (arith, gone, count, ap quota type))

  -- For a valid shard with the evict flag down, a batch `insert` gives a valid shard whose
  -- entries are a prefix of what writing the pairs one after the other makes of the entries of
  -- before. At most 2 entries are missing, or 64 under `kEvictBatch`. Afterwards the size fits
  -- and the last node is not expired, or entries are missing, 64 of them under `kEvictBatch`.
  pub insert_all-lru_puts :
      (c : Shard K Table) (xs : List ℕ) (batch : List (K × V)) (now : ℕ)
      → IsValid hm c xs
      → c.m_evict_flag ≡ false
      → let c' = insert_all hm c batch now in
        (ys : List ℕ) × (more : List (Entry hm dec)) × IsValid hm c' ys
        × (entries hm dec c' ys ++ more ≡ lru_puts batch now (entries hm dec c xs))
        × (length more ≤ most c.m_evict_type)
        × (((length ys ≤ c.m_max_size) × (is_last_node_timeout hm c' now ≡ false))
            ⊎ (quota c.m_evict_type ≤ length more))
  unfolding insert_all
  insert_all-lru_puts c xs batch now w idle =
      let h = set_entries-Holds c c (entries hm dec c xs) batch now (record {
        nodes = xs;
        valid = w;
        held = refl;
        idle = idle;
        max_size = refl;
        evict_type = refl;
      }) in
      let d = set_entries hm c batch now in
      let (ys, keeps, settled) = evict-Keeps hm dec now d h.nodes h.valid h.idle in
      let (more, first) = Keeps-entries hm dec now d (evict hm d now) h.nodes ys keeps in
      let count : length ys + length more ≡ length h.nodes =
        length-parts (entry hm dec (evict hm d now)) (entry hm dec d) h.nodes ys more first in
      (
        ys,
        more,
        keeps.valid,
        first ∙ h.held,
        omega (arith, count, keeps.valid.sized, h.valid.sized, insert_all-size hm now c batch),
        settled_as now c d (evict hm d now) h.nodes ys more h.max_size h.evict_type count settled,
      )
