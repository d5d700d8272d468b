-- ===== src/Cache/Shard/Settle.antt =====
-- How far the evictions of cpp_lib/cache/concurrent_lru_cache.h go: one of them removes a few nodes,
-- and enough of them bring the shard within its bound.
use cpp_lib.Prelude.{
  ℕ, zero, suc, ◌+◌, ◌-◌, ◌≤◌, ◌<◌, ◌≡◌, ◌∙◌, refl, ap, Bool, true, false, not, ◌&&◌, Bool-cases,
  Option-cases, inl, inr, List, [], ◌∷◌, length, arith, ltb, leb, ◌==◌, if◌then◌else◌,
}
use cpp_lib.Container.HashMap.{HashMap}
use cpp_lib.Cache.Links.{null, head, tail, is_in_list}
use cpp_lib.Cache.Shard.{
  Shard, HashMapValue, CacheEvictType, evict_one, evict_batch, max_evict_batch, remove_last,
  remove_node, is_last_node_timeout, evict_overload, evict_expired, evict_body, evict_holding_flag,
  evict, set_entry, update_entry, add_entry, set_entries, insert_all,
}
use cpp_lib.Cache.Shard.Invariant.{IsValid}
use cpp_lib.Cache.Shard.Evict.{quota, evict-Keeps}

-- What one `evict` removes at most.
abbrev pub most : CacheEvictType → ℕ
most evict_one = 2
most evict_batch = max_evict_batch

module _ {K V : Type 0} (hm : HashMap K (HashMapValue V)) (now : ℕ) where
  open hm use {Table, find as map_find}

  remove_last-size : (c : Shard K Table) (x : ℕ) → c.m_size ≤ (remove_last hm c x).m_size + 1
  unfolding remove_last
  remove_last-size c x = elim (Option-cases (map_find c.m_map (c.m_key x))) [
    | inl e ↦ rw (e, remove_last) (omega arith)
    | inr (v, e) ↦ rw (e, remove_last) (omega arith)
  ]

  remove_node-size :
      (c : Shard K Table) (check : Bool) → c.m_size ≤ (remove_node hm c check now).m_size + 1
  unfolding remove_node
  remove_node-size c check =
      let x = c.links.m_prev tail in
      elim (Bool-cases (x == head)) [
        | inl y ↦ rw (y, remove_node) (omega arith)
        | inr n ↦ elim (Bool-cases (check && leb (now - c.m_timestamp x) c.m_timeout)) [
          | inl y ↦ rw (n, y, remove_node) (omega arith)
          | inr m ↦ rw (n, m, remove_node) (remove_last-size c x)
        ]
      ]

  evict_overload-size :
      (n : ℕ) (c : Shard K Table)
      → c.m_size + (evict_overload hm n c now).1 ≤ (evict_overload hm n c now).0.m_size + n
  unfolding evict_overload
  evict_overload-size zero c = omega arith
  evict_overload-size (suc n) c = elim (Bool-cases (ltb c.m_max_size c.m_size)) [
    | inl y ↦
        rw (y, evict_overload)
          (omega
            (arith, remove_node-size c false, evict_overload-size n (remove_node hm c false now)))
    | inr m ↦ rw (m, evict_overload) (omega arith)
  ]

  evict_expired-size :
      (n : ℕ) (c : Shard K Table) → c.m_size ≤ (evict_expired hm n c now).m_size + n
  unfolding evict_expired
  evict_expired-size zero c = omega arith
  evict_expired-size (suc n) c = elim (Bool-cases (is_last_node_timeout hm c now)) [
    | inl y ↦
        rw (y, evict_expired)
          (omega (arith, remove_node-size c true, evict_expired-size n (remove_node hm c true now)))
    | inr m ↦ rw (m, evict_expired) (omega arith)
  ]

  -- A removal that is made or not.
  maybe-size :
      (b check : Bool) (c : Shard K Table)
      → c.m_size ≤ (if b then remove_node hm c check now else c).m_size + 1
  maybe-size true check c = remove_node-size c check
  maybe-size false check c = omega arith

  evict_body-size :
      (type : CacheEvictType) (c : Shard K Table)
      → c.m_size ≤ (evict_body hm type c now).m_size + most type
  unfolding evict_body
  evict_body-size evict_one c =
      let over = ltb c.m_max_size c.m_size in
      let c' = if over then remove_node hm c false now else c in
      omega (arith, maybe-size over false c, maybe-size (is_last_node_timeout hm c' now) true c')
  evict_body-size evict_batch c =
      let r = evict_overload hm max_evict_batch c now in
      omega (arith, evict_overload-size max_evict_batch c, evict_expired-size r.1 r.0)

  either :
      (b : Bool) (c d : Shard K Table) (n k : ℕ)
      → n ≤ c.m_size + k
      → n ≤ d.m_size + k
      → n ≤ (if b then c else d).m_size + k
  either true c d n k h g = h
  either false c d n k h g = g

  evict-size : (c : Shard K Table) → c.m_size ≤ (evict hm c now).m_size + most c.m_evict_type
  unfolding evict evict_holding_flag
  evict-size c =
      either c.m_evict_flag c (evict_holding_flag hm c now) c.m_size (most c.m_evict_type)
        (omega arith) (evict_body-size c.m_evict_type (record c { m_evict_flag = true }))

  set_entry-type :
      (c : Shard K Table) (key : K) (value : V)
      → (set_entry hm c key value now).0.m_evict_type ≡ c.m_evict_type
  unfolding set_entry update_entry add_entry
  set_entry-type c key value = elim (Option-cases (map_find c.m_map key)) [
    | inl e ↦ rw (e, set_entry) refl
    | inr (v, e) ↦
        elim (Bool-cases (not (v.m_list_node == null) && is_in_list c.links v.m_list_node)) [
          | inl y ↦ rw (e, set_entry, y) refl
          | inr n ↦ rw (e, set_entry, n) refl
        ]
  ]

  set_entries-type :
      (c : Shard K Table) (batch : List (K × V))
      → (set_entries hm c batch now).m_evict_type ≡ c.m_evict_type
  unfolding set_entries
  set_entries-type c [] = refl
  set_entries-type c ((key, value) ∷ rest) =
      set_entries-type (set_entry hm c key value now).0 rest ∙ set_entry-type c key value

  pub insert_all-size :
      (c : Shard K Table) (batch : List (K × V))
      → (set_entries hm c batch now).m_size
        ≤ (insert_all hm c batch now).m_size + most c.m_evict_type
  unfolding insert_all
  insert_all-size c batch =
      omega (arith, evict-size (set_entries hm c batch now), ap most (set_entries-type c batch))

  -- Evictions one after the other.
  unfoldable pub evicts : ℕ → Shard K Table → Shard K Table
  evicts zero c = c
  evicts (suc n) c = evicts n (evict hm c now)

  quota-pos : (type : CacheEvictType) → 0 < quota type
  quota-pos evict_one = omega arith
  quota-pos evict_batch = omega arith

  empty-settled : (c : Shard K Table) → IsValid hm c [] → is_last_node_timeout hm c now ≡ false
  unfolding is_last_node_timeout
  empty-settled c w = ground (arith, w.chain)

  module _ (dec : Discrete K) where
    Settles : ℕ → Shard K Table → Type 0
    Settles n c =
        (m : ℕ) × (m ≤ n)
        × (ys : List ℕ) × IsValid hm (evicts m c) ys
        × ((evicts m c).m_size ≤ c.m_max_size)
        × (is_last_node_timeout hm (evicts m c) now ≡ false)

    settles :
        (n : ℕ) (c : Shard K Table) (xs : List ℕ)
        → IsValid hm c xs
        → c.m_evict_flag ≡ false
        → length xs ≤ n
        → Settles n c
    unfolding Settles evicts
    settles zero c [] w idle h = (0, omega arith, [], w, omega (arith, w.sized), empty-settled c w)
    settles zero c (x ∷ xs) w idle h = absurd (omega (arith, h))
    settles (suc n) c xs w idle h =
        let (ys, k, done) = evict-Keeps hm dec now c xs w idle in
        elim done [
          | inl (fits, young) ↦
              (1, omega arith, ys, k.valid, omega (arith, k.valid.sized, fits), young)
          | inr fewer ↦
              let (m, le, zs, valid, small, young) =
                settles n (evict hm c now) ys k.valid (k.settings.evict_flag ∙ idle)
                  (omega (arith, fewer, quota-pos c.m_evict_type, h)) in
              (
                suc m,
                omega (arith, le),
                zs,
                valid,
                omega (arith, small, k.settings.max_size),
                young,
              )
        ]

    -- From a valid shard with the evict flag down, some number of calls of `evict` at one time,
    -- at most `m_size` of them, leads to a valid shard whose size is at most `m_max_size` and
    -- whose last node has not expired.
    pub evicts_settle :
        (c : Shard K Table) (xs : List ℕ)
        → IsValid hm c xs
        → c.m_evict_flag ≡ false
        → (m : ℕ) × (m ≤ c.m_size)
          × (ys : List ℕ) × IsValid hm (evicts m c) ys
          × ((evicts m c).m_size ≤ c.m_max_size)
          × (is_last_node_timeout hm (evicts m c) now ≡ false)
    unfolding Settles
    evicts_settle c xs w idle = settles c.m_size c xs w idle (omega (arith, w.sized))
