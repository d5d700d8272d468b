-- ===== src/Cache/Shard/Evict.antt =====
-- `evict` of cpp_lib/cache/concurrent_lru_cache.h: the invariant, the bound, and what survives.
use cpp_lib.Prelude.{
  ℕ, zero, suc, ◌+◌, ◌≤◌, ◌<◌, ◌≡◌, refl, sym, ap, ◌⊎◌, inl, inr, Bool, true, false, List, [], ◌∷◌,
  arith, if◌then◌else◌, ltb, Bool-cases, length, drop_last, length-drop_last,
}
use mathlib.Core.Path.{subst}
use cpp_lib.Container.HashMap.{HashMap}
use cpp_lib.Cache.Shard.{
  Shard, HashMapValue, CacheEvictType, evict_batch, evict_one, max_evict_batch, remove_node,
  is_last_node_timeout, evict_overload, evict_expired, evict_body, evict_holding_flag, evict,
}
use cpp_lib.Cache.Shard.Invariant.{IsValid}
use cpp_lib.Cache.Shard.Keeps.{
  Keeps, Keeps-refl, Keeps-trans, Keeps-length, remove_node-overload, remove_node-expired,
}

-- The number of removals after which one call of `evict` may stop early.
abbrev pub quota : CacheEvictType → ℕ
quota evict_one = 1
quota evict_batch = max_evict_batch

module _ {K V : Type 0} (hm : HashMap K (HashMapValue V)) (dec : Discrete K) (now : ℕ) where
  open hm use {Table, find as map_find}

  -- The first loop of a batch removes nodes until the size fits or the rounds are used up.
  pub evict_overload-Keeps :
      (n : ℕ) (c : Shard K Table) (xs : List ℕ)
      → IsValid hm c xs
      → (ys : List ℕ) × Keeps hm dec now c xs (evict_overload hm n c now).0 ys
        × ((length ys ≤ c.m_max_size) ⊎ ((evict_overload hm n c now).1 ≡ 0))
        × (length ys + n ≡ length xs + (evict_overload hm n c now).1)
  unfolding evict_overload
  evict_overload-Keeps zero c xs w = (xs, Keeps-refl hm dec now c xs w, inr refl, refl)
  evict_overload-Keeps (suc n) c xs w = elim (Bool-cases (ltb c.m_max_size c.m_size)) [
    | inl over ↦
        let step = remove_node-overload hm dec now c xs w over in
        let (ys, rest, bound, count) =
          evict_overload-Keeps n (remove_node hm c false now) (drop_last xs) step.valid in
        rw over (
          ys,
          Keeps-trans hm dec now _ _ _ _ _ _ step rest,
          ground (arith, bound, step.settings.max_size),
          ground (arith, count, length-drop_last xs, w.sized),
        )
    | inr fits ↦ rw fits (xs, Keeps-refl hm dec now c xs w, inl (ground (arith, w.sized)), refl)
  ]

  timeout-pos :
      (c : Shard K Table) (xs : List ℕ)
      → IsValid hm c xs
      → is_last_node_timeout hm c now ≡ true
      → 0 < length xs
  unfolding is_last_node_timeout
  timeout-pos c [] w late = absurd (ground (arith, w.chain.1))
  timeout-pos c (x ∷ xs) w late = omega arith

  -- The second loop removes expired nodes until the last one is fresh or the rounds are used up.
  pub evict_expired-Keeps :
      (n : ℕ) (c : Shard K Table) (xs : List ℕ)
      → IsValid hm c xs
      → (ys : List ℕ) × Keeps hm dec now c xs (evict_expired hm n c now) ys
        × ((is_last_node_timeout hm (evict_expired hm n c now) now ≡ false)
            ⊎ (length ys + n ≡ length xs))
  unfolding evict_expired
  evict_expired-Keeps zero c xs w = (xs, Keeps-refl hm dec now c xs w, inr (omega arith))
  evict_expired-Keeps (suc n) c xs w = elim (Bool-cases (is_last_node_timeout hm c now)) [
    | inl late ↦
        let step = remove_node-expired hm dec now c xs w late in
        let (ys, rest, done) =
          evict_expired-Keeps n (remove_node hm c true now) (drop_last xs) step.valid in
        rw late (
          ys,
          Keeps-trans hm dec now _ _ _ _ _ _ step rest,
          elim done [
            | inl e ↦ inl e
            | inr e ↦ inr (omega (arith, e, length-drop_last xs, timeout-pos c xs w late))
          ],
        )
    | inr e ↦ rw e (xs, Keeps-refl hm dec now c xs w, inl e)
  ]

  -- `evict` leaves no overload and no expired last node, unless it removed as many nodes as it may.
  abbrev pub Settled : Shard K Table → List ℕ → Shard K Table → List ℕ → CacheEvictType → Type 0
  Settled c xs c' ys type =
      ((length ys ≤ c.m_max_size) × (is_last_node_timeout hm c' now ≡ false))
      ⊎ (length ys + quota type ≤ length xs)

  settled-batch :
      (c : Shard K Table) (xs ys zs : List ℕ) (c' : Shard K Table) (r : ℕ)
      → (length ys ≤ c.m_max_size) ⊎ (r ≡ 0)
      → length ys + max_evict_batch ≡ length xs + r
      → length zs ≤ length ys
      → (is_last_node_timeout hm c' now ≡ false) ⊎ (length zs + r ≡ length ys)
      → Settled c xs c' zs evict_batch
  settled-batch c xs ys zs c' r (inr e) count fewer done = inr (omega arith)
  settled-batch c xs ys zs c' r (inl e) count fewer (inl f) = inl (omega arith, f)
  settled-batch c xs ys zs c' r (inl e) count fewer (inr f) = inr (omega arith)

  evict_body-Keeps :
      (type : CacheEvictType) (c : Shard K Table) (xs : List ℕ)
      → IsValid hm c xs
      → (ys : List ℕ) × Keeps hm dec now c xs (evict_body hm type c now) ys
        × Settled c xs (evict_body hm type c now) ys type
  unfolding evict_body evict_expired
  evict_body-Keeps evict_batch c xs w =
      let (ys, over, bound, count) = evict_overload-Keeps max_evict_batch c xs w in
      let r = evict_overload hm max_evict_batch c now in
      let (zs, late, done) = evict_expired-Keeps r.1 r.0 ys over.valid in
      (
        zs,
        Keeps-trans hm dec now _ _ _ _ _ _ over late,
        settled-batch c xs ys zs _ r.1 bound count (Keeps-length hm dec now _ _ _ _ late) done,
      )
  evict_body-Keeps evict_one c xs w = elim (Bool-cases (ltb c.m_max_size c.m_size)) [
    | inl over ↦
        let step = remove_node-overload hm dec now c xs w over in
        let (ys, rest, done) =
          evict_expired-Keeps 1 (remove_node hm c false now) (drop_last xs) step.valid in
        let fewer = Keeps-length hm dec now _ _ _ _ rest in
        rw over (
          ys,
          Keeps-trans hm dec now _ _ _ _ _ _ step rest,
          inr (ground (arith, fewer, length-drop_last xs, w.sized)),
        )
    | inr fits ↦
        let (ys, rest, done) = evict_expired-Keeps 1 c xs w in
        let fewer = Keeps-length hm dec now _ _ _ _ rest in
        rw fits (
          ys,
          rest,
          elim done [
            | inl e ↦ inl (ground (arith, w.sized, fewer), e)
            | inr e ↦ inr (omega (arith, e))
          ],
        )
  ]

  -- With `m_evict_flag` set, another `evict` is under way, and the call does nothing.
  pub evict_busy : (c : Shard K Table) → c.m_evict_flag ≡ true → evict hm c now ≡ c
  unfolding evict
  evict_busy c h = rw h

  evict_idle :
      (c : Shard K Table) → c.m_evict_flag ≡ false → evict hm c now ≡ evict_holding_flag hm c now
  unfolding evict
  evict_idle c h = ap (λ b. if b then c else evict_holding_flag hm c now) h

  -- The flag has no part in the invariant.
  flag-IsValid :
      (c : Shard K Table) (xs : List ℕ) (b : Bool)
      → IsValid hm c xs
      → IsValid hm (record c { m_evict_flag = b }) xs
  flag-IsValid c xs b w = record {
    chain = w.chain;
    distinct = w.distinct;
    room = w.room;
    allocated = w.allocated;
    stored = w.stored;
    owned = w.owned;
    sized = w.sized;
  }

  evict_holding_flag-Keeps :
      (c : Shard K Table) (xs : List ℕ)
      → IsValid hm c xs
      → c.m_evict_flag ≡ false
      → (ys : List ℕ) × Keeps hm dec now c xs (evict_holding_flag hm c now) ys
        × Settled c xs (evict_holding_flag hm c now) ys c.m_evict_type
  unfolding evict_holding_flag is_last_node_timeout
  evict_holding_flag-Keeps c xs w idle =
      let (ys, r, settled) =
        evict_body-Keeps c.m_evict_type (record c { m_evict_flag = true }) xs
          (flag-IsValid c xs true w) in
      (
        ys,
        record {
          valid = flag-IsValid _ ys false r.valid;
          victims = r.victims;
          settings = record {
            max_size = r.settings.max_size;
            timeout = r.settings.timeout;
            evict_type = r.settings.evict_type;
            evict_flag = sym idle;
            key = r.settings.key;
            timestamp = r.settings.timestamp;
          };
          kept = r.kept;
          front = r.front;
        },
        settled,
      )

  -- From a valid shard with the evict flag down, `evict` removes only least recently used nodes:
  -- the nodes that stay are a prefix of the list, the shard is valid, the settings and the
  -- entries that stay are unchanged. Afterwards the size fits and the last node is not expired,
  -- or a whole quota of nodes (1, or the 64 of a batch) has been removed.
  pub evict-Keeps :
      (c : Shard K Table) (xs : List ℕ)
      → IsValid hm c xs
      → c.m_evict_flag ≡ false
      → (ys : List ℕ) × Keeps hm dec now c xs (evict hm c now) ys
        × Settled c xs (evict hm c now) ys c.m_evict_type
  evict-Keeps c xs w idle =
      subst (λ d. (ys : List ℕ) × Keeps hm dec now c xs d ys × Settled c xs d ys c.m_evict_type)
        (sym (evict_idle c idle)) (evict_holding_flag-Keeps c xs w idle)
