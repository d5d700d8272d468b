-- ===== src/Cache/Scalable/Routing.antt =====
-- How cpp_lib/cache/concurrent_scalable_cache.h routes keys: `find` after `insert`, and the
-- distribution of a batch.
use mathlib.Core.Path.{subst}
use mathlib.Core.List.{append-nil, append_assoc}
use native.Mathlib.Decide.{ℕ_discrete}
use cpp_lib.Prelude.{
  ℕ, zero, suc, ◌-◌, ◌≤◌, ◌<◌, ◌≡◌, refl, sym, ap, ◌∙◌, ◌≢◌, ◌⊎◌, inl, inr, true, Option, none,
  some, List, [], ◌∷◌, ◌++◌, arith, ◌==◌, if◌then◌else◌, Bool-cases, Option-cases, get_elem?,
  get_elem?-set_self, get_elem?-set_ne, get_elem?-bound,
}
use cpp_lib.Container.HashMap.{HashMap}
use cpp_lib.Cache.Shard
use cpp_lib.Cache.Shard.{Shard, HashMapValue}
use cpp_lib.Cache.Shard.Insert.{
  find-insert_self as shard_find-insert, find-insert_ne as shard_find-insert_ne,
}
use cpp_lib.Cache.Scalable.{
  Scalable, shard_index, get_shard_ind, get_shard, set_shard, find, insert, add_to, distribute,
  empty_buckets,
}
use cpp_lib.Cache.Scalable.Bound.{IsSound, IsBounded, get_shard-some}

module _ {K V : Type 0} (hm : HashMap K (HashMapValue V)) (hash : K → ℕ) (dec : Discrete K) where
  open hm use {Table, find as map_find}

  module _ (c : Scalable K Table) (key : K) (value : V) (now : ℕ) (s : Shard K Table) where
    after : Scalable K Table
    after = set_shard hm hash c (get_shard_ind hm hash c key) (Shard.insert hm s key value now).0

    insert-after :
        get_shard hm hash c key ≡ some s
        → insert hm hash c key value now ≡ some (after, (Shard.insert hm s key value now).1)
    unfolding insert after
    insert-after at = rw (at, insert)

    get_shard-after_self :
        get_shard hm hash c key ≡ some s
        → get_shard hm hash after key ≡ some (Shard.insert hm s key value now).0
    unfolding get_shard after
    get_shard-after_self at =
        get_elem?-set_self c.m_shards (get_shard_ind hm hash c key) _
          (get_elem?-bound c.m_shards _ at)

    -- A key with the same index has the same shard, before and after.
    get_shard-after_same :
        (j : K)
        → get_shard_ind hm hash c key ≡ get_shard_ind hm hash c j
        → get_shard hm hash c key ≡ some s
        → (get_shard hm hash c j ≡ some s)
          × (get_shard hm hash after j ≡ some (Shard.insert hm s key value now).0)
    unfolding get_shard after
    get_shard-after_same j p at = (
      ap (get_elem? c.m_shards) (sym p) ∙ at,
      ap (get_elem? after.m_shards) (sym p) ∙ get_shard-after_self at,
    )

    get_shard-after_ne :
        (j : K)
        → get_shard_ind hm hash c key ≢ get_shard_ind hm hash c j
        → get_shard hm hash after j ≡ get_shard hm hash c j
    unfolding get_shard after
    get_shard-after_ne j ne = get_elem?-set_ne c.m_shards _ _ _ ne

  -- In a sound cache, after an `insert` of a key whose shard has a positive capacity, `find` of
  -- that key returns the value, as long as the shard has no timeout or no more than the timeout
  -- has passed.
  pub find-insert_routed :
      (c c' : Scalable K Table) (key : K) (value : V) (now later : ℕ) (s : Shard K Table)
      → IsSound hm hash dec c
      → get_shard hm hash c key ≡ some s
      → 0 < s.m_max_size
      → (s.m_timeout ≡ 0) ⊎ (later - now ≤ s.m_timeout)
      → insert hm hash c key value now ≡ some (c', true)
      → (e : HashMapValue V) × (find hm hash c' key later ≡ some (true, some e))
        × (e.m_value ≡ value)
  unfolding find
  find-insert_routed c c' key value now later s h at room fresh done =
      let (s₀, at₀, b) = get_shard-some hm hash dec c key h in
      let same : s₀ ≡ s = cc (at₀, at) in
      let b' : IsBounded hm hash dec s = subst (IsBounded hm hash dec) same b in
      let (e, found, value') =
        shard_find-insert hm dec s b'.nodes key value now b'.valid b'.idle later room fresh in
      let e' : after c key value now s ≡ c' = cc (insert-after c key value now s at, done) in
      let at' =
        subst (λ d. get_shard hm hash d key ≡ some (Shard.insert hm s key value now).0) e'
          (get_shard-after_self c key value now s at) in
      (e, rw (at', find) (ap some found), value')

  -- What the cache holds under a key, expired or not.
  pub lookup : Scalable K Table → K → Option (HashMapValue V)
  lookup c key = elim (get_shard hm hash c key) [ none ↦ none | some s ↦ map_find s.m_map key ]

  -- An `insert` into a sound cache leaves what the cache holds under another key, or evicts it.
  pub lookup-insert_ne :
      (c c' : Scalable K Table) (key j : K) (value : V) (now : ℕ)
      → IsSound hm hash dec c
      → key ≢ j
      → insert hm hash c key value now ≡ some (c', true)
      → (lookup c' j ≡ lookup c j) ⊎ (lookup c' j ≡ none)
  unfolding lookup
  lookup-insert_ne c c' key j value now h ne done =
      let (s, at, b) = get_shard-some hm hash dec c key h in
      let e' : after c key value now s ≡ c' = cc (insert-after c key value now s at, done) in
      subst (λ d. (lookup d j ≡ lookup c j) ⊎ (lookup d j ≡ none)) e'
        (elim (ℕ_discrete (get_shard_ind hm hash c key) (get_shard_ind hm hash c j)) [
          | yes p ↦
              let (old, new) = get_shard-after_same c key value now s j p at in
              rw (old, new, lookup)
                (shard_find-insert_ne hm dec s b.nodes key value now b.valid b.idle j ne)
          | no p ↦ inl (rw (get_shard-after_ne c key value now s j p, lookup) refl)
        ])

  -- The pairs of a batch that go to shard `i` of `n`.
  unfoldable pub routed : ℕ → ℕ → List (K × V) → List (K × V)
  routed n i [] = []
  routed n i (pair ∷ rest) =
      if shard_index (hash pair.0) n == i then pair ∷ routed n i rest else routed n i rest

  add_to_self :
      (buckets : List (List (K × V))) (i : ℕ) (pair : K × V) (b : List (K × V))
      → get_elem? buckets i ≡ some b
      → get_elem? (add_to hm hash buckets i pair) i ≡ some (b ++ (pair ∷ []))
  unfolding add_to
  add_to_self buckets i pair b at =
      rw (at, add_to) (get_elem?-set_self buckets i _ (get_elem?-bound buckets i at))

  add_to_ne :
      (buckets : List (List (K × V))) (i j : ℕ) (pair : K × V)
      → i ≢ j
      → get_elem? (add_to hm hash buckets i pair) j ≡ get_elem? buckets j
  unfolding add_to
  add_to_ne buckets i j pair ne = elim (Option-cases (get_elem? buckets i)) [
    | inl out ↦ rw (out, add_to) refl
    | inr (b, at) ↦ rw (at, add_to) (get_elem?-set_ne buckets i j _ ne)
  ]

  distribute-append :
      (n i : ℕ) (buckets : List (List (K × V))) (entries : List (K × V)) (b : List (K × V))
      → get_elem? buckets i ≡ some b
      → get_elem? (distribute hm hash n buckets entries) i ≡ some (b ++ routed n i entries)
  unfolding distribute routed
  distribute-append n i buckets [] b at = at ∙ ap some (sym (append-nil b))
  distribute-append n i buckets (pair ∷ rest) b at =
      let j = shard_index (hash pair.0) n in
      elim (Bool-cases (j == i)) [
        | inl e ↦
            let same : j ≡ i = ground arith in
            let in_i =
              subst (λ k. get_elem? (add_to hm hash buckets k pair) i ≡ some (b ++ (pair ∷ [])))
                (sym same) (add_to_self buckets i pair b at) in
            let later =
              distribute-append n i (add_to hm hash buckets j pair) rest (b ++ (pair ∷ [])) in_i in
            rw e (later ∙ ap some (append_assoc b (pair ∷ []) (routed n i rest)))
        | inr e ↦
            let ne : j ≢ i = ground arith in
            rw e (
              distribute-append n i (add_to hm hash buckets j pair) rest b
                (add_to_ne buckets j i pair ne ∙ at))
      ]

  empty_buckets-get_elem? : (n i : ℕ) → i < n → get_elem? (empty_buckets hm hash n) i ≡ some []
  unfolding empty_buckets
  empty_buckets-get_elem? zero i h = absurd (omega arith)
  empty_buckets-get_elem? (suc n) zero h = refl
  empty_buckets-get_elem? (suc n) (suc i) h = empty_buckets-get_elem? n i (omega arith)

  -- After the first loop of a batch `insert`, the bucket of each shard holds the pairs of the
  -- batch whose keys the shard serves, in their order.
  pub distribute-routed :
      (n i : ℕ) (entries : List (K × V))
      → i < n
      → get_elem? (distribute hm hash n (empty_buckets hm hash n) entries) i
        ≡ some (routed n i entries)
  distribute-routed n i entries h =
      distribute-append n i _ entries [] (empty_buckets-get_elem? n i h)
