-- ===== src/Cache/Scalable/Routed.antt =====
-- Every key of a cache of cpp_lib/cache/concurrent_scalable_cache.h stands in the shard of its
-- hash, whatever calls have been made.
use cpp_lib.Prelude.{
  ℕ, zero, suc, ◌+◌, ◌≡◌, Bool, some, Option-cases, inl, inr, List, [], ◌∷◌, ◌++◌, map, All,
  get_elem?, set, ◌==◌, if◌then◌else◌, arith,
}
use mathlib.Core.Path.{subst}
use cpp_lib.Container.HashMap.{HashMap}
use cpp_lib.Cache.Shard
use cpp_lib.Cache.Shard.{Shard, HashMapValue, CacheEvictType}
use cpp_lib.Cache.Shard.Serves.{Serves, init-Serves, clear-Serves, insert-Serves, insert_all-Serves}
use cpp_lib.Cache.Scalable.{
  Scalable, make_shards, build, init, shard_index, get_shard_ind, get_shard, set_shard, insert,
  add_to, distribute, empty_buckets, insert_buckets, insert_all, clear,
}

module _ {K V : Type 0} (hm : HashMap K (HashMapValue V)) (hash : K → ℕ) (dec : Discrete K) where
  open hm use {Table}

  -- The keys of shard `i` out of `n`.
  abbrev pub Routes : ℕ → ℕ → K → Type 0
  Routes n i k = shard_index (hash k) n ≡ i

  -- The shards from the index `i` on.
  abbrev pub RoutedFrom : ℕ → ℕ → List (Shard K Table) → Type 0
  RoutedFrom n i [] = Unit
  RoutedFrom n i (s ∷ shards) = Serves hm dec (Routes n i) s × RoutedFrom n (suc i) shards

  abbrev pub IsRouted : Scalable K Table → Type 0
  IsRouted c = RoutedFrom c.m_num_shards 0 c.m_shards

  get_elem?-RoutedFrom :
      (n i m : ℕ) (shards : List (Shard K Table)) (s : Shard K Table)
      → RoutedFrom n i shards
      → get_elem? shards m ≡ some s
      → Serves hm dec (Routes n (i + m)) s
  get_elem?-RoutedFrom n i m [] s h at = absurd (ground arith)
  get_elem?-RoutedFrom n i zero (t ∷ shards) s h at =
      let same : t ≡ s = cc at in
      let here : i ≡ i + 0 = omega arith in
      subst (λ j. Serves hm dec (Routes n j) s) here (subst (Serves hm dec (Routes n i)) same h.0)
  get_elem?-RoutedFrom n i (suc m) (t ∷ shards) s h at =
      let later : suc i + m ≡ i + suc m = omega arith in
      subst (λ j. Serves hm dec (Routes n j) s) later
        (get_elem?-RoutedFrom n (suc i) m shards s h.1 at)

  set-RoutedFrom :
      (n i m : ℕ) (shards : List (Shard K Table)) (s : Shard K Table)
      → RoutedFrom n i shards
      → Serves hm dec (Routes n (i + m)) s
      → RoutedFrom n i (set shards m s)
  set-RoutedFrom n i m [] s h r = tt
  set-RoutedFrom n i zero (t ∷ shards) s h r =
      let here : i + 0 ≡ i = omega arith in (subst (λ j. Serves hm dec (Routes n j) s) here r, h.1)
  set-RoutedFrom n i (suc m) (t ∷ shards) s h r =
      let later : i + suc m ≡ suc i + m = omega arith in
      (
        h.0,
        set-RoutedFrom n (suc i) m shards s h.1 (subst (λ j. Serves hm dec (Routes n j) s) later r),
      )

  make_shards-RoutedFrom :
      (default_key : K) (max_size timeout : ℕ) (type : CacheEvictType) (n left i j : ℕ)
      → RoutedFrom n j (make_shards hm hash default_key max_size timeout type n left i)
  unfolding make_shards
  make_shards-RoutedFrom default_key max_size timeout type n zero i j = tt
  make_shards-RoutedFrom default_key max_size timeout type n (suc left) i j = (
    init-Serves hm dec (Routes n j) default_key _ timeout type,
    make_shards-RoutedFrom default_key max_size timeout type n left (i + 1) (suc j),
  )

  clear-RoutedFrom :
      (n i : ℕ) (shards : List (Shard K Table))
      → RoutedFrom n i shards
      → RoutedFrom n i (map (Shard.clear hm) shards)
  clear-RoutedFrom n i [] h = tt
  clear-RoutedFrom n i (s ∷ shards) h =
      (clear-Serves hm dec (Routes n i) s h.0, clear-RoutedFrom n (suc i) shards h.1)

  -- The buckets from the index `i` on.
  abbrev BucketsFrom : ℕ → ℕ → List (List (K × V)) → Type 0
  BucketsFrom n i [] = Unit
  BucketsFrom n i (b ∷ buckets) = All (λ p. Routes n i p.0) b × BucketsFrom n (suc i) buckets

  empty_buckets-From : (n m i : ℕ) → BucketsFrom n i (empty_buckets hm hash m)
  unfolding empty_buckets
  empty_buckets-From n zero i = tt
  empty_buckets-From n (suc m) i = (tt, empty_buckets-From n m (suc i))

  All-snoc :
      (P : K × V → Type 0) (b : List (K × V)) (p : K × V) → All P b → P p → All P (b ++ (p ∷ []))
  All-snoc P [] p h q = (q, tt)
  All-snoc P (x ∷ b) p h q = (h.0, All-snoc P b p h.1 q)

  set_bucket :
      (n i m : ℕ) (buckets : List (List (K × V))) (pair : K × V) (b : List (K × V))
      → BucketsFrom n i buckets
      → get_elem? buckets m ≡ some b
      → Routes n (i + m) pair.0
      → BucketsFrom n i (set buckets m (b ++ (pair ∷ [])))
  set_bucket n i m [] pair b h at r = tt
  set_bucket n i zero (a ∷ buckets) pair b h at r =
      let same : a ≡ b = cc at in
      (
        All-snoc (λ p. Routes n i p.0) b pair (subst (λ l. All (λ p. Routes n i p.0) l) same h.0)
            (omega (arith, r)),
        h.1,
      )
  set_bucket n i (suc m) (a ∷ buckets) pair b h at r =
      (h.0, set_bucket n (suc i) m buckets pair b h.1 at (omega (arith, r)))

  add_to-From :
      (n i m : ℕ) (buckets : List (List (K × V))) (pair : K × V)
      → BucketsFrom n i buckets
      → Routes n (i + m) pair.0
      → BucketsFrom n i (add_to hm hash buckets m pair)
  unfolding add_to
  add_to-From n i m buckets pair h r = elim (Option-cases (get_elem? buckets m)) [
    | inl out ↦ rw (out, add_to) h
    | inr (b, at) ↦ rw (at, add_to) (set_bucket n i m buckets pair b h at r)
  ]

  distribute-From :
      (n : ℕ) (buckets : List (List (K × V))) (entries : List (K × V))
      → BucketsFrom n 0 buckets
      → BucketsFrom n 0 (distribute hm hash n buckets entries)
  unfolding distribute
  distribute-From n buckets [] h = h
  distribute-From n buckets (pair ∷ rest) h =
      let m = shard_index (hash pair.0) n in
      distribute-From n (add_to hm hash buckets m pair) rest
        (add_to-From n 0 m buckets pair h (omega arith))

  insert_buckets-RoutedFrom :
      (n i : ℕ) (shards : List (Shard K Table)) (buckets : List (List (K × V))) (now : ℕ)
      → RoutedFrom n i shards
      → BucketsFrom n i buckets
      → RoutedFrom n i (insert_buckets hm hash shards buckets now)
  unfolding insert_buckets
  insert_buckets-RoutedFrom n i [] buckets now h b = tt
  insert_buckets-RoutedFrom n i (s ∷ shards) [] now h b = h
  insert_buckets-RoutedFrom n i (s ∷ shards) ([] ∷ buckets) now h b =
      (h.0, insert_buckets-RoutedFrom n (suc i) shards buckets now h.1 b.1)
  insert_buckets-RoutedFrom n i (s ∷ shards) ((p ∷ ps) ∷ buckets) now h b = (
    insert_all-Serves hm dec (Routes n i) s (p ∷ ps) now b.0 h.0,
    insert_buckets-RoutedFrom n (suc i) shards buckets now h.1 b.1,
  )

  -- The calls that change a cache. A call of `insert` that throws changes nothing.
  pub data Step : Scalable K Table → Scalable K Table → Type 0 where
    inserted :
        (c c' : Scalable K Table) (key : K) (value : V) (now : ℕ) (flag : Bool)
        → insert hm hash c key value now ≡ some (c', flag)
        → Step c c'
    batch_inserted :
        (c : Scalable K Table) (entries : List (K × V)) (now : ℕ)
        → Step c (insert_all hm hash c entries now)
    cleared : (c : Scalable K Table) → Step c (clear hm hash c)

  pub data Reach (c : Scalable K Table) : Scalable K Table → Type 0 where
    here : Reach c c
    next : {d e : Scalable K Table} → Reach c d → Step d e → Reach c e

  insert-IsRouted :
      (c c' : Scalable K Table) (key : K) (value : V) (now : ℕ) (flag : Bool)
      → insert hm hash c key value now ≡ some (c', flag)
      → IsRouted c
      → IsRouted c'
  unfolding insert get_shard
  insert-IsRouted c c' key value now flag done h =
      let i = get_shard_ind hm hash c key in
      elim (Option-cases (get_elem? c.m_shards i)) [
        | inl out ↦ absurd (ground (arith, done, out))
        | inr (s, at) ↦
            let s' = (Shard.insert hm s key value now).0 in
            let e : set_shard hm hash c i s' ≡ c' = ground (arith, done, at) in
            let old = get_elem?-RoutedFrom c.m_num_shards 0 i c.m_shards s h at in
            let new =
              insert-Serves hm dec (Routes c.m_num_shards (0 + i)) s key value now (omega arith)
                old in
            subst IsRouted e (set-RoutedFrom c.m_num_shards 0 i c.m_shards s' h new)
      ]

  Step-IsRouted : {c d : Scalable K Table} → Step c d → IsRouted c → IsRouted d
  unfolding insert_all clear
  Step-IsRouted (inserted c c' key value now flag done) h =
      insert-IsRouted c c' key value now flag done h
  Step-IsRouted (batch_inserted c entries now) h =
      let n = c.m_num_shards in
      insert_buckets-RoutedFrom n 0 c.m_shards _ now h
        (distribute-From n (empty_buckets hm hash n) entries (empty_buckets-From n n 0))
  Step-IsRouted (cleared c) h = clear-RoutedFrom c.m_num_shards 0 c.m_shards h

  IsRouted-Reach : {c d : Scalable K Table} → Reach c d → IsRouted c → IsRouted d
  IsRouted-Reach here h = h
  IsRouted-Reach (next r s) h = Step-IsRouted s (IsRouted-Reach r h)

  pub Reach-IsRouted :
      (cores : ℕ) (default_key : K) (max_size timeout num_shards : ℕ) (type : CacheEvictType)
      {c : Scalable K Table}
      → Reach (init hm hash cores default_key max_size timeout num_shards type) c
      → IsRouted c
  unfolding init build
  Reach-IsRouted cores default_key max_size timeout num_shards type r =
      let n = if num_shards == 0 then cores else num_shards in
      IsRouted-Reach r (make_shards-RoutedFrom default_key max_size timeout type n n 0 0)
