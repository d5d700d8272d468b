-- ===== src/Cache/Scalable/Snapshot.antt =====
-- `snapshot_keys` of cpp_lib/cache/concurrent_scalable_cache.h against `find`.
use mathlib.Core.Logic.{ite}
use mathlib.Core.List.{append-nil, append_assoc}
use cpp_lib.Prelude.{
  ℕ, zero, suc, ◌+◌, ◌<◌, ◌≡◌, ◌≢◌, refl, ap, ◌∙◌, sym, Bool, true, false, Bool-cases, Option, none,
  some, Option-cases, inl, inr, List, [], ◌∷◌, ◌++◌, map, get_elem?, ◌==◌, has, Distinct,
  if◌then◌else◌, arith,
}
use cpp_lib.Container.HashMap.{HashMap}
use cpp_lib.Cache.Shard
use cpp_lib.Cache.Shard.{Shard, HashMapValue, CacheEvictType}
use cpp_lib.Cache.Shard.Invariant.{IsValid, node_of_key}
use cpp_lib.Cache.Shard.Snapshot.{snapshot_keys-map}
use cpp_lib.Cache.Shard.Order.{ite_yes, ite_no, self-mem, rest-mem}
use cpp_lib.Cache.Shard.Serves.{Serves}
use cpp_lib.Cache.Scalable.{
  Scalable, init, shard_index, get_shard_ind, get_shard, find, snapshot_shards, snapshot_keys,
}
use cpp_lib.Cache.Scalable.Routed.{Routes, RoutedFrom, Reach, Reach-IsRouted}

module _ {K V : Type 0} (hm : HashMap K (HashMapValue V)) (hash : K → ℕ) (dec : Discrete K) where
  open hm use {Table, find as map_find}

  -- How often a key occurs.
  abbrev pub count : K → List K → ℕ
  count k [] = 0
  count k (j ∷ ks) = ite (dec j k) 1 0 + count k ks

  -- Whether `find` has filled its accessor, expired or not.
  abbrev pub filled : Option (Bool × Option (HashMapValue V)) → ℕ
  filled (some (flag, some e)) = 1
  filled (some (flag, none)) = 0
  filled none = 0

  abbrev present : Option (HashMapValue V) → ℕ
  present none = 0
  present (some e) = 1

  count-append : (k : K) (xs ys : List K) → count k (xs ++ ys) ≡ count k xs + count k ys
  count-append k [] ys = omega arith
  count-append k (x ∷ xs) ys = omega (arith, count-append k xs ys)

  count-absent :
      (k : K) (f : ℕ → K) (xs : List ℕ)
      → ((x : ℕ) → has x xs ≡ true → f x ≢ k)
      → count k (map f xs) ≡ 0
  count-absent k f [] h = refl
  count-absent k f (x ∷ xs) h =
      rw (ite_no {A = ℕ} (dec (f x) k) 1 0 (h x (self-mem x xs)))
        (omega (arith, count-absent k f xs (λ y m. h y (rest-mem x y xs m))))

  count-once :
      (k : K) (f : ℕ → K) (n : ℕ) (xs : List ℕ)
      → Distinct xs
      → has n xs ≡ true
      → f n ≡ k
      → ((x : ℕ) → has x xs ≡ true → f x ≡ k → x ≡ n)
      → count k (map f xs) ≡ 1
  count-once k f n [] d m e h = absurd (ground arith)
  count-once k f n (x ∷ xs) d m e h = elim (Bool-cases (x == n)) [
    | inl y ↦
        let same : x ≡ n = ground arith in
        let rest = count-absent k f xs (λ z mz p.
          absurd (
            ground (arith, ap (λ a. has a xs) (h z (rest-mem x z xs mz) p ∙ sym same), d.0, mz))) in
        rw (ite_yes {A = ℕ} (dec (f x) k) 1 0 (ap f same ∙ e)) (omega (arith, rest))
    | inr no_x ↦
        let ne : f x ≢ k = λ p. absurd (ground (arith, h x (self-mem x xs) p)) in
        rw (ite_no {A = ℕ} (dec (f x) k) 1 0 ne) (
          omega (
            arith,
            count-once k f n xs d.1 (ground arith) e (λ z mz p. h z (rest-mem x z xs mz) p),
          ))
  ]

  shard_count :
      (s : Shard K Table) (xs : List ℕ) (k : K)
      → IsValid hm s xs
      → count k (map s.m_key xs) ≡ present (map_find s.m_map k)
  shard_count s xs k w = elim (Option-cases (map_find s.m_map k)) [
    | inl gone ↦ rw gone (
        count-absent k s.m_key xs
          (λ x m p. absurd (ground (arith, w.stored x m, ap (map_find s.m_map) p, gone))))
    | inr (e, found) ↦ rw found (
        count-once k s.m_key e.m_list_node xs w.distinct.1.1 (w.owned k e found).0
          (w.owned k e found).1 (λ x m p. node_of_key hm s xs x k e w m p found))
  ]

  -- What is found under a key in the shards from the index `i` on.
  abbrev held_from : ℕ → ℕ → List (Shard K Table) → K → ℕ
  held_from n i [] k = 0
  held_from n i (s ∷ shards) k = present (map_find s.m_map k) + held_from n (suc i) shards k

  snapshot_shards-count :
      (n i : ℕ) (shards : List (Shard K Table)) (keys : List K)
      → RoutedFrom hm hash dec n i shards
      → (ks : List K) × (snapshot_shards hm hash shards keys ≡ some (keys ++ ks))
        × ((k : K) → count k ks ≡ held_from n i shards k)
  unfolding snapshot_shards
  snapshot_shards-count n i [] keys h = ([], ap some (sym (append-nil keys)), λ k. refl)
  snapshot_shards-count n i (s ∷ shards) keys h =
      let now_keys = map s.m_key h.0.nodes in
      let (ks, done, counts) = snapshot_shards-count n (suc i) shards (keys ++ now_keys) h.1 in
      (
        now_keys ++ ks,
        rw (snapshot_shards, snapshot_keys-map hm s h.0.nodes h.0.valid)
            (done ∙ ap some (append_assoc keys now_keys ks)),
        λ k.
            count-append k now_keys ks
            ∙ omega (arith, shard_count s h.0.nodes k h.0.valid, counts k),
      )

  -- A shard that does not serve the key has nothing under it.
  elsewhere :
      (n i : ℕ) (s : Shard K Table) (k : K)
      → Serves hm dec (Routes hm hash dec n i) s
      → shard_index (hash k) n ≢ i
      → present (map_find s.m_map k) ≡ 0
  elsewhere n i s k h ne = elim (Option-cases (map_find s.m_map k)) [
    | inl gone ↦ rw gone refl
    | inr (e, found) ↦ absurd (ne (h.own k e found))
  ]

  held-behind :
      (n i : ℕ) (shards : List (Shard K Table)) (k : K)
      → RoutedFrom hm hash dec n i shards
      → shard_index (hash k) n < i
      → held_from n i shards k ≡ 0
  held-behind n i [] k h lt = refl
  held-behind n i (s ∷ shards) k h lt = omega (
    arith,
    elsewhere n i s k h.0 (λ e. absurd (omega (arith, e))),
    held-behind n (suc i) shards k h.1 (omega arith),
  )

  abbrev at_shard : Option (Shard K Table) → K → ℕ
  at_shard none k = 0
  at_shard (some s) k = present (map_find s.m_map k)

  held-at :
      (n i m : ℕ) (shards : List (Shard K Table)) (k : K)
      → RoutedFrom hm hash dec n i shards
      → shard_index (hash k) n ≡ i + m
      → held_from n i shards k ≡ at_shard (get_elem? shards m) k
  held-at n i m [] k h e = refl
  held-at n i zero (s ∷ shards) k h e =
      omega (arith, held-behind n (suc i) shards k h.1 (omega arith))
  held-at n i (suc m) (s ∷ shards) k h e = omega (
    arith,
    elsewhere n i s k h.0 (λ e'. absurd (omega (arith, e'))),
    held-at n (suc i) m shards k h.1 (omega arith),
  )

  filled_either :
      (e : HashMapValue V) (late : Bool)
      → filled (some (if late then (false, some e) else (true, some e))) ≡ 1
  filled_either e true = refl
  filled_either e false = refl

  filled-at :
      (c : Scalable K Table) (k : K) (now : ℕ)
      → filled (find hm hash c k now) ≡ at_shard (get_shard hm hash c k) k
  unfolding find Shard.find
  filled-at c k now = elim (Option-cases (get_shard hm hash c k)) [
    | inl out ↦ rw (out, find) refl
    | inr (s, at) ↦ elim (Option-cases (map_find s.m_map k)) [
      | inl gone ↦ rw (at, find, gone, Shard.find) refl
      | inr (e, found) ↦ rw (at, find, found, Shard.find) (filled_either e _)
    ]
  ]

  -- Whatever calls of `insert`, batch `insert` and `clear` have been made since the construction
  -- of a sharded cache, `snapshot_keys` ends, and appends every key for which `find` fills its
  -- accessor, at whatever time, once, and no other key.
  pub snapshot_keys-find :
      (cores : ℕ) (default_key : K) (max_size timeout num_shards : ℕ) (type : CacheEvictType)
      (c : Scalable K Table) (keys : List K)
      → Reach hm hash dec (init hm hash cores default_key max_size timeout num_shards type) c
      → (ks : List K) × (snapshot_keys hm hash c keys ≡ some (keys ++ ks))
        × ((k : K) (now : ℕ) → count k ks ≡ filled (find hm hash c k now))
  unfolding snapshot_keys get_shard
  snapshot_keys-find cores default_key max_size timeout num_shards type c keys r =
      let routed =
        Reach-IsRouted hm hash dec cores default_key max_size timeout num_shards type r in
      let (ks, done, counts) = snapshot_shards-count c.m_num_shards 0 c.m_shards keys routed in
      (
        ks,
        done,
        λ k now.
            counts k
            ∙ held-at c.m_num_shards 0 (get_shard_ind hm hash c k) c.m_shards k routed (omega arith)
            ∙ sym (filled-at c k now),
      )
