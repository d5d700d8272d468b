-- ===== src/Cache/Shard/Add.antt =====
-- `set_entry` of cpp_lib/cache/concurrent_lru_cache.h at a new key: the invariant is kept.
use cpp_lib.Prelude.{
  ℕ, ◌≡◌, sym, ap, ◌∙◌, ◌≢◌, true, false, none, some, List, ◌∷◌, arith, ◌==◌, has, Distinct,
  Bool-cases, inl, inr,
}
use cpp_lib.Container.HashMap.{HashMap}
use cpp_lib.Cache.Links.{head, tail, push_front-cons}
use cpp_lib.Cache.Shard.{Shard, HashMapValue, add_entry}
use cpp_lib.Cache.Shard.Invariant.{IsValid}

module _ {K V : Type 0} (hm : HashMap K (HashMapValue V)) (dec : Discrete K) where
  open hm use {Table, find as map_find}

  module _ (c : Shard K Table) (xs : List ℕ) (key : K) (value : V) (now : ℕ) (w : IsValid hm c xs)
      (new : map_find c.m_map key ≡ none) where
    fresh-not-mem : has c.fresh xs ≡ false
    fresh-not-mem = elim (Bool-cases (has c.fresh xs)) [
      | inl m ↦ absurd (omega (arith, (w.allocated c.fresh m).1))
      | inr m ↦ m
    ]

    -- A stored node has another key.
    old_key : (x : ℕ) → has x xs ≡ true → c.m_key x ≢ key
    old_key x m p = cc ((w.stored x m).1, new, ap (map_find c.m_map) p)

    added-stored :
        (x : ℕ)
        → has x (c.fresh ∷ xs) ≡ true
        → (v : V) × (map_find
              (add_entry hm c key value now).m_map
              ((add_entry hm c key value now).m_key x)
            ≡ some (record { m_value = v; m_list_node = x }))
    unfolding add_entry
    added-stored x m = elim (Bool-cases (x == c.fresh)) [
      | inl e ↦
          let same : x ≡ c.fresh = ground arith in
          (value, rw e (rw same (hm.find-put_self c.m_map key _)))
      | inr e ↦
          let old : has x xs ≡ true = ground arith in
          let (v, at) = w.stored x old in
          (v, rw e (hm.find-put_ne c.m_map key (c.m_key x) _ (λ q. old_key x old (sym q)) ∙ at))
    ]

    added-owned :
        (k : K) (e : HashMapValue V)
        → map_find (add_entry hm c key value now).m_map k ≡ some e
        → (has e.m_list_node (c.fresh ∷ xs) ≡ true)
          × ((add_entry hm c key value now).m_key e.m_list_node ≡ k)
    unfolding add_entry
    added-owned k e h = elim (dec key k) [
      | yes p ↦
          let new_value : HashMapValue V = record { m_value = value; m_list_node = c.fresh } in
          let same =
            sym (hm.find-put_self c.m_map key new_value)
            ∙ ap (map_find (hm.put c.m_map key new_value)) p
            ∙ h in
          (ground arith, ground arith)
      | no p ↦
          let old = w.owned k e (sym (hm.find-put_ne c.m_map key k _ p) ∙ h) in
          let apart : e.m_list_node ≢ c.fresh =
            λ q. cc (fresh-not-mem, old.0, ap (λ y. has y xs) q) in
          (ground arith, ground (arith, old.1))
    ]

    pub add_entry-IsValid : IsValid hm (add_entry hm c key value now) (c.fresh ∷ xs)
    unfolding add_entry
    add_entry-IsValid =
        let d : Distinct (head ∷ tail ∷ c.fresh ∷ xs) =
          ground (arith, fresh-not-mem, w.distinct, w.room) in
        record {
          chain = push_front-cons c.links xs tail c.fresh d w.chain;
          distinct = d;
          room = omega (arith, w.room);
          allocated = λ x m. ground (arith, w.allocated x, w.room);
          stored = added-stored;
          owned = added-owned;
          sized = omega (arith, w.sized);
        }
