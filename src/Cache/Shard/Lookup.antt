-- ===== src/Cache/Shard/Lookup.antt =====
-- `find` of cpp_lib/cache/concurrent_lru_cache.h as a search of the entries of the shard.
use mathlib.Core.Logic.{ite}
use cpp_lib.Prelude.{
  ℕ, ◌-◌, ◌≡◌, refl, sym, ap, ◌∙◌, ◌≢◌, Bool, true, false, not, ◌&&◌, Bool-cases, Option, none,
  some, Option-cases, inl, inr, List, [], ◌∷◌, ◌==◌, ltb, if◌then◌else◌, arith, has,
}
use cpp_lib.Container.HashMap.{HashMap}
use cpp_lib.Cache.Shard.{Shard, HashMapValue, find}
use cpp_lib.Cache.Shard.Invariant.{IsValid, node_of_key}
use cpp_lib.Cache.Shard.Accessor.{get_value, empty, get_timestamp}
use cpp_lib.Cache.Shard.Order.{Entry, value_of, entry, entries, ite_yes, ite_no, self-mem, rest-mem}

picked :
    {A : Type 0} (b : Bool) (o : A)
    → let r : Bool × A = if b then (false, o) else (true, o) in (r.0 ≡ not b) × (r.1 ≡ o)
picked true o = (refl, refl)
picked false o = (refl, refl)

module _ {K V : Type 0} (hm : HashMap K (HashMapValue V)) (dec : Discrete K) where
  open hm use {Table, find as map_find}

  -- The first entry of a key.
  unfoldable pub lru_find : K → List (Entry hm dec) → Option (Entry hm dec)
  lru_find key [] = none
  lru_find key (e ∷ es) = let rest = lru_find key es in ite (dec e.0 key) (some e) rest

  -- The entry is there, and has not expired.
  abbrev pub live : ℕ → ℕ → Option (Entry hm dec) → Bool
  live timeout now none = false
  live timeout now (some e) = not (not (timeout == 0) && ltb timeout (now - e.2))

  abbrev pub value_at : Option (Entry hm dec) → Option V
  value_at none = none
  value_at (some e) = e.1

  absent :
      (c : Shard K Table) (key : K) (xs : List ℕ)
      → ((x : ℕ) → has x xs ≡ true → c.m_key x ≢ key)
      → lru_find key (entries hm dec c xs) ≡ none
  unfolding lru_find
  absent c key [] h = refl
  absent c key (x ∷ xs) h =
      ite_no (dec (c.m_key x) key) _ _ (h x (self-mem x xs))
      ∙ absent c key xs (λ y m. h y (rest-mem x y xs m))

  found_at :
      (c : Shard K Table) (key : K) (node : ℕ) (xs : List ℕ)
      → has node xs ≡ true
      → c.m_key node ≡ key
      → ((x : ℕ) → has x xs ≡ true → c.m_key x ≡ key → x ≡ node)
      → lru_find key (entries hm dec c xs) ≡ some (entry hm dec c node)
  unfolding lru_find
  found_at c key node [] m k h = absurd (ground arith)
  found_at c key node (x ∷ xs) m k h = elim (Bool-cases (x == node)) [
    | inl e ↦
        let same : x ≡ node = ground arith in
        ite_yes (dec (c.m_key x) key) _ _ (ap c.m_key same ∙ k)
        ∙ ap (λ y. some (entry hm dec c y)) same
    | inr e ↦
        let away : c.m_key x ≢ key = λ p. absurd (ground (arith, h x (self-mem x xs) p)) in
        ite_no (dec (c.m_key x) key) _ _ away
        ∙ found_at c key node xs (ground arith) k (λ y m'. h y (rest-mem x y xs m'))
  ]

  abbrev pub is_missing : Option (Entry hm dec) → Bool
  is_missing none = true
  is_missing (some e) = false

  abbrev pub time_at : Option (Entry hm dec) → Option ℕ
  time_at none = none
  time_at (some e) = some e.2

  -- On a valid shard `find` returns true exactly if the entries of the shard have one of the key
  -- that has not expired. The accessor is empty exactly if they have none of the key; otherwise
  -- it gives the value and the time of that entry, expired or not.
  pub find-lru_find :
      (c : Shard K Table) (xs : List ℕ) (key : K) (now : ℕ)
      → IsValid hm c xs
      → let found = lru_find key (entries hm dec c xs) in
        let ac = (find hm c key now).1 in
        ((find hm c key now).0 ≡ live c.m_timeout now found)
        × (empty ac ≡ is_missing found)
        × (get_value ac ≡ value_at found)
        × (get_timestamp hm c ac ≡ time_at found)
  unfolding find empty get_value get_timestamp
  find-lru_find c xs key now w = elim (Option-cases (map_find c.m_map key)) [
    | inl new ↦
        let gone =
          absent c key xs
            (λ x m p. absurd (ground (arith, w.stored x m, ap (map_find c.m_map) p, new))) in
        rw (new, find, gone) (refl, refl, refl, refl)
    | inr (e, found) ↦
        let (m, named) = w.owned key e found in
        let at =
          found_at c key e.m_list_node xs m named
            (λ x m' p. node_of_key hm c xs x key e w m' p found) in
        let late = not (c.m_timeout == 0) && ltb c.m_timeout (now - c.m_timestamp e.m_list_node) in
        let (flag, held) = picked late (some e) in
        rw (found, find, at)
          (
            flag,
            ap empty held,
            ap get_value held ∙ sym (ap (value_of hm dec) (ap (map_find c.m_map) named ∙ found)),
            ap (get_timestamp hm c) held,
          )
  ]
