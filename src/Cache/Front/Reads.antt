-- ===== src/Cache/Front/Reads.antt =====
-- What the reads of cpp_lib/cache/lru_cache.h return: after a write, and in a batch.
use mathlib.Core.List.{append-nil, append_assoc}
use cpp_lib.Prelude.{
  ℕ, ◌-◌, ◌≤◌, ◌<◌, ◌≡◌, refl, sym, ap, ◌∙◌, ◌⊎◌, inl, inr, Bool, true, false, Option, none, some,
  List, [], ◌∷◌, ◌++◌, arith, not, ◌&&◌, ◌==◌, ltb, Bool-cases, Option-cases,
}
use cpp_lib.Container.HashMap.{HashMap}
use cpp_lib.Cache.Shard
use cpp_lib.Cache.Shard.{Shard, HashMapValue}
use cpp_lib.Cache.Scalable
use cpp_lib.Cache.Scalable.{Scalable, get_shard}
use cpp_lib.Cache.Scalable.Bound.{IsSound, get_shard-some}
use cpp_lib.Cache.Scalable.Routing.{find-insert_routed}
use cpp_lib.Cache.Front.{get, get_value, mget, insert_pair, mget_values, lru_set}

module _ {K V : Type 0} (hm : HashMap K (HashMapValue V)) (hash : K → ℕ) (dec : Discrete K) where
  open hm use {Table, find as map_find}

  -- After a `set` into a sound cache whose shard for the key has a positive capacity, both forms
  -- of `get` return true for the key, and the second sets the value, as long as the shard has no
  -- timeout or no more than the timeout has passed.
  pub get_value-lru_set :
      (c c' : Scalable K Table) (key : K) (value old : V) (now later : ℕ) (s : Shard K Table)
      → IsSound hm hash dec c
      → get_shard hm hash c key ≡ some s
      → 0 < s.m_max_size
      → (s.m_timeout ≡ 0) ⊎ (later - now ≤ s.m_timeout)
      → lru_set hm hash c key value now ≡ some (c', true)
      → (get hm hash c' key later ≡ some true)
        × (get_value hm hash c' key old later ≡ some (true, value))
  unfolding lru_set get get_value
  get_value-lru_set c c' key value old now later s h at room fresh done =
      let (e, found, same) =
        find-insert_routed hm hash dec c c' key value now later s h at room fresh done in
      (rw (found, get) refl, rw (found, get_value) (ap (λ v. some (true, v)) same))

  -- The value of a key that is there and not expired.
  pub hit_of : Bool × Option (HashMapValue V) → Option V
  hit_of (true, some e) = some e.m_value
  hit_of (true, none) = none
  hit_of (false, ac) = none

  pub hit : Scalable K Table → K → ℕ → Option V
  hit c key now = elim (Scalable.find hm hash c key now) [ none ↦ none | some r ↦ hit_of r ]

  -- The keys without a value, in order.
  pub missed : Scalable K Table → List K → ℕ → List K
  missed c [] now = []
  missed c (key ∷ keys) now = elim (hit c key now) [
    | none ↦ key ∷ missed c keys now
    | some v ↦ missed c keys now
  ]

  -- A shard's `find` that succeeds has an element.
  find-shape :
      (s : Shard K Table) (key : K) (now : ℕ)
      → ((e : HashMapValue V) × (Shard.find hm s key now ≡ (true, some e)))
        ⊎ ((ac : Option (HashMapValue V)) × (Shard.find hm s key now ≡ (false, ac)))
  unfolding Shard.find
  find-shape s key now = elim (Option-cases (map_find s.m_map key)) [
    | inl gone ↦ inr (none, rw (gone, Shard.find) refl)
    | inr (e, at) ↦
        let late = not (s.m_timeout == 0) && ltb s.m_timeout (now - s.m_timestamp e.m_list_node) in
        elim (Bool-cases late) [
          | inl old ↦ inr (some e, rw (at, Shard.find, old) refl)
          | inr fresh ↦ inl (e, rw (at, Shard.find, fresh) refl)
        ]
  ]

  find-hit :
      (c : Scalable K Table) (key : K) (now : ℕ)
      → IsSound hm hash dec c
      → ((e : HashMapValue V) × (Scalable.find hm hash c key now ≡ some (true, some e))
          × (hit c key now ≡ some e.m_value))
        ⊎ ((ac : Option (HashMapValue V)) × (Scalable.find hm hash c key now ≡ some (false, ac))
            × (hit c key now ≡ none))
  unfolding Scalable.find hit hit_of
  find-hit c key now h =
      let (s, at, b) = get_shard-some hm hash dec c key h in
      elim (find-shape s key now) [
        | inl (e, found) ↦
            let all : Scalable.find hm hash c key now ≡ some (true, some e) =
              rw (at, Scalable.find) (ap some found) in
            inl (e, all, rw (all, hit) refl)
        | inr (ac, lost) ↦
            let all : Scalable.find hm hash c key now ≡ some (false, ac) =
              rw (at, Scalable.find) (ap some lost) in
            inr (ac, all, rw (all, hit) refl)
      ]

  -- `mget` appends the keys that are missing or expired, in order, and never throws.
  pub mget-missed :
      (c : Scalable K Table) (keys not_find_keys : List K) (now : ℕ)
      → IsSound hm hash dec c
      → mget hm hash c keys not_find_keys now ≡ some (not_find_keys ++ missed c keys now)
  unfolding mget get missed
  mget-missed c [] nf now h = ap some (sym (append-nil nf))
  mget-missed c (key ∷ keys) nf now h = elim (find-hit c key now h) [
    | inl (e, found, value) ↦ rw (found, value, mget, get, missed) (mget-missed c keys nf now h)
    | inr (ac, lost, value) ↦
        rw (lost, value, mget, get, missed)
          (mget-missed c keys (nf ++ (key ∷ [])) now h
            ∙ ap some (append_assoc nf (key ∷ []) (missed c keys now)))
  ]

  -- The value that a batch adds under `k`.
  pub batch_hit : Scalable K Table → List K → K → ℕ → Option V
  batch_hit c [] k now = none
  batch_hit c (key ∷ keys) k now =
      let rest = batch_hit c keys k now in elim (dec key k) [ yes _ ↦ hit c key now | no _ ↦ rest ]

  -- A value that is there already is kept.
  pub or_else : Option V → Option V → Option V
  or_else (some v) w = some v
  or_else none w = w

  or_else-none : (o : Option V) → or_else o none ≡ o
  unfolding or_else
  or_else-none none = refl
  or_else-none (some v) = refl

  batch_hit-none :
      (c : Scalable K Table) (keys : List K) (k : K) (now : ℕ)
      → hit c k now ≡ none
      → batch_hit c keys k now ≡ none
  unfolding batch_hit
  batch_hit-none c [] k now h = refl
  batch_hit-none c (key ∷ keys) k now h =
      elim (dec key k)
        as (λ d.
          (let rest = batch_hit c keys k now in elim d [ yes _ ↦ hit c key now | no _ ↦ rest ])
          ≡ none) [ yes p ↦ ap (λ j. hit c j now) p ∙ h | no p ↦ batch_hit-none c keys k now h ]

  batch_hit-found :
      (c : Scalable K Table) (key : K) (keys : List K) (values : K → Option V) (v : V) (k : K)
      (now : ℕ)
      → hit c key now ≡ some v
      → or_else (insert_pair hm hash dec values key v k) (batch_hit c keys k now)
        ≡ or_else (values k) (batch_hit c (key ∷ keys) k now)
  unfolding batch_hit or_else insert_pair
  batch_hit-found c key keys values v k now h = ground arith

  batch_hit-lost :
      (c : Scalable K Table) (key : K) (keys : List K) (values : K → Option V) (k : K) (now : ℕ)
      → hit c key now ≡ none
      → or_else (values k) (batch_hit c keys k now)
        ≡ or_else (values k) (batch_hit c (key ∷ keys) k now)
  unfolding batch_hit or_else
  batch_hit-lost c key keys values k now h =
      elim (dec key k)
        as (λ d.
          or_else (values k) (batch_hit c keys k now)
          ≡ or_else (values k) (
              let rest = batch_hit c keys k now in
              elim d [ yes _ ↦ hit c key now | no _ ↦ rest ])) [
                | yes p ↦
                    ap (or_else (values k))
                      (batch_hit-none c keys k now (ap (λ j. hit c j now) (sym p) ∙ h) ∙ sym h)
                | no p ↦ refl
              ]

  -- On a sound cache `mget` does not throw: it appends the keys that are missing or expired, in
  -- order, and adds the value of every key of the batch that is there and has not expired, but
  -- keeps a value that `values` already has.
  pub mget_values-hit :
      (c : Scalable K Table) (keys : List K) (values : K → Option V) (not_find_keys : List K)
      (now : ℕ)
      → IsSound hm hash dec c
      → (values' : K → Option V) × (mget_values hm hash dec c keys values not_find_keys now
          ≡ some (values', not_find_keys ++ missed c keys now))
        × ((k : K) → values' k ≡ or_else (values k) (batch_hit c keys k now))
  unfolding mget_values missed batch_hit or_else
  mget_values-hit c [] values nf now h =
      (values, ap (λ l. some (values, l)) (sym (append-nil nf)), λ k. sym (or_else-none (values k)))
  mget_values-hit c (key ∷ keys) values nf now h = elim (find-hit c key now h) [
    | inl (e, found, value) ↦
        let (values', done, at) =
          mget_values-hit c keys (insert_pair hm hash dec values key e.m_value) nf now h in
        (
          values',
          rw (found, value, mget_values, missed) done,
          λ k. at k ∙ batch_hit-found c key keys values e.m_value k now value,
        )
    | inr (ac, lost, value) ↦
        let (values', done, at) = mget_values-hit c keys values (nf ++ (key ∷ [])) now h in
        (
          values',
          rw (lost, value, mget_values, missed)
              (done ∙ ap (λ l. some (values', l)) (append_assoc nf (key ∷ []) (missed c keys now))),
          λ k. at k ∙ batch_hit-lost c key keys values k now value,
        )
  ]
