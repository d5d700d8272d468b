-- ===== src/Cache/Front.antt =====
-- `LRUCache` of cpp_lib/cache/lru_cache.h: the front that users call, over a sharded cache.
pub mod Reads
use mathlib.Core.Logic.{ite}
use cpp_lib.Prelude.{ℕ, Bool, true, false, Option, none, some, List, [], ◌∷◌, ◌++◌, if◌then◌else◌}
use cpp_lib.Container.HashMap.{HashMap}
use cpp_lib.Cache.Shard.{HashMapValue}
use cpp_lib.Cache.Scalable
use cpp_lib.Cache.Scalable.{Scalable}

module _ {K V : Type 0} (hm : HashMap K (HashMapValue V)) (hash : K → ℕ) where
  open hm use {Table}

  -- In each result `none` is the exception of `m_shards.at`.
  unfoldable pub get : Scalable K Table → K → ℕ → Option Bool
  get c key now = elim (Scalable.find hm hash c key now) [
    | none ↦ none
    | some (flag, ac) ↦ some flag
  ]

  -- `get` with the reference `value`: the flag, and what `value` holds afterwards.
  unfoldable pub get_value : Scalable K Table → K → V → ℕ → Option (Bool × V)
  get_value c key value now = elim (Scalable.find hm hash c key now) [
    | none ↦ none
    | some (flag, none) ↦ some (flag, value)
    | some (flag, some e) ↦ some (flag, if flag then e.m_value else value)
  ]

  unfoldable pub mget : Scalable K Table → List K → List K → ℕ → Option (List K)
  mget c [] not_find_keys now = some not_find_keys
  mget c (key ∷ keys) not_find_keys now = elim (get c key now) [
    | none ↦ none
    | some true ↦ mget c keys not_find_keys now
    | some false ↦ mget c keys (not_find_keys ++ (key ∷ [])) now
  ]

  -- `std::unordered_map::insert`, which keeps what is there.
  unfoldable pub insert_pair : Discrete K → (K → Option V) → K → V → K → Option V
  insert_pair dec values key v k = elim (values k) [
    | some old ↦ some old
    | none ↦ ite (dec key k) (some v) none
  ]

  unfoldable pub mget_values :
      Discrete K
      → Scalable K Table
      → List K
      → (K → Option V)
      → List K
      → ℕ
      → Option ((K → Option V) × List K)
  mget_values dec c [] values not_find_keys now = some (values, not_find_keys)
  mget_values dec c (key ∷ keys) values not_find_keys now = elim (Scalable.find hm hash c key now) [
    | none ↦ none
    | some (true, some e) ↦
        mget_values dec c keys (insert_pair dec values key e.m_value) not_find_keys now
    | some (true, none) ↦ none
    | some (false, ac) ↦ mget_values dec c keys values (not_find_keys ++ (key ∷ [])) now
  ]

  unfoldable pub lru_set : Scalable K Table → K → V → ℕ → Option (Scalable K Table × Bool)
  lru_set c key value now = Scalable.insert hm hash c key value now

  unfoldable pub mset : Scalable K Table → List (K × V) → ℕ → Scalable K Table
  mset c entries now = Scalable.insert_all hm hash c entries now
