-- ===== src/Cache/Shard/Accessor.antt =====
-- `ConstAccessor` of cpp_lib/cache/concurrent_lru_cache.h: the element of the map that `find` has
-- left in it, if any. The time of an element stands in its node, so it is read from the shard.
use cpp_lib.Prelude.{ℕ, Bool, true, false, Option, none, some}
use cpp_lib.Container.HashMap.{HashMap}
use cpp_lib.Cache.Shard.{Shard, HashMapValue}

-- In the results `none` is the dereference of an empty accessor.
unfoldable pub get_value : {V : Type 0} → Option (HashMapValue V) → Option V
get_value none = none
get_value (some e) = some e.m_value

unfoldable pub empty : {V : Type 0} → Option (HashMapValue V) → Bool
empty none = true
empty (some e) = false

module _ {K V : Type 0} (hm : HashMap K (HashMapValue V)) where
  open hm use {Table}

  unfoldable pub get_timestamp : Shard K Table → Option (HashMapValue V) → Option ℕ
  get_timestamp c none = none
  get_timestamp c (some e) = some (c.m_timestamp e.m_list_node)
