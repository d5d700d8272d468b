-- ===== src/Cache/Shard.antt =====
-- `ConcurrentLRUCache` of cpp_lib/cache/concurrent_lru_cache.h: one shard. A method takes the
-- shard and returns it anew; `now` is what `time` returns during the call.
pub mod Invariant
pub mod Update
pub mod Add
pub mod Remove
pub mod Keeps
pub mod Evict
pub mod Set
pub mod Insert
pub mod Snapshot
pub mod Reset
pub mod Reach
pub mod Order
pub mod Accessor
pub mod Lookup
pub mod Overlap
pub mod Settle
pub mod Batch
pub mod Serves
use cpp_lib.Prelude.{
  ℕ, zero, suc, ◌+◌, ◌-◌, Bool, true, false, not, ◌&&◌, Option, none, some, List, [], ◌∷◌, ltb, leb,
  ◌==◌, if◌then◌else◌, update,
}
use cpp_lib.Container.HashMap.{HashMap}
use cpp_lib.Cache.Links.{
  Links, null, out_of_list_marker, head, tail, first_free, is_in_list, delink, push_front,
}

pub data CacheEvictType : Type 0 where
  evict_batch evict_one : CacheEvictType

abbrev pub max_evict_batch : ℕ
max_evict_batch = 64

pub record HashMapValue (V : Type 0) : Type 0 where
  pub m_value : V
  pub m_list_node : ℕ

-- `fresh` is the address that the next `new ListNode` returns. The keys and times of the nodes stand
-- beside the links; the list mutex is left out, as a method runs alone.
pub record Shard (K Table : Type 0) : Type 0 where
  pub m_max_size : ℕ
  pub m_size : ℕ
  pub m_map : Table
  pub m_timeout : ℕ
  pub m_evict_type : CacheEvictType
  pub m_evict_flag : Bool
  pub links : Links
  pub m_key : ℕ → K
  pub m_timestamp : ℕ → ℕ
  pub fresh : ℕ

module _ {K V : Type 0} (hm : HashMap K (HashMapValue V)) where
  open hm use {Table, empty, find as map_find, put as map_put, erase as map_erase}

  -- The constructor; `default_key` is the key of a default-constructed sentinel.
  unfoldable pub init : K → ℕ → ℕ → CacheEvictType → Shard K Table
  init default_key max_size timeout evict_type = record {
    m_max_size = max_size;
    m_size = 0;
    m_map = empty;
    m_timeout = timeout;
    m_evict_type = evict_type;
    m_evict_flag = false;
    links = record {
      m_prev = update (update (λ _. out_of_list_marker) head null) tail head;
      m_next = update (λ _. null) head tail;
    };
    m_key = λ _. default_key;
    m_timestamp = λ _. 0;
    fresh = first_free;
  }

  -- The result, and the element that the accessor holds afterwards.
  unfoldable pub find : Shard K Table → K → ℕ → Bool × Option (HashMapValue V)
  find c key now = elim (map_find c.m_map key) [
    | none ↦ (false, none)
    | some e ↦
        if not (c.m_timeout == 0) && ltb c.m_timeout (now - c.m_timestamp e.m_list_node)
        then (false, some e)
        else (true, some e)
  ]

  -- The branch of `set_entry` for a key that is there.
  unfoldable pub update_entry : Shard K Table → K → V → HashMapValue V → ℕ → Shard K Table
  update_entry c key value e now =
      let node = e.m_list_node in
      let c' : Shard K Table = record c {
        m_map = map_put c.m_map key (record e { m_value = value });
      } in
      if not (node == null) && is_in_list c.links node
      then record c' {
        m_timestamp = update c.m_timestamp node now;
        links = push_front (delink c.links node) node;
      }
      else c'

  -- The branch of `set_entry` for a new key.
  unfoldable pub add_entry : Shard K Table → K → V → ℕ → Shard K Table
  add_entry c key value now =
      let node = c.fresh in
      record c {
        m_map = map_put c.m_map key (record { m_value = value; m_list_node = node });
        m_key = update c.m_key node key;
        m_timestamp = update c.m_timestamp node now;
        links = push_front c.links node;
        fresh = node + 1;
        m_size = c.m_size + 1;
      }

  unfoldable pub set_entry : Shard K Table → K → V → ℕ → Shard K Table × Bool
  set_entry c key value now = elim (map_find c.m_map key) [
    | some e ↦ (update_entry c key value e now, true)
    | none ↦ (add_entry c key value now, true)
  ]

  -- `remove_node` behind its guards: the last node leaves the list, and then the map.
  unfoldable pub remove_last : Shard K Table → ℕ → Shard K Table
  remove_last c moribund =
      let c' : Shard K Table = record c { links = delink c.links moribund } in
      elim (map_find c.m_map (c.m_key moribund)) [
        | none ↦ c'
        | some e ↦ record c' { m_map = map_erase c.m_map (c.m_key moribund); m_size = c.m_size - 1 }
      ]

  unfoldable pub remove_node : Shard K Table → Bool → ℕ → Shard K Table
  remove_node c timeout_check now =
      let moribund = c.links.m_prev tail in
      if moribund == head
      then c
      else if timeout_check && leb (now - c.m_timestamp moribund) c.m_timeout
      then c
      else remove_last c moribund

  unfoldable pub is_last_node_timeout : Shard K Table → ℕ → Bool
  is_last_node_timeout c now =
      let moribund = c.links.m_prev tail in
      if c.m_timeout == 0
      then false
      else if moribund == head
      then false
      else ltb c.m_timeout (now - c.m_timestamp moribund)

  -- The first loop of a batch, with the rounds that `cnt` leaves: the shard, and the rounds left.
  unfoldable pub evict_overload : ℕ → Shard K Table → ℕ → Shard K Table × ℕ
  evict_overload zero c now = (c, zero)
  evict_overload (suc n) c now =
      let rest = evict_overload n (remove_node c false now) now in
      if ltb c.m_max_size c.m_size then rest else (c, suc n)

  -- The second loop.
  unfoldable pub evict_expired : ℕ → Shard K Table → ℕ → Shard K Table
  evict_expired zero c now = c
  evict_expired (suc n) c now =
      let rest = evict_expired n (remove_node c true now) now in
      if is_last_node_timeout c now then rest else c

  unfoldable pub evict_body : CacheEvictType → Shard K Table → ℕ → Shard K Table
  evict_body evict_one c now =
      let c' = if ltb c.m_max_size c.m_size then remove_node c false now else c in
      if is_last_node_timeout c' now then remove_node c' true now else c'
  evict_body evict_batch c now =
      let r = evict_overload max_evict_batch c now in evict_expired r.1 r.0 now

  -- `evict` once it holds `m_evict_flag`: the flag, the eviction and the reset of the flag.
  unfoldable pub evict_holding_flag : Shard K Table → ℕ → Shard K Table
  evict_holding_flag c now =
      let c' = evict_body c.m_evict_type (record c { m_evict_flag = true }) now in
      record c' { m_evict_flag = false }

  -- The compare-and-swap on `m_evict_flag` lets one `evict` in.
  unfoldable pub evict : Shard K Table → ℕ → Shard K Table
  evict c now = if c.m_evict_flag then c else evict_holding_flag c now

  -- `insert`, as it runs where `evict` is called in place (`TEST_MODE`).
  unfoldable pub insert : Shard K Table → K → V → ℕ → Shard K Table × Bool
  insert c key value now =
      let (c', flag) = set_entry c key value now in (if flag then evict c' now else c', flag)

  -- The loop of the batch `insert`.
  unfoldable pub set_entries : Shard K Table → List (K × V) → ℕ → Shard K Table
  set_entries c [] now = c
  set_entries c ((key, value) ∷ rest) now = set_entries (set_entry c key value now).0 rest now

  unfoldable pub insert_all : Shard K Table → List (K × V) → ℕ → Shard K Table
  insert_all c entries now = evict (set_entries c entries now) now

  unfoldable pub clear : Shard K Table → Shard K Table
  clear c = record c {
    m_map = empty;
    links = record {
      m_next = update c.links.m_next head tail;
      m_prev = update c.links.m_prev tail head;
    };
    m_size = 0;
  }

  -- The walk of `snapshot_keys`, `none` if the fuel runs out before the tail.
  unfoldable pub walk_keys : ℕ → Shard K Table → ℕ → Option (List K)
  walk_keys zero c node = none
  walk_keys (suc n) c node =
      let rest = walk_keys n c (c.links.m_next node) in
      if node == tail
      then some []
      else elim rest [ none ↦ none | some ks ↦ some (c.m_key node ∷ ks) ]

  unfoldable pub snapshot_keys : Shard K Table → Option (List K)
  snapshot_keys c = walk_keys (c.m_size + 1) c (c.links.m_next head)
