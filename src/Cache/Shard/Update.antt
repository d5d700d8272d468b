-- ===== src/Cache/Shard/Update.antt =====
-- `set_entry` of cpp_lib/cache/concurrent_lru_cache.h at a key that is there: the invariant is kept.
use cpp_lib.Prelude.{
  ℕ, ◌≡◌, sym, ap, ◌∙◌, ◌≢◌, true, false, some, List, ◌∷◌, arith, ◌==◌, update, has, erase,
  has-erase_of, has-erase_ne, length-erase,
}
use cpp_lib.Container.HashMap.{HashMap}
use cpp_lib.Cache.Links.{null, head, tail, delink, push_front, delink-erase, push_front-cons}
use cpp_lib.Cache.Shard.{Shard, HashMapValue, update_entry}
use cpp_lib.Cache.Shard.Invariant
use cpp_lib.Cache.Shard.Invariant.{IsValid}

module _ {K V : Type 0} (hm : HashMap K (HashMapValue V)) (dec : Discrete K) where
  open hm use {Table, find as map_find}

  -- What the branch for an existing key computes to on a valid shard.
  unfoldable pub moved : Shard K Table → K → V → HashMapValue V → ℕ → Shard K Table
  moved c key value e now = record c {
    m_map = hm.put c.m_map key (record e { m_value = value });
    m_timestamp = update c.m_timestamp e.m_list_node now;
    links = push_front (delink c.links e.m_list_node) e.m_list_node;
  }

  pub update_entry-moved :
      (c : Shard K Table) (xs : List ℕ) (key : K) (value : V) (e : HashMapValue V) (now : ℕ)
      → IsValid hm c xs
      → map_find c.m_map key ≡ some e
      → update_entry hm c key value e now ≡ moved c key value e now
  unfolding update_entry moved
  update_entry-moved c xs key value e now w found =
      let g = Invariant.linked_guard hm c xs e.m_list_node w (w.owned key e found).0 in
      let g' : (e.m_list_node == null) ≡ false = ground arith in rw (g', g.1)

  module _ (c : Shard K Table) (xs : List ℕ) (key : K) (value : V) (e : HashMapValue V) (now : ℕ)
      (w : IsValid hm c xs) (found : map_find c.m_map key ≡ some e) where
    moved-stored :
        (x : ℕ)
        → has x (e.m_list_node ∷ erase e.m_list_node xs) ≡ true
        → (v : V) × (map_find (moved c key value e now).m_map ((moved c key value e now).m_key x)
            ≡ some (record { m_value = v; m_list_node = x }))
    unfolding moved
    moved-stored x m =
        let node = e.m_list_node in
        let m' : has x xs ≡ true = ground (arith, has-erase_of x node xs, w.owned key e found) in
        elim (dec (c.m_key x) key) [
          | yes p ↦ (
            value,
            cc (
              hm.find-put_self c.m_map key (record e { m_value = value }),
              Invariant.node_of_key hm c xs x key e w m' p found,
            ),
          )
          | no p ↦
              let (v, at) = w.stored x m' in
              (v, hm.find-put_ne c.m_map key (c.m_key x) _ (λ q. p (sym q)) ∙ at)
        ]

    moved-owned :
        (k : K) (e' : HashMapValue V)
        → map_find (moved c key value e now).m_map k ≡ some e'
        → (has e'.m_list_node (e.m_list_node ∷ erase e.m_list_node xs) ≡ true)
          × (c.m_key e'.m_list_node ≡ k)
    unfolding moved
    moved-owned k e' h = elim (dec key k) [
      | yes p ↦
          let same =
            sym (hm.find-put_self c.m_map key (record e { m_value = value }))
            ∙ ap (map_find (hm.put c.m_map key (record e { m_value = value }))) p
            ∙ h in
          (ground arith, ground (arith, (w.owned key e found).1))
      | no p ↦
          let old = w.owned k e' (sym (hm.find-put_ne c.m_map key k _ p) ∙ h) in
          let apart : e'.m_list_node ≢ e.m_list_node =
            λ q. p (cc (old.1, (w.owned key e found).1)) in
          (ground (arith, old.0, has-erase_ne e'.m_list_node e.m_list_node xs), old.1)
    ]

  pub moved-IsValid :
      (c : Shard K Table) (xs : List ℕ) (key : K) (value : V) (e : HashMapValue V) (now : ℕ)
      → IsValid hm c xs
      → map_find c.m_map key ≡ some e
      → IsValid hm (moved c key value e now) (e.m_list_node ∷ erase e.m_list_node xs)
  unfolding moved
  moved-IsValid c xs key value e now w found =
      let node = e.m_list_node in
      let m : has node xs ≡ true = (w.owned key e found).0 in
      let d = Invariant.moved-Distinct hm node xs w.distinct (w.allocated node m).0 in
      (record {
        chain =
            push_front-cons _ _ tail node d
              (delink-erase c.links head xs tail node w.distinct w.chain m);
        distinct = d;
        room = w.room;
        allocated = λ x h. w.allocated x (ground (arith, has-erase_of x node xs));
        stored = moved-stored c xs key value e now w found;
        owned = moved-owned c xs key value e now w found;
        sized = ground (arith, w.sized, length-erase node xs);
      })
