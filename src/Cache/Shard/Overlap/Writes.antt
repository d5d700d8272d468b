-- ===== src/Cache/Shard/Overlap/Writes.antt =====
-- `set_entry` of cpp_lib/cache/concurrent_lru_cache.h between the two halves of `remove_node`.
use mathlib.Core.Path.{subst}
use cpp_lib.Prelude.{
  ℕ, ◌+◌, ◌-◌, ◌≡◌, ◌≢◌, refl, sym, ap, ◌∙◌, true, false, none, some, Option-cases, inl, inr, List,
  ◌∷◌, update, arith, ◌==◌, has, erase, has-erase_ne,
}
use cpp_lib.Container.HashMap.{HashMap}
use cpp_lib.Cache.Links.{null, head, tail, is_in_list, delink, delink-erase}
use cpp_lib.Cache.Shard.{Shard, HashMapValue, update_entry, add_entry, set_entry}
use cpp_lib.Cache.Shard.Invariant
use cpp_lib.Cache.Shard.Invariant.{IsValid}
use cpp_lib.Cache.Shard.Update
use cpp_lib.Cache.Shard.Add.{add_entry-IsValid}
use cpp_lib.Cache.Shard.Overlap.Pending.{
  without, IsPending, IsValid-map, erase-put, erase-put_self, push_front-elsewhere,
  delink-elsewhere,
}

module _ {K V : Type 0} (hm : HashMap K (HashMapValue V)) (dec : Discrete K) where
  open hm use {Table, find as map_find}

  module _ (c : Shard K Table) (xs : List ℕ) (x : ℕ) (p : IsPending hm dec c xs x) where
    not_tail : has x (tail ∷ xs) ≡ false
    not_tail = ground (arith, p.away, p.allocated)

    -- A write to the key of the node that is out of the list.
    put_own :
        (v : V)
        → IsPending hm dec
            (record c {
              m_map = hm.put c.m_map (c.m_key x) (record { m_value = v; m_list_node = x });
            })
            xs
            x
    put_own v =
        let e : HashMapValue V = record { m_value = v; m_list_node = x } in
        record {
          valid =
              IsValid-map hm dec (without hm dec c x) xs
                (hm.erase (hm.put c.m_map (c.m_key x) e) (c.m_key x)) (c.m_size - 1) p.valid
                (erase-put_self hm dec c.m_map (c.m_key x) e) refl;
          there = (v, hm.find-put_self c.m_map (c.m_key x) e);
          out = p.out;
          away = p.away;
          allocated = p.allocated;
          counted = p.counted;
        }

    module _ (key : K) (value : V) (now : ℕ) (ne : c.m_key x ≢ key) where
      found_without : map_find (without hm dec c x).m_map key ≡ map_find c.m_map key
      found_without = hm.find-erase_ne c.m_map (c.m_key x) key ne

      -- A key that is new.
      added-IsPending :
          map_find c.m_map key ≡ none
          → IsPending hm dec (add_entry hm c key value now) (c.fresh ∷ xs) x
      unfolding add_entry
      added-IsPending new =
          let e : HashMapValue V = record { m_value = value; m_list_node = c.fresh } in
          let apart : x ≢ c.fresh = ground (arith, p.allocated) in
          let same_key : update c.m_key c.fresh key x ≡ c.m_key x = ground (arith, apart) in
          let inner =
            add_entry-IsValid hm dec (without hm dec c x) xs key value now p.valid
              (found_without ∙ new) in
          record {
            valid =
                IsValid-map hm dec (add_entry hm (without hm dec c x) key value now) (c.fresh ∷ xs)
                  (hm.erase (hm.put c.m_map key e) (update c.m_key c.fresh key x))
                  (c.m_size + 1 - 1) inner
                  (λ j.
                    ap (λ a. map_find (hm.erase (hm.put c.m_map key e) a) j) same_key
                    ∙ erase-put hm dec c.m_map (c.m_key x) key e j ne)
                  (omega (arith, p.counted));
            there = (
              p.there.0,
              ap (map_find (hm.put c.m_map key e)) same_key
                  ∙ hm.find-put_ne c.m_map key (c.m_key x) e (λ q. ne (sym q))
                  ∙ p.there.1,
            );
            out =
                push_front-elsewhere hm dec c.links c.fresh x xs p.valid.chain not_tail apart
                ∙ p.out;
            away = ground (arith, p.away, apart);
            allocated = omega (arith, p.allocated);
            counted = omega arith;
          }

      -- A key of a node of the list.
      moved-IsPending :
          (e : HashMapValue V)
          → map_find c.m_map key ≡ some e
          → IsPending hm dec
              (Update.moved hm dec c key value e now)
              (e.m_list_node ∷ erase e.m_list_node xs)
              x
      unfolding Update.moved
      moved-IsPending e found =
          let node = e.m_list_node in
          let e' : HashMapValue V = record e { m_value = value } in
          let old = found_without ∙ found in
          let m : has node xs ≡ true = (p.valid.owned key e old).0 in
          let apart : x ≢ node = ground (arith, m, p.away) in
          let rest : has x (tail ∷ erase node xs) ≡ false =
            ground (arith, not_tail, has-erase_ne x node xs apart) in
          let chain = delink-erase c.links head xs tail node p.valid.distinct p.valid.chain m in
          record {
            valid =
                IsValid-map hm dec (Update.moved hm dec (without hm dec c x) key value e now)
                  (node ∷ erase node xs) (hm.erase (hm.put c.m_map key e') (c.m_key x))
                  (c.m_size - 1)
                  (Update.moved-IsValid hm dec (without hm dec c x) xs key value e now p.valid old)
                  (λ j. erase-put hm dec c.m_map (c.m_key x) key e' j ne) refl;
            there = (
              p.there.0,
              hm.find-put_ne c.m_map key (c.m_key x) e' (λ q. ne (sym q)) ∙ p.there.1,
            );
            out =
                push_front-elsewhere hm dec (delink c.links node) node x (erase node xs) chain rest
                  apart
                ∙ delink-elsewhere hm dec c.links node x xs p.valid.chain m not_tail apart
                ∙ p.out;
            away = ground (arith, rest, apart);
            allocated = p.allocated;
            counted = p.counted;
          }

      -- The guard of `set_entry` holds of the node.
      update_entry-moved :
          (e : HashMapValue V)
          → map_find c.m_map key ≡ some e
          → update_entry hm c key value e now ≡ Update.moved hm dec c key value e now
      unfolding update_entry Update.moved
      update_entry-moved e found =
          let m = (p.valid.owned key e (found_without ∙ found)).0 in
          let g = Invariant.linked_guard hm (without hm dec c x) xs e.m_list_node p.valid m in
          let some_node : (e.m_list_node == null) ≡ false = ground (arith, g.0) in
          rw (some_node, g.1) refl

    abbrev pub Kept : Shard K Table → Type 0
    Kept c' = (ys : List ℕ) × IsPending hm dec c' ys x × (c'.m_key x ≡ c.m_key x)

    set_other :
        (key : K) (value : V) (now : ℕ) → c.m_key x ≢ key → Kept (set_entry hm c key value now).0
    unfolding set_entry Update.moved add_entry
    set_other key value now ne = elim (Option-cases (map_find c.m_map key)) [
      | inl new ↦
          rw (new, set_entry)
            (c.fresh ∷ xs, added-IsPending key value now ne new, ground (arith, p.allocated))
      | inr (e, found) ↦
          rw (found, set_entry, update_entry-moved key value now ne e found)
            (e.m_list_node ∷ erase e.m_list_node xs, moved-IsPending key value now ne e found, refl)
    ]

    set_own : (value : V) (now : ℕ) → Kept (set_entry hm c (c.m_key x) value now).0
    unfolding set_entry update_entry
    set_own value now =
        let outside : is_in_list c.links x ≡ false = ground (arith, p.out) in
        let real : (x == null) ≡ false = ground (arith, p.allocated) in
        rw (p.there.1, set_entry, real, outside) (xs, put_own value, refl)

    pub set_entry-Kept : (key : K) (value : V) (now : ℕ) → Kept (set_entry hm c key value now).0
    set_entry-Kept key value now = elim (dec (c.m_key x) key) [
      | yes q ↦ subst (λ k. Kept (set_entry hm c k value now).0) q (set_own value now)
      | no q ↦ set_other key value now q
    ]
