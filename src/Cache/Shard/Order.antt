-- ===== src/Cache/Shard/Order.antt =====
-- What a shard of cpp_lib/cache/concurrent_lru_cache.h means: the list of its entries, the most
-- recently written first, and `insert` as an operation on that list.
use mathlib.Core.Logic.{ite}
use cpp_lib.Prelude.{
  ℕ, ◌≡◌, refl, sym, ap, ◌∙◌, ◌≢◌, true, false, Bool-cases, Option, none, some, Option-cases, inl,
  inr, List, [], ◌∷◌, ◌++◌, map, ◌==◌, arith, has, Distinct, erase, has-erase_ne,
}
use cpp_lib.Container.HashMap.{HashMap}
use cpp_lib.Cache.Shard.{Shard, HashMapValue, set_entry, insert}
use cpp_lib.Cache.Shard.Invariant.{IsValid, node_of_key}
use cpp_lib.Cache.Shard.Keeps.{Keeps}
use cpp_lib.Cache.Shard.Set.{Written, other_nodes}
use cpp_lib.Cache.Shard.Insert.{wrote, survivors}

pub self-mem : (x : ℕ) (xs : List ℕ) → has x (x ∷ xs) ≡ true
self-mem x xs = ground arith

pub rest-mem : (x y : ℕ) (xs : List ℕ) → has y xs ≡ true → has y (x ∷ xs) ≡ true
rest-mem x y xs h = ground arith

map-agree :
    {A : Type 0} (f g : ℕ → A) (xs : List ℕ)
    → ((x : ℕ) → has x xs ≡ true → g x ≡ f x)
    → map g xs ≡ map f xs
map-agree f g [] h = refl
map-agree f g (x ∷ xs) h =
    rw (h x (self-mem x xs)) (ap (◌∷◌ (f x)) (map-agree f g xs (λ y m. h y (rest-mem x y xs m))))

pub ite_yes : {A P : Type 0} (d : Dec P) (x y : A) → P → ite d x y ≡ x
ite_yes (yes p) x y h = refl
ite_yes (no n) x y h = absurd (n h)

pub ite_no : {A P : Type 0} (d : Dec P) (x y : A) → ¬ P → ite d x y ≡ y
ite_no (yes p) x y h = absurd (h p)
ite_no (no n) x y h = refl

map-append : {A : Type 0} (f : ℕ → A) (xs ys : List ℕ) → map f (xs ++ ys) ≡ map f xs ++ map f ys
map-append f [] ys = refl
map-append f (x ∷ xs) ys = ap (◌∷◌ (f x)) (map-append f xs ys)

module _ {K V : Type 0} (hm : HashMap K (HashMapValue V)) (dec : Discrete K) where
  open hm use {Table, find as map_find}

  -- An entry: its key, its value and the time of its last write.
  abbrev pub Entry : Type 0
  Entry = K × Option V × ℕ

  -- The list without the entries of a key.
  unfoldable pub lru_remove : K → List Entry → List Entry
  lru_remove key [] = []
  lru_remove key (e ∷ es) = let rest = lru_remove key es in ite (dec e.0 key) rest (e ∷ rest)

  -- The key is written, as the first entry.
  unfoldable pub lru_put : K → V → ℕ → List Entry → List Entry
  lru_put key value now es = (key, some value, now) ∷ lru_remove key es

  abbrev pub value_of : Option (HashMapValue V) → Option V
  value_of none = none
  value_of (some e) = some e.m_value

  abbrev pub entry : Shard K Table → ℕ → Entry
  entry c x = (c.m_key x, value_of (map_find c.m_map (c.m_key x)), c.m_timestamp x)

  -- The entries of the nodes `xs`.
  abbrev pub entries : Shard K Table → List ℕ → List Entry
  entries c xs = map (entry c) xs

  kept_all :
      (f g : ℕ → Entry) (key : K) (xs : List ℕ)
      → ((x : ℕ) → has x xs ≡ true → ((f x).0 ≢ key) × (g x ≡ f x))
      → map g xs ≡ lru_remove key (map f xs)
  unfolding lru_remove
  kept_all f g key [] h = refl
  kept_all f g key (x ∷ xs) h =
      let (ne, same) = h x (self-mem x xs) in
      rw same (
        ap (◌∷◌ (f x)) (kept_all f g key xs (λ y m. h y (rest-mem x y xs m)))
        ∙ sym (ite_no (dec (f x).0 key) _ _ ne))

  erased :
      (f g : ℕ → Entry) (key : K) (node : ℕ) (xs : List ℕ)
      → Distinct xs
      → has node xs ≡ true
      → (f node).0 ≡ key
      → ((x : ℕ) → has x xs ≡ true → x ≢ node → ((f x).0 ≢ key) × (g x ≡ f x))
      → map g (erase node xs) ≡ lru_remove key (map f xs)
  unfolding lru_remove
  erased f g key node [] d m k h = absurd (ground arith)
  erased f g key node (x ∷ xs) d m k h = elim (Bool-cases (x == node)) [
    | inl e ↦
        let same : x ≡ node = ground arith in
        rw e (
          kept_all f g key xs (λ y m. h y (rest-mem x y xs m) (ground arith))
          ∙ sym (ite_yes (dec (f x).0 key) _ _ (ap (λ z. (f z).0) same ∙ k)))
    | inr e ↦
        let (ne, same) = h x (self-mem x xs) (ground arith) in
        rw (e, same)
          (ap (◌∷◌ (f x))
              (erased f g key node xs d.1 (ground arith) k (λ y m. h y (rest-mem x y xs m)))
            ∙ sym (ite_no (dec (f x).0 key) _ _ ne))
  ]

  module _ (c : Shard K Table) (xs : List ℕ) (key : K) (value : V) (now : ℕ) (w : IsValid hm c xs)
      (c' : Shard K Table) (r : Written hm dec c xs key value now c') where
    -- The entry of another node than the one that was written.
    other_entry : (x : ℕ) → has x r.rest ≡ true → c.m_key x ≢ key → entry c' x ≡ entry c x
    other_entry x m ne =
        let away : x ≢ r.node = ground (arith, r.valid.distinct) in
        rw (r.other_keys x away, r.others (c.m_key x) (λ p. ne (sym p)), r.other_times x away) refl

    first_entry : entry c' r.node ≡ (key, some value, now)
    first_entry = rw (r.named, r.here, r.stamped) refl

    rest_entries : entries c' r.rest ≡ lru_remove key (entries c xs)
    rest_entries = elim (Option-cases (map_find c.m_map key)) [
      | inl new ↦
          let same : r.rest ≡ xs = r.moved_front ∙ ap (λ o. other_nodes hm dec o xs) new in
          ap (map (entry c')) same
          ∙ kept_all (entry c) (entry c') key xs (λ x m.
            let ne : c.m_key x ≢ key =
              λ p. absurd (ground (arith, w.stored x m, ap (map_find c.m_map) p, new)) in
            (ne, other_entry x (ap (has x) same ∙ m) ne))
      | inr (e, found) ↦
          let same : r.rest ≡ erase e.m_list_node xs =
            r.moved_front ∙ ap (λ o. other_nodes hm dec o xs) found in
          let node = e.m_list_node in
          let (m', named) = w.owned key e found in
          ap (map (entry c')) same
          ∙ erased (entry c) (entry c') key node xs w.distinct.1.1 m' named (λ x m ne.
            let ne' : c.m_key x ≢ key = λ p. ne (node_of_key hm c xs x key e w m p found) in
            (ne', other_entry x (ap (has x) same ∙ has-erase_ne x node xs ne ∙ m) ne'))
    ]

    pub Written-lru_put : entries c' (r.node ∷ r.rest) ≡ lru_put key value now (entries c xs)
    unfolding lru_put
    Written-lru_put = rw (first_entry) (ap (◌∷◌ (key, some value, now)) rest_entries)

  -- The entries that an eviction leaves come first among those of before.
  pub Keeps-entries :
      (now : ℕ) (c c' : Shard K Table) (xs ys : List ℕ)
      → Keeps hm dec now c xs c' ys
      → (more : List Entry) × (entries c' ys ++ more ≡ entries c xs)
  Keeps-entries now c c' xs ys k =
      let (zs, both) = k.victims in
      let agree : entries c' ys ≡ entries c ys = map-agree (entry c) (entry c') ys (λ y m.
        let key : c'.m_key y ≡ c.m_key y = ap (λ (g : ℕ → K). g y) k.settings.key in
        let time : c'.m_timestamp y ≡ c.m_timestamp y =
          ap (λ (g : ℕ → ℕ). g y) k.settings.timestamp in
        rw (key, k.kept y m, time) refl) in
      (
        entries c zs,
        ap (λ es. es ++ entries c zs) agree
            ∙ sym (map-append (entry c) ys zs)
            ∙ ap (entries c) both,
      )

  -- For a valid shard with the evict flag down, `insert` gives a valid shard whose entries (key,
  -- value and time of the last write, the last written first) are a prefix of what writing the
  -- key makes of the entries of before: the new entry first, and behind it those of the other
  -- keys in their order.
  pub insert-lru_put :
      (c : Shard K Table) (xs : List ℕ) (key : K) (value : V) (now : ℕ)
      → IsValid hm c xs
      → c.m_evict_flag ≡ false
      → (ys : List ℕ) × (more : List Entry) × IsValid hm (insert hm c key value now).0 ys
        × (entries (insert hm c key value now).0 ys ++ more ≡ lru_put key value now (entries c xs))
  insert-lru_put c xs key value now w idle =
      let (ys, keeps, settled) = survivors hm dec c xs key value now w idle in
      let r = wrote hm dec c xs key value now w idle in
      let d = (set_entry hm c key value now).0 in
      let (more, first) =
        Keeps-entries now d (insert hm c key value now).0 (r.node ∷ r.rest) ys keeps in
      (ys, more, keeps.valid, first ∙ Written-lru_put c xs key value now w d r)
