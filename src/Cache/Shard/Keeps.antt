-- ===== src/Cache/Shard/Keeps.antt =====
-- What an eviction step of cpp_lib/cache/concurrent_lru_cache.h does to a shard, as a relation that
-- composes, and `remove_node` as such a step.
use mathlib.Core.List.{append_assoc, append-nil}
use cpp_lib.Prelude.{
  ℕ, ◌-◌, ◌≤◌, ◌<◌, ◌≡◌, refl, sym, ap, ◌∙◌, ◌≢◌, true, false, some, List, [], ◌∷◌, ◌++◌, arith,
  ltb, leb, ◌==◌, length, length-append, get_elem?, last_or, drop_last, drop_last-append, has,
  erase, has-last_or, erase-last_or, has-append_left,
}
use cpp_lib.Container.HashMap.{HashMap}
use cpp_lib.Cache.Links.{head, tail, prev_tail}
use cpp_lib.Cache.Shard.{Shard, HashMapValue, remove_last, remove_node, is_last_node_timeout}
use cpp_lib.Cache.Shard.Invariant.{IsValid}
use cpp_lib.Cache.Shard.Remove

module _ {K V : Type 0} (hm : HashMap K (HashMapValue V)) (dec : Discrete K) (now : ℕ) where
  open hm use {Table, find as map_find}

  pub record SameSettings (c c' : Shard K Table) : Type 0 where
    pub max_size : c'.m_max_size ≡ c.m_max_size
    pub timeout : c'.m_timeout ≡ c.m_timeout
    pub evict_type : c'.m_evict_type ≡ c.m_evict_type
    pub evict_flag : c'.m_evict_flag ≡ c.m_evict_flag
    pub key : c'.m_key ≡ c.m_key
    pub timestamp : c'.m_timestamp ≡ c.m_timestamp

  -- From `c` with the nodes `xs` only least recently used nodes are evicted, `ys` stay, and every
  -- entry that stays is as it was.
  pub record Keeps (c : Shard K Table) (xs : List ℕ) (c' : Shard K Table) (ys : List ℕ)
      : Type 0 where
    pub valid : IsValid hm c' ys
    pub victims : (zs : List ℕ) × (ys ++ zs ≡ xs)
    pub settings : SameSettings c c'
    pub kept :
        (x : ℕ) → has x ys ≡ true → map_find c'.m_map (c.m_key x) ≡ map_find c.m_map (c.m_key x)
    pub front :
        (x : ℕ)
        → 0 < c.m_max_size
        → c.m_timestamp x ≡ now
        → get_elem? xs 0 ≡ some x
        → get_elem? ys 0 ≡ some x

  pub Keeps-refl : (c : Shard K Table) (xs : List ℕ) → IsValid hm c xs → Keeps c xs c xs
  Keeps-refl c xs w = record {
    valid = w;
    victims = ([], append-nil xs);
    settings = record {
      max_size = refl;
      timeout = refl;
      evict_type = refl;
      evict_flag = refl;
      key = refl;
      timestamp = refl;
    };
    kept = λ x m. refl;
    front = λ x p t f. f;
  }

  pub Keeps-length :
      (c c' : Shard K Table) (xs ys : List ℕ) → Keeps c xs c' ys → length ys ≤ length xs
  Keeps-length c c' xs ys r = omega (arith, length-append ys r.victims.0, ap length r.victims.1)

  pub Keeps-trans :
      (c d e : Shard K Table) (xs ys zs : List ℕ)
      → Keeps c xs d ys
      → Keeps d ys e zs
      → Keeps c xs e zs
  Keeps-trans c d e xs ys zs r s = record {
    valid = s.valid;
    victims = (
      s.victims.0 ++ r.victims.0,
      sym (append_assoc zs s.victims.0 r.victims.0)
          ∙ ap (λ l. l ++ r.victims.0) s.victims.1
          ∙ r.victims.1,
    );
    settings = record {
      max_size = s.settings.max_size ∙ r.settings.max_size;
      timeout = s.settings.timeout ∙ r.settings.timeout;
      evict_type = s.settings.evict_type ∙ r.settings.evict_type;
      evict_flag = s.settings.evict_flag ∙ r.settings.evict_flag;
      key = s.settings.key ∙ r.settings.key;
      timestamp = s.settings.timestamp ∙ r.settings.timestamp;
    };
    kept = λ x m.
        let old : has x ys ≡ true =
          ap (has x) (sym s.victims.1) ∙ has-append_left x zs s.victims.0 m in
        ap (λ (k : ℕ → K). map_find e.m_map (k x)) (sym r.settings.key)
        ∙ s.kept x m
        ∙ ap (λ (k : ℕ → K). map_find d.m_map (k x)) r.settings.key
        ∙ r.kept x old;
    front = λ x p t f.
        s.front x (rw r.settings.max_size p) (ap (λ (g : ℕ → ℕ). g x) r.settings.timestamp ∙ t)
          (r.front x p t f);
  }

  -- With a second node, the first one stays.
  drop_last-front :
      (x y : ℕ) (ys : List ℕ)
      → (ys ≡ [] → y ≢ x)
      → get_elem? (y ∷ ys) 0 ≡ some x
      → get_elem? (drop_last (y ∷ ys)) 0 ≡ some x
  drop_last-front x y [] h f = absurd (h refl (ground arith))
  drop_last-front x y (z ∷ ys) h f = f

  -- The removal of the last node of a list with two nodes, or whose only node is older than `now`.
  remove_last-Keeps :
      (c : Shard K Table) (y : ℕ) (ys : List ℕ)
      → IsValid hm c (y ∷ ys)
      → ((x : ℕ) → 0 < c.m_max_size → c.m_timestamp x ≡ now → ys ≡ [] → y ≢ x)
      → Keeps c (y ∷ ys) (remove_last hm c (last_or y ys)) (drop_last (y ∷ ys))
  unfolding Remove.removed
  remove_last-Keeps c y ys w old =
      let node = last_or y ys in
      let xs = y ∷ ys in
      let m : has node xs ≡ true = has-last_or y ys in
      let shape : erase node xs ≡ drop_last xs = erase-last_or head y ys w.distinct.1.1 in
      let v = rw shape at (Remove.remove_last-IsValid hm dec c xs node w m) in
      rw (Remove.remove_last-removed hm dec c xs node w m) (record {
        valid = rw (Remove.remove_last-removed hm dec c xs node w m) at v;
        victims = (node ∷ [], drop_last-append head y ys);
        settings = record {
          max_size = refl;
          timeout = refl;
          evict_type = refl;
          evict_flag = refl;
          key = refl;
          timestamp = refl;
        };
        kept = λ x h. Remove.removed-kept hm dec c xs node w m x (ap (has x) shape ∙ h);
        front = λ x p t. drop_last-front x y ys (old x p t);
      })

  last-ne-head :
      (c : Shard K Table) (y : ℕ) (ys : List ℕ)
      → IsValid hm c (y ∷ ys)
      → (last_or y ys == head) ≡ false
  last-ne-head c y ys w = ground (arith, w.allocated (last_or y ys) (has-last_or y ys))

  -- An eviction for want of room: with more nodes than `m_max_size` the last one goes.
  pub remove_node-overload :
      (c : Shard K Table) (xs : List ℕ)
      → IsValid hm c xs
      → ltb c.m_max_size c.m_size ≡ true
      → Keeps c xs (remove_node hm c false now) (drop_last xs)
  unfolding remove_node
  remove_node-overload c [] w over = absurd (ground (arith, w.sized))
  remove_node-overload c (y ∷ ys) w over =
      let ne : (last_or y ys == head) ≡ false = last-ne-head c y ys w in
      rw (prev_tail c.links head (y ∷ ys) tail w.chain, ne)
        (remove_last-Keeps c y ys w (λ x p t e q. absurd (ground (arith, w.sized, ap length e))))

  -- An eviction for age: an expired last node goes.
  pub remove_node-expired :
      (c : Shard K Table) (xs : List ℕ)
      → IsValid hm c xs
      → is_last_node_timeout hm c now ≡ true
      → Keeps c xs (remove_node hm c true now) (drop_last xs)
  unfolding remove_node is_last_node_timeout
  remove_node-expired c [] w late = absurd (ground (arith, w.chain.1))
  remove_node-expired c (y ∷ ys) w late =
      let ne : (last_or y ys == head) ≡ false = last-ne-head c y ys w in
      let at = prev_tail c.links head (y ∷ ys) tail w.chain in
      let out : ltb c.m_timeout (now - c.m_timestamp (last_or y ys)) ≡ true = ground (arith, at) in
      let stay : leb (now - c.m_timestamp (last_or y ys)) c.m_timeout ≡ false = ground arith in
      rw (at, ne, stay)
        (remove_last-Keeps c y ys w (λ x p t e q.
          absurd (ground (arith, out, t, ap c.m_timestamp (ap (last_or y) e), ap c.m_timestamp q))))
