-- ===== src/Cache/Links.antt =====
-- The doubly linked list of cpp_lib/cache/concurrent_lru_cache.h: `delink`, `push_front` and the
-- chain of nodes between the two sentinels.
use cpp_lib.Prelude.{
  ℕ, ◌≡◌, ◌≢◌, Bool, true, List, [], ◌∷◌, arith, ◌==◌, Bool-cases, inl, inr, update, last_or, has,
  Distinct, erase, not,
}

-- Addresses. `nullptr`, the value of `kOutOfListMarker` and the two sentinels are not addresses of
-- allocated nodes, which begin at `first_free`.
abbrev pub null : ℕ
null = 0

abbrev pub out_of_list_marker : ℕ
out_of_list_marker = 1

abbrev pub head : ℕ
head = 2

abbrev pub tail : ℕ
tail = 3

abbrev pub first_free : ℕ
first_free = 4

-- The two pointers of every node.
pub record Links : Type 0 where
  pub m_prev : ℕ → ℕ
  pub m_next : ℕ → ℕ

abbrev pub is_in_list : Links → ℕ → Bool
is_in_list l node = not (l.m_prev node == out_of_list_marker)

-- The four writes of `delink`, in order.
unfoldable pub delink : Links → ℕ → Links
delink l node =
    let prev = l.m_prev node in
    let next = l.m_next node in
    record l {
      m_next = update l.m_next prev next;
      m_prev = update (update l.m_prev next prev) node out_of_list_marker;
    }

unfoldable pub push_front : Links → ℕ → Links
push_front l node =
    let old_real_head = l.m_next head in
    record l {
      m_prev = update (update l.m_prev node head) old_real_head node;
      m_next = update (update l.m_next node old_real_head) head node;
    }

-- From `a` the pointers lead forwards through `xs` to `t`, and back again.
abbrev pub Linked : Links → ℕ → List ℕ → ℕ → Type 0
Linked l a [] t = (l.m_next a ≡ t) × (l.m_prev t ≡ a)
Linked l a (x ∷ xs) t = (l.m_next a ≡ x) × (l.m_prev x ≡ a) × Linked l x xs t

-- A chain survives writes elsewhere.
Linked-frame :
    (l m : Links) (a : ℕ) (xs : List ℕ) (t : ℕ)
    → ((y : ℕ) → has y (a ∷ xs) ≡ true → m.m_next y ≡ l.m_next y)
    → ((y : ℕ) → has y (t ∷ xs) ≡ true → m.m_prev y ≡ l.m_prev y)
    → Linked l a xs t
    → Linked m a xs t
Linked-frame l m a [] t n p h = ground (arith, n a, p t)
Linked-frame l m a (x ∷ xs) t n p h = (
  ground (arith, n a),
  ground (arith, p x),
  Linked-frame l m x xs t (λ y e. ground (arith, n y)) (λ y e. ground (arith, p y)) h.2,
)

pub prev-mem :
    (l : Links) (a : ℕ) (xs : List ℕ) (t node : ℕ)
    → Linked l a xs t
    → has node xs ≡ true
    → has (l.m_prev node) (a ∷ xs) ≡ true
prev-mem l a [] t node h m = absurd (ground arith)
prev-mem l a (x ∷ xs) t node h m = ground (arith, prev-mem l x xs t node)

pub next-mem :
    (l : Links) (a : ℕ) (xs : List ℕ) (t node : ℕ)
    → Linked l a xs t
    → has node (a ∷ xs) ≡ true
    → has (l.m_next node) (t ∷ xs) ≡ true
next-mem l a [] t node h m = ground arith
next-mem l a (x ∷ xs) t node h m = ground (arith, next-mem l x xs t node)

pub prev_tail :
    (l : Links) (a : ℕ) (xs : List ℕ) (t : ℕ) → Linked l a xs t → l.m_prev t ≡ last_or a xs
prev_tail l a [] t h = h.1
prev_tail l a (x ∷ xs) t h = prev_tail l x xs t h.2

-- To delink the first node behind `a`.
delink-first :
    (l : Links) (a node : ℕ) (xs : List ℕ) (t : ℕ)
    → Distinct (a ∷ t ∷ node ∷ xs)
    → Linked l a (node ∷ xs) t
    → Linked (delink l node) a xs t
unfolding delink
delink-first l a node [] t d h = ground arith
delink-first l a node (y ∷ ys) t d h = (
  ground arith,
  ground arith,
  Linked-frame l _ y ys t (λ z e. ground arith) (λ z e. ground arith) h.2.2,
)

-- To delink a node further on keeps the first two pointers.
delink-keeps :
    (l : Links) (a x node : ℕ) (ys : List ℕ) (t : ℕ)
    → l.m_next a ≡ x
    → l.m_prev x ≡ a
    → l.m_prev node ≢ a
    → l.m_next node ≢ x
    → x ≢ node
    → Linked (delink l node) x ys t
    → Linked (delink l node) a (x ∷ ys) t
unfolding delink
delink-keeps l a x node ys t n p pa nx xn h = (ground arith, ground arith, h)

-- `delink` takes a node out of a chain of distinct nodes, and leaves the others linked both ways
-- in their order.
pub delink-erase :
    (l : Links) (a : ℕ) (xs : List ℕ) (t node : ℕ)
    → Distinct (a ∷ t ∷ xs)
    → Linked l a xs t
    → has node xs ≡ true
    → Linked (delink l node) a (erase node xs) t
delink-erase l a [] t node d h m = absurd (ground arith)
delink-erase l a (x ∷ xs) t node d h m = elim (Bool-cases (x == node)) [
  | inl e ↦ let same : x ≡ node = ground arith in rw e (rw same at (delink-first l a x xs t d h))
  | inr e ↦ rw e (
      delink-keeps l a x node _ t h.0 h.1 (ground (arith, prev-mem l x xs t node))
        (ground (arith, next-mem l x xs t node)) (ground arith)
        (delink-erase l x xs t node (ground arith) h.2 (ground arith)))
]

-- `push_front` puts a new node in front of a chain, linked both ways.
pub push_front-cons :
    (l : Links) (xs : List ℕ) (t node : ℕ)
    → Distinct (head ∷ t ∷ node ∷ xs)
    → Linked l head xs t
    → Linked (push_front l node) head (node ∷ xs) t
unfolding push_front
push_front-cons l [] t node d h = ground arith
push_front-cons l (y ∷ ys) t node d h = (
  ground arith,
  ground arith,
  (
    ground arith,
    ground arith,
    Linked-frame l _ y ys t (λ z e. ground arith) (λ z e. ground arith) h.2,
  ),
)
