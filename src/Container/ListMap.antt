-- ===== src/Container/ListMap.antt =====
-- A list of pairs with all the laws of the concurrent hash map: a later write hides an earlier one.
use cpp_lib.Prelude.{
  ℕ, suc, ◌+◌, ◌≡◌, ◌≢◌, refl, sym, ap, ◌∙◌, true, false, Bool-cases, ◌==◌, ==_iff, inl, inr,
  Option, none, some, List, [], ◌∷◌, if◌then◌else◌, arith,
}
use cpp_lib.Container.HashMap.{HashMap}

pub apart : (j k : ℕ) → j ≢ k → (j == k) ≡ false
apart j k h = ground arith

pub same : (k : ℕ) → (k == k) ≡ true
same k = (==_iff k k).1 refl

equal : (j k : ℕ) → (j == k) ≡ true → j ≡ k
equal j k h = ground arith

differ : (j k : ℕ) → (j == k) ≡ false → k ≢ j
differ j k h = ground arith

module _ {V : Type 0} where
  abbrev pub lookup : List (ℕ × V) → ℕ → Option V
  lookup [] k = none
  lookup ((j, v) ∷ t) k = if j == k then some v else lookup t k

  abbrev pub remove : List (ℕ × V) → ℕ → List (ℕ × V)
  remove [] k = []
  remove ((j, v) ∷ t) k = let rest = remove t k in if j == k then rest else (j, v) ∷ rest

  abbrev pub present : Option V → ℕ
  present none = 0
  present (some v) = 1

  -- The number of different keys.
  abbrev pub keys : List (ℕ × V) → ℕ
  keys [] = 0
  keys ((j, v) ∷ t) = elim (lookup t j) [ none ↦ suc (keys t) | some w ↦ keys t ]

  pub lookup-remove_self : (t : List (ℕ × V)) (k : ℕ) → lookup (remove t k) k ≡ none
  lookup-remove_self [] k = refl
  lookup-remove_self ((j, v) ∷ t) k = elim (Bool-cases (j == k)) [
    | inl y ↦ rw y (lookup-remove_self t k)
    | inr n ↦ rw (n, n) (lookup-remove_self t k)
  ]

  pub lookup-remove_ne : (t : List (ℕ × V)) (k j : ℕ) → k ≢ j → lookup (remove t k) j ≡ lookup t j
  lookup-remove_ne [] k j h = refl
  lookup-remove_ne ((i, v) ∷ t) k j h = elim (Bool-cases (i == k)) [
    | inl y ↦ rw (y, apart i j (λ p. h (sym (equal i k y) ∙ p))) (lookup-remove_ne t k j h)
    | inr n ↦
        rw n (elim (Bool-cases (i == j)) [
          | inl y ↦ rw y refl
          | inr m ↦ rw m (lookup-remove_ne t k j h)
        ])
  ]

  counted :
      (o : Option V) (r m : ℕ) → r + present o ≡ m → r + 1 ≡ (elim o [ none ↦ suc m | some w ↦ m ])
  counted none r m h = omega (arith, h)
  counted (some w) r m h = h

  kept :
      (o : Option V) (r m p : ℕ)
      → r + p ≡ m
      → (elim o [ none ↦ suc r | some w ↦ r ]) + p ≡ (elim o [ none ↦ suc m | some w ↦ m ])
  kept none r m p h = omega (arith, h)
  kept (some w) r m p h = h

  pub keys-remove : (t : List (ℕ × V)) (k : ℕ) → keys (remove t k) + present (lookup t k) ≡ keys t
  keys-remove [] k = refl
  keys-remove ((i, v) ∷ t) k = elim (Bool-cases (i == k)) [
    | inl y ↦
        let p = equal i k y in
        let ih = keys-remove t k in rw (y, p) (counted (lookup t k) (keys (remove t k)) (keys t) ih)
    | inr n ↦
        let ih = keys-remove t k in
        rw n (
          ap
            (λ o.
              (elim o [ none ↦ suc (keys (remove t k)) | some w ↦ keys (remove t k) ])
              + present (lookup t k))
            (lookup-remove_ne t k i (differ i k n))
          ∙ kept (lookup t i) (keys (remove t k)) (keys t) (present (lookup t k)) ih)
  ]

unfoldable pub list_map : (V : Type 0) → HashMap ℕ V
list_map V = record {
  Table = List (ℕ × V);
  empty = [];
  find = lookup;
  put = λ t k v. (k, v) ∷ t;
  erase = remove;
  size = keys;
  find-empty = λ k. refl;
  find-put_self = λ t k v. rw (same k) refl;
  find-put_ne = λ t k j v h. rw (apart k j h) refl;
  find-erase_self = lookup-remove_self;
  find-erase_ne = lookup-remove_ne;
  size-empty = refl;
  size-put_new = λ t k v h. rw (keys, h) (omega arith);
  size-put_old = λ t k v w h. rw (keys, h) refl;
  size-erase = λ t k w h. ap (λ o. keys (remove t k) + present o) (sym h) ∙ keys-remove t k;
}
