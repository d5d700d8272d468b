-- ===== src/Util/Math/PowerOfTwo.antt =====
-- What `UpperPowerOfTwo` of cpp_lib/util/math/math.cc computes.
use cpp_lib.Prelude.{
  ℕ, zero, suc, ◌+◌, ◌-◌, ◌*◌, ◌/◌, ◌%◌, ◌^◌, ◌≤◌, ◌<◌, ◌≡◌, refl, ap, ◌∙◌, sym, ◌⊎◌, inl, inr,
  Bool-cases, ltb, ltb→lt, if◌then◌else◌, arith,
}
use cpp_lib.Util.Math.{upper_power_of_two}
use cpp_lib.Util.Math.Smear.{nonzero, smear, smear-Smears}

pow_two_suc : (n : ℕ) → 2 ^ suc n ≡ 2 * 2 ^ n
pow_two_suc n = omega arith

pow_two_pos : (n : ℕ) → 0 < 2 ^ n
pow_two_pos zero = omega arith
pow_two_pos (suc n) = omega (arith, pow_two_pos n, pow_two_suc n)

pow_two_mono : (n m : ℕ) → n ≤ m → 2 ^ n ≤ 2 ^ m
pow_two_mono zero m h = omega (arith, pow_two_pos m)
pow_two_mono (suc n) zero h = absurd (omega (arith, h))
pow_two_mono (suc n) (suc m) h =
    omega (arith, pow_two_mono n m (omega (arith, h)), pow_two_suc n, pow_two_suc m)

smear_zero : smear 0 ≡ 0
smear_zero = refl

-- All the digits below the highest one are set.
smear-ones :
    (n x : ℕ)
    → n ≤ 32
    → x < 2 ^ n
    → (k : ℕ) × (k ≤ n)
      × (smear x + 1 ≡ 2 ^ k)
      × (x < 2 ^ k)
      × ((k ≡ 0) ⊎ ((j : ℕ) × (k ≡ suc j) × (2 ^ j ≤ x)))
smear-ones zero x le h =
    let x_zero : x ≡ 0 = omega (arith, h) in
    (0, omega arith, ap (λ y. smear y + 1) x_zero, h, inl refl)
smear-ones (suc n) zero le h = (0, omega arith, refl, omega arith, inl refl)
smear-ones (suc n) (suc y) le h =
    let x = suc y in
    let (k, small, full, under, over) =
      smear-ones n (x / 2) (omega (arith, le)) (omega (arith, h, pow_two_suc n)) in
    let uncut : x % 2 ^ 32 ≡ suc y = omega (arith, h, pow_two_mono (suc n) 32 le) in
    let set : smear x % 2 ≡ 1 = (smear-Smears x).1 ∙ ap nonzero uncut in
    (
      suc k,
      omega (arith, small),
      omega (arith, set, (smear-Smears x).0, full, pow_two_suc k),
      omega (arith, under, pow_two_suc k),
      inr (
        k,
        refl,
        elim over [
          | inl z ↦ omega (arith, ap (λ e. 2 ^ e) z)
          | inr (j, e, least) ↦ omega (arith, ap (λ i. 2 ^ i) e, least, pow_two_suc j)
        ],
      ),
    )

-- The loop that doubles `p` while it is below `v`.
unfoldable pub double : ℕ → ℕ → ℕ → ℕ
double zero p v = p
double (suc n) p v = let rest = double n (2 * p) v in if ltb p v then rest else p

below : (i k v : ℕ) → 2 ^ i < v → v ≤ 2 ^ k → i < k
below i k v h enough = elim (Bool-cases (ltb i k)) [
  | inl y ↦ ltb→lt i k y
  | inr m ↦ absurd (omega (arith, h, enough, pow_two_mono k i (ground (arith, m))))
]

reached : (i k v : ℕ) → i ≤ k → v ≤ 2 ^ i → (k ≡ 0) ⊎ ((j : ℕ) × (k ≡ suc j) × (2 ^ j < v)) → i ≡ k
reached i k v low h (inl z) = omega (arith, low, z)
reached i k v low h (inr (j, e, least)) = omega (arith, low, e, below j i v least h)

double-least :
    (n i k v : ℕ)
    → i ≤ k
    → k ≤ i + n
    → v ≤ 2 ^ k
    → (k ≡ 0) ⊎ ((j : ℕ) × (k ≡ suc j) × (2 ^ j < v))
    → double n (2 ^ i) v ≡ 2 ^ k
unfolding double
double-least zero i k v low high enough least = ap (λ e. 2 ^ e) (omega (arith, low, high))
double-least (suc n) i k v low high enough least = elim (Bool-cases (ltb (2 ^ i) v)) [
  | inl y ↦
      let more : suc i ≤ k = below i k v (ground (arith, y)) enough in
      rw (double, y, sym (pow_two_suc i))
        (double-least n (suc i) k v more (omega (arith, high)) enough least)
  | inr m ↦ rw (double, m) (ap (λ e. 2 ^ e) (reached i k v low (ground (arith, m)) least))
]

upper_power_of_two-smear :
    (v : ℕ) → 0 < v → v < 2 ^ 32 → upper_power_of_two v ≡ (smear (v - 1) + 1) % 2 ^ 32
unfolding upper_power_of_two
upper_power_of_two-smear v pos h =
    let before : (v + (2 ^ 32 - 1)) % 2 ^ 32 ≡ v - 1 = omega (arith, pos, h) in
    ap (λ x. (smear x + 1) % 2 ^ 32) before

-- For `v` between 1 and `2^32 - 1`, `UpperPowerOfTwo` is, modulo `2^32`, the number at which the
-- loop ends that doubles 1 while it is below `v`, at most 32 times.
pub upper_power_of_two-double :
    (v : ℕ) → 0 < v → v < 2 ^ 32 → upper_power_of_two v ≡ double 32 1 v % 2 ^ 32
upper_power_of_two-double v pos h =
    let (k, small, full, under, over) =
      smear-ones 32 (v - 1) (omega arith) (omega (arith, pos, h)) in
    let least : (k ≡ 0) ⊎ ((j : ℕ) × (k ≡ suc j) × (2 ^ j < v)) = elim over [
      | inl z ↦ inl z
      | inr (j, e, le) ↦ inr (j, e, omega (arith, le, pos))
    ] in
    upper_power_of_two-smear v pos h
    ∙ ap (λ p. p % 2 ^ 32)
        (full
          ∙ sym (
              double-least 32 0 k v (omega arith) (omega (arith, small)) (omega (arith, under, pos))
                least))
