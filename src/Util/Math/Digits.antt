-- ===== src/Util/Math/Digits.antt =====
-- The number of digits that `Digits10` of cpp_lib/util/math/math.cc gives.
use cpp_lib.Prelude.{
  ℕ, zero, suc, ◌+◌, ◌-◌, ◌*◌, ◌/◌, ◌%◌, ◌^◌, ◌≤◌, ◌<◌, ◌≡◌, refl, ap, ◌⊎◌, inl, inr, Bool-cases,
  false, none, some, ltb, ◌==◌, arith,
}
use cpp_lib.Util.Math.{sign_extend, digits10}

-- One round where the quotient fits.
digits10-round :
    (n v d : ℕ)
    → 10 ≤ v
    → v < 10 * 2 ^ 31
    → digits10 n (v / 10) ≡ some d
    → digits10 (suc n) v ≡ some (suc d)
unfolding digits10
digits10-round n v d low high h =
    let same : v / 10 % 2 ^ 32 ≡ v / 10 = omega arith in
    let positive : (v / 10 == 0) ≡ false = ground arith in
    let small : sign_extend (v / 10) ≡ v / 10 = ground arith in
    rw (digits10, same, positive, small, h) (ap some (omega arith))

digits10-one : (n v : ℕ) → v < 10 → digits10 (suc n) v ≡ some 1
unfolding digits10
digits10-one n v h =
    let zero_next : v / 10 % 2 ^ 32 ≡ 0 = omega arith in rw (digits10, zero_next) refl

pow_suc : (n : ℕ) → 10 ^ suc n ≡ 10 * 10 ^ n
pow_suc n = omega arith

positive : (n v : ℕ) → 10 ≤ v → v < 10 ^ suc n → 0 < n
positive zero v h e = absurd (omega (arith, h, e))
positive (suc n) v h e = omega arith

-- For `v` below `10 * 2^31` and `10^n`, with `n` positive, `Digits10` ends within `n` calls and
-- gives the number of decimal digits of `v`, one for 0.
pub digits10_lem :
    (n v : ℕ)
    → v < 10 * 2 ^ 31
    → v < 10 ^ n
    → 0 < n
    → (d : ℕ) × (digits10 n v ≡ some (suc d)) × (v < 10 ^ suc d) × ((d ≡ 0) ⊎ (10 ^ d ≤ v))
unfolding digits10
digits10_lem zero v high enough pos = absurd (omega arith)
digits10_lem (suc n) v high enough pos = elim (Bool-cases (ltb v 10)) [
  | inl y ↦ (0, digits10-one n v (ground (arith, y)), ground (arith, y), inl refl)
  | inr n_big ↦
      let big : 10 ≤ v = ground (arith, n_big) in
      let tenth : v / 10 < 10 ^ n = omega (arith, enough, pow_suc n) in
      let (d, ran, under, over) =
        digits10_lem n (v / 10) (omega (arith, high)) tenth (positive n v big enough) in
      (
        suc d,
        digits10-round n v (suc d) big high ran,
        omega (arith, under, pow_suc (suc d)),
        inr (elim over [
          | inl z ↦ omega (arith, ap (λ e. 10 ^ suc e) z, big, pow_suc 0)
          | inr le ↦ omega (arith, le, pow_suc d)
        ]),
      )
]

-- Where `v / 10` has bit 31 set, no number of calls is enough for `Digits10` to end.
pub digits10_diverges : (n v : ℕ) → 2 ^ 31 ≤ v / 10 % 2 ^ 32 → digits10 n v ≡ none
unfolding digits10
digits10_diverges zero v h = refl
digits10_diverges (suc n) v h =
    let next = v / 10 % 2 ^ 32 in
    let big : sign_extend next ≡ next + (2 ^ 64 - 2 ^ 32) = ground (arith, h) in
    let positive : (next == 0) ≡ false = ground (arith, h) in
    let again : digits10 n (sign_extend next) ≡ none =
      digits10_diverges n (sign_extend next) (ground (arith, h, big)) in
    rw (digits10, positive, again) refl
