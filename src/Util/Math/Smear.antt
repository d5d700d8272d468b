-- ===== src/Util/Math/Smear.antt =====
-- The five assignments of `UpperPowerOfTwo` of cpp_lib/util/math/math.cc set the digits below a one.
use Prim.Native.Nat.{max, bit_or, digits, bit_or-bitwise}
use cpp_lib.Prelude.{
  ℕ, zero, suc, ◌+◌, ◌*◌, ◌/◌, ◌%◌, ◌^◌, ◌≤◌, ◌<◌, ◌≡◌, ◌↔◌, refl, ap, ◌∙◌, sym, arith,
}

-- More fuel than the first number changes nothing.
enough_fuel : (a b n m : ℕ) → a ≤ n → a ≤ m → digits (λ y. y) max n a b ≡ digits (λ y. y) max m a b
enough_fuel zero b zero zero h k = refl
enough_fuel zero b zero (suc m) h k = refl
enough_fuel zero b (suc n) zero h k = refl
enough_fuel zero b (suc n) (suc m) h k = refl
enough_fuel (suc a) b zero m h k = absurd (omega (arith, h))
enough_fuel (suc a) b (suc n) zero h k = absurd (omega (arith, k))
enough_fuel (suc a) b (suc n) (suc m) h k =
    let half : suc a / 2 ≤ a = omega arith in
    omega
      (arith, enough_fuel (suc a / 2) (b / 2) n m (omega (arith, half, h)) (omega (arith, half, k)))

or_zero : (b : ℕ) → bit_or 0 b ≡ b
or_zero b = bit_or-bitwise 0 b

-- The lowest digit apart.
or_halves : (a b : ℕ) → bit_or a b ≡ bit_or (a / 2) (b / 2) * 2 + max (a % 2) (b % 2)
or_halves zero b = omega (arith, or_zero b, or_zero (b / 2))
or_halves (suc a) b =
    let half : suc a / 2 ≤ a = omega arith in
    omega (
      arith,
      bit_or-bitwise (suc a) b,
      enough_fuel (suc a / 2) (b / 2) a (suc a / 2) half (omega arith),
      bit_or-bitwise (suc a / 2) (b / 2),
    )

abbrev pub nonzero : ℕ → ℕ
nonzero zero = 0
nonzero (suc n) = 1

-- A function that sets each digit that has a one among the `w` digits from it upwards.
abbrev pub Smears : ℕ → (ℕ → ℕ) → Type 0
Smears w f = (x : ℕ) → (f x / 2 ≡ f (x / 2)) × (f x % 2 ≡ nonzero (x % w))

abbrev pub Shifts : ℕ → (ℕ → ℕ) → Type 0
Shifts w f = (x : ℕ) → f x / w ≡ f (x / w)

abbrev pub widen : ℕ → (ℕ → ℕ) → ℕ → ℕ
widen w f x = bit_or (f x) (f x / w)

shift_square :
    (f : ℕ → ℕ) (w : ℕ) → ((x : ℕ) → x / w / w ≡ x / (w * w)) → Shifts w f → Shifts (w * w) f
shift_square f w e h x = sym (e (f x)) ∙ ap (λ y. y / w) (h x) ∙ h (x / w) ∙ ap f (e x)

nonzero-le : (n : ℕ) → nonzero n ≤ 1
nonzero-le zero = omega arith
nonzero-le (suc n) = omega arith

nonzero-max : (a b c : ℕ) → (c ≡ 0) ↔ ((a ≡ 0) × (b ≡ 0)) → max (nonzero a) (nonzero b) ≡ nonzero c
nonzero-max zero zero zero h = refl
nonzero-max zero zero (suc c) h = absurd (omega (arith, h.1 (refl, refl)))
nonzero-max (suc a) b zero h = absurd (omega (arith, (h.0 refl).0))
nonzero-max zero (suc b) zero h = absurd (omega (arith, (h.0 refl).1))
nonzero-max zero (suc b) (suc c) h = refl
nonzero-max (suc a) zero (suc c) h = refl
nonzero-max (suc a) (suc b) (suc c) h = refl

widen-Smears :
    (f : ℕ → ℕ) (w : ℕ)
    → Smears w f
    → Shifts w f
    → ((x : ℕ) → max (nonzero (x % w)) (nonzero (x / w % w)) ≡ nonzero (x % (w * w)))
    → ((x : ℕ) → x / w / 2 ≡ x / 2 / w)
    → Smears (w * w) (widen w f)
widen-Smears f w h sh low swap x =
    let cut = or_halves (f x) (f x / w) in
    let digit : max (f x % 2) (f x / w % 2) ≡ nonzero (x % (w * w)) =
      rw (sh x, (h x).1, (h (x / w)).1) (low x) in
    let above : bit_or (f x / 2) (f x / w / 2) ≡ widen w f (x / 2) =
      ap (bit_or (f x / 2))
        (ap (λ y. y / 2) (sh x) ∙ (h (x / w)).0 ∙ ap f (swap x) ∙ sym (sh (x / 2)))
      ∙ ap (λ y. bit_or y (f (x / 2) / w)) (h x).0 in
    (
      ap (λ y. y / 2) cut ∙ omega (arith, digit, nonzero-le (x % (w * w))) ∙ above,
      omega (arith, cut, digit, nonzero-le (x % (w * w))),
    )

bit-nonzero : (n : ℕ) → n < 2 → n ≡ nonzero n
bit-nonzero zero h = refl
bit-nonzero (suc zero) h = refl
bit-nonzero (suc (suc n)) h = absurd (omega (arith, h))

smear2 : Smears 2 (λ x. x)
smear2 x = (refl, bit-nonzero (x % 2) (omega arith))

smear4 : Smears 4 (widen 2 (λ x. x))
smear4 =
    widen-Smears (λ x. x) 2 smear2 (λ x. refl)
      (λ x.
        nonzero-max (x % 2) (x / 2 % 2) (x % 4)
          ((λ e. (omega (arith, e), omega (arith, e))), λ e. omega (arith, e)))
      (λ x. omega arith)

shift4 : (f : ℕ → ℕ) (w : ℕ) → Smears w f → Shifts 4 f
shift4 f w h = shift_square f 2 (λ x. omega arith) (λ x. (h x).0)

shift16 : (f : ℕ → ℕ) (w : ℕ) → Smears w f → Shifts 16 f
shift16 f w h = shift_square f 4 (λ x. omega arith) (shift4 f w h)

shift256 : (f : ℕ → ℕ) (w : ℕ) → Smears w f → Shifts 256 f
shift256 f w h = shift_square f 16 (λ x. omega arith) (shift16 f w h)

shift65536 : (f : ℕ → ℕ) (w : ℕ) → Smears w f → Shifts 65536 f
shift65536 f w h = shift_square f 256 (λ x. omega arith) (shift256 f w h)

smear16 : Smears 16 (widen 4 (widen 2 (λ x. x)))
smear16 =
    widen-Smears (widen 2 (λ x. x)) 4 smear4 (shift4 (widen 2 (λ x. x)) 4 smear4)
      (λ x.
        nonzero-max (x % 4) (x / 4 % 4) (x % 16)
          ((λ e. (omega (arith, e), omega (arith, e))), λ e. omega (arith, e)))
      (λ x. omega arith)

smear256 : Smears 256 (widen 16 (widen 4 (widen 2 (λ x. x))))
smear256 =
    widen-Smears (widen 4 (widen 2 (λ x. x))) 16 smear16
      (shift16 (widen 4 (widen 2 (λ x. x))) 16 smear16)
      (λ x.
        nonzero-max (x % 16) (x / 16 % 16) (x % 256)
          ((λ e. (omega (arith, e), omega (arith, e))), λ e. omega (arith, e)))
      (λ x. omega arith)

smear65536 : Smears 65536 (widen 256 (widen 16 (widen 4 (widen 2 (λ x. x)))))
smear65536 =
    let f = widen 16 (widen 4 (widen 2 (λ x. x))) in
    widen-Smears f 256 smear256 (shift256 f 256 smear256)
      (λ x.
        nonzero-max (x % 256) (x / 256 % 256) (x % 65536)
          ((λ e. (omega (arith, e), omega (arith, e))), λ e. omega (arith, e)))
      (λ x. omega arith)

-- The function that the five assignments compute.
abbrev pub smear : ℕ → ℕ
smear x = widen 65536 (widen 256 (widen 16 (widen 4 (widen 2 (λ y. y))))) x

pub smear-Smears : Smears (2 ^ 32) smear
smear-Smears =
    let f = widen 256 (widen 16 (widen 4 (widen 2 (λ x. x)))) in
    widen-Smears f 65536 smear65536 (shift65536 f 65536 smear65536)
      (λ x.
        nonzero-max (x % 65536) (x / 65536 % 65536) (x % 2 ^ 32)
          ((λ e. (omega (arith, e), omega (arith, e))), λ e. omega (arith, e)))
      (λ x. omega arith)
