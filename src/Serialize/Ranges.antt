-- ===== src/Serialize/Ranges.antt =====
-- Which numbers the integer overloads of `Parse` accept, and what they store.
use native.Mathlib.Nat.{mod-eq_of_lt}
use cpp_lib.Prelude.{
  ℕ, ◌+◌, ◌-◌, ◌%◌, ◌^◌, ◌<◌, ◌≡◌, refl, Bool, true, false, not, ◌||◌, Bool-cases, inl, inr, ltb,
  ltb→lt, lt→ltb, le→ltb, ap, if◌then◌else◌, arith,
}
use cpp_lib.Serialize.Integers.{ℤ, pos, negsuc, above, below, to_signed}
use cpp_lib.Serialize.Rapidjson.{Bytes, Rapidjson}
use cpp_lib.Serialize.Parse.{parse_int64, parse_uint64, parse_signed, parse_unsigned, parse_uint8}

-- The number lies in `[-half, half)`.
abbrev pub fits : ℕ → ℤ → Bool
fits half (pos n) = ltb n half
fits half (negsuc n) = ltb n half

small : (n half : ℕ) → n < half → n % (half + half) ≡ n
small n half h = mod-eq_of_lt (omega (arith, h))

-- A number that the narrower type has is kept by the cast.
pub to_signed-fits : (half : ℕ) (z : ℤ) → fits half z ≡ true → to_signed half z ≡ z
to_signed-fits half (pos n) h = rw (small n half (ltb→lt n half h), h) refl
to_signed-fits half (negsuc n) h =
    let p = ltb→lt n half h in
    let e = small n half p in
    rw (e, le→ltb (half + half - 1 - n) half (omega (arith, p))) (ap negsuc (omega (arith, p)))

in_range : (half : ℕ) (z : ℤ) → 0 < half → (above z (half - 1) || below z half) ≡ not (fits half z)
in_range half (pos n) h = ground arith
in_range half (negsuc n) h = ground arith

-- Where the 64-bit overload reads `z` and `half` is positive, a narrower signed overload accepts
-- it exactly if it lies in `[-half, half)`, and then stores `z` itself; otherwise the variable
-- stays.
pub parse_signed-fits :
    (R : Rapidjson) (half : ℕ) (json : R.Value) (name : Bytes) (v z : ℤ)
    → 0 < half
    → parse_int64 R json name (pos 0) ≡ (true, z)
    → parse_signed R half json name v ≡ (if fits half z then (true, z) else (false, v))
unfolding parse_signed
parse_signed-fits R half json name v z h e =
    rw (e, in_range half z h)
      (elim (Bool-cases (fits half z)) [
        | inl y ↦ rw y (ap (λ t. (true, t)) (to_signed-fits half z y))
        | inr n ↦ rw n refl
      ])

-- Where the 64-bit overload reads `n`, an unsigned overload of `m` values accepts it exactly if
-- it is below `m`, and then stores `n` itself; otherwise the variable stays.
pub parse_unsigned-fits :
    (R : Rapidjson) (m : ℕ) (json : R.Value) (name : Bytes) (v n : ℕ)
    → 0 < m
    → parse_uint64 R json name 0 ≡ (true, n)
    → parse_unsigned R m json name v ≡ (if ltb n m then (true, n) else (false, v))
unfolding parse_unsigned
parse_unsigned-fits R m json name v n h e = rw e (elim (Bool-cases (ltb n m)) [
  | inl lt ↦
      rw (lt, le→ltb (m - 1) n (omega (arith, ltb→lt n m lt)), mod-eq_of_lt (ltb→lt n m lt)) refl
  | inr ge ↦ rw (ge, lt→ltb (m - 1) n (ground arith)) refl
])

-- Where the signed 64-bit overload reads the negative number `-(n + 1)`, the overload on
-- `uint8_t` accepts it, and stores the byte that it wraps to.
pub parse_uint8-negative :
    (R : Rapidjson) (json : R.Value) (name : Bytes) (v n : ℕ)
    → parse_int64 R json name (pos 0) ≡ (true, negsuc n)
    → parse_uint8 R json name v ≡ (true, 2 ^ 8 - 1 - n % 2 ^ 8)
unfolding parse_uint8
parse_uint8-negative R json name v n e = rw e refl
