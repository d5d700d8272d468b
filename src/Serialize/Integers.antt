-- ===== src/Serialize/Integers.antt =====
-- The integers of cpp_lib/serialize/json.h, and C++'s conversions to a narrower type.
use cpp_lib.Prelude.{ℕ, ◌+◌, ◌-◌, ◌%◌, Bool, false, ltb, leb, if◌then◌else◌}

pub data ℤ : Type 0 where
  pos : ℕ → ℤ
  negsuc : ℕ → ℤ

-- `z > max`
abbrev pub above : ℤ → ℕ → Bool
above (pos n) max = ltb max n
above (negsuc n) max = false

-- `z < -half`
abbrev pub below : ℤ → ℕ → Bool
below (pos n) half = false
below (negsuc n) half = leb half n

-- The cast to the unsigned type of `m` values.
abbrev pub to_unsigned : ℕ → ℤ → ℕ
to_unsigned m (pos n) = n % m
to_unsigned m (negsuc n) = m - 1 - n % m

-- The cast to the signed type of `half + half` values, in two's complement.
abbrev pub to_signed : ℕ → ℤ → ℤ
to_signed half z =
    let u = to_unsigned (half + half) z in
    if ltb u half then pos u else negsuc (half + half - 1 - u)
