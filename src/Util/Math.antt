-- ===== src/Util/Math.antt =====
-- cpp_lib/util/math/math.cc.
pub mod Smear
pub mod PowerOfTwo
pub mod Digits
use Prim.Native.Nat.{bit_or}
use cpp_lib.Prelude.{
  ℕ, zero, suc, ◌+◌, ◌-◌, ◌/◌, ◌%◌, ◌^◌, Option, none, some, ltb, ◌==◌, if◌then◌else◌,
}

unfoldable pub upper_power_of_two : ℕ → ℕ
upper_power_of_two v =
    let v0 = (v + (2 ^ 32 - 1)) % 2 ^ 32 in
    let v1 = bit_or v0 (v0 / 2 ^ 1) in
    let v2 = bit_or v1 (v1 / 2 ^ 2) in
    let v3 = bit_or v2 (v2 / 2 ^ 4) in
    let v4 = bit_or v3 (v3 / 2 ^ 8) in let v5 = bit_or v4 (v4 / 2 ^ 16) in (v5 + 1) % 2 ^ 32

-- The conversion of an `int`, given by its 32 bits, to `uint64_t`.
abbrev pub sign_extend : ℕ → ℕ
sign_extend w = if ltb w (2 ^ 31) then w else w + (2 ^ 64 - 2 ^ 32)

-- `none` if the fuel runs out.
unfoldable pub digits10 : ℕ → ℕ → Option ℕ
digits10 zero v = none
digits10 (suc n) v =
    let next = v / 10 % 2 ^ 32 in
    let rest = digits10 n (sign_extend next) in
    if next == 0 then some 1 else elim rest [ none ↦ none | some d ↦ some (1 + d) ]
