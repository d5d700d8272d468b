-- ===== src/Tests/Numbers.antt =====
-- The theorems on cpp_lib/util/math and cpp_lib/util/time at concrete inputs.
use cpp_lib.Prelude.{ℕ, suc, ◌%◌, ◌^◌, ◌≤◌, ◌<◌, ◌≡◌, refl, true, ◌⊎◌, some, arith}
use cpp_lib.Serialize.Integers.{pos}
use cpp_lib.Serialize.Ranges.{fits}
use cpp_lib.Util.Time.{
  div, ◌-ℤ◌, get_current_time_nanos, get_current_time_seconds, get_interval_min, get_interval_hour,
  get_interval_day,
}
use cpp_lib.Util.Time.Intervals.{get_interval-div}
use cpp_lib.Util.Math.{upper_power_of_two, digits10}
use cpp_lib.Util.Math.PowerOfTwo.{double, upper_power_of_two-double}
use cpp_lib.Util.Math.Digits.{digits10_lem}

upper_power_of_two-double_example : upper_power_of_two 5 ≡ double 32 1 5 % 2 ^ 32
upper_power_of_two-double_example = upper_power_of_two-double 5 (omega arith) (omega arith)

digits10_lem_example :
    (d : ℕ) × (digits10 11 4096 ≡ some (suc d)) × (4096 < 10 ^ suc d) × ((d ≡ 0) ⊎ (10 ^ d ≤ 4096))
digits10_lem_example = digits10_lem 11 4096 (omega arith) (omega arith) (omega arith)

-- 200000 seconds after 1970, and a timestamp of 100 seconds.
in_range : fits (2 ^ 31) (div (get_current_time_seconds (pos 200000000000000) -ℤ pos 100) 60) ≡ true
unfolding get_current_time_seconds get_current_time_nanos div
in_range = refl

get_interval-div_example :
    (get_interval_min (pos 200000000000000) (pos 100)
      ≡ div (get_current_time_seconds (pos 200000000000000) -ℤ pos 100) 60)
    × (get_interval_hour (pos 200000000000000) (pos 100)
        ≡ div (get_current_time_seconds (pos 200000000000000) -ℤ pos 100) 3600)
    × (get_interval_day (pos 200000000000000) (pos 100)
        ≡ div (get_current_time_seconds (pos 200000000000000) -ℤ pos 100) 86400)
get_interval-div_example = get_interval-div (pos 200000000000000) (pos 100) in_range
