-- ===== src/Util/Time.antt =====
-- cpp_lib/util/time/time.cc. The clock, `sscanf` and `mktime` are other libraries': `nanos` is
-- what `absl::GetCurrentTimeNanos` returns during a call.
pub mod Intervals
use cpp_lib.Prelude.{ℕ, zero, suc, ◌+◌, ◌-◌, ◌*◌, ◌/◌, ◌^◌, List, leb, if◌then◌else◌}
use cpp_lib.Serialize.Integers.{ℤ, pos, negsuc, to_signed}

-- `-n`
abbrev pub neg : ℕ → ℤ
neg zero = pos 0
neg (suc n) = negsuc n

-- C++'s division by a positive constant, which rounds towards 0.
unfoldable pub div : ℤ → ℕ → ℤ
div (pos n) d = pos (n / d)
div (negsuc n) d = neg ((n + 1) / d)

-- `a - b`
abbrev pub sub_ℕ : ℕ → ℕ → ℤ
sub_ℕ a b = if leb b a then pos (a - b) else negsuc (b - a - 1)

infixl 65 ◌-ℤ◌
abbrev pub ◌-ℤ◌ : ℤ → ℤ → ℤ
pos a -ℤ pos b = sub_ℕ a b
pos a -ℤ negsuc b = pos (a + b + 1)
negsuc a -ℤ pos b = negsuc (a + b)
negsuc a -ℤ negsuc b = sub_ℕ b a

module _ (nanos : ℤ) where
  unfoldable pub get_current_time_nanos : ℤ
  get_current_time_nanos = nanos

  unfoldable pub get_current_time_micros : ℤ
  get_current_time_micros = div get_current_time_nanos 1000

  unfoldable pub get_current_time_millis : ℤ
  get_current_time_millis = div get_current_time_nanos 1000000

  unfoldable pub get_current_time_seconds : ℤ
  get_current_time_seconds = div get_current_time_nanos 1000000000

  unfoldable pub get_current_time_minutes : ℤ
  get_current_time_minutes = div get_current_time_seconds 60

  unfoldable pub get_current_time_hours : ℤ
  get_current_time_hours = div get_current_time_minutes 60

  -- The cast of `int32_t interval_mins`; `cur_time - timestamp` does not overflow.
  unfoldable pub get_interval_min : ℤ → ℤ
  get_interval_min timestamp =
      let cur_time = get_current_time_seconds in
      let time_interval = cur_time -ℤ timestamp in to_signed (2 ^ 31) (div time_interval 60)

  unfoldable pub get_interval_hour : ℤ → ℤ
  get_interval_hour timestamp = div (get_interval_min timestamp) 60

  unfoldable pub get_interval_day : ℤ → ℤ
  get_interval_day timestamp = div (get_interval_hour timestamp) 24

-- The variables that `sscanf` writes.
pub record Fields : Type 0 where
  pub year : ℤ
  pub month : ℤ
  pub day : ℤ
  pub hour : ℤ
  pub minute : ℤ
  pub second : ℤ

-- The members of `struct tm` that `mktime` reads.
pub record Tm : Type 0 where
  pub tm_year : ℤ
  pub tm_mon : ℤ
  pub tm_mday : ℤ
  pub tm_hour : ℤ
  pub tm_min : ℤ
  pub tm_sec : ℤ
  pub tm_isdst : ℤ

-- `sscanf` with the format of the code leaves what it does not read.
unfoldable pub get_current_time_from_field :
    (List ℕ → Fields → Fields) → (Tm → ℤ) → Fields → List ℕ → ℤ
get_current_time_from_field sscanf mktime uninitialised time_field =
    let f = sscanf time_field uninitialised in
    mktime (record {
      tm_year = f.year -ℤ pos 1990;
      tm_mon = f.month -ℤ pos 1;
      tm_mday = f.day;
      tm_hour = f.hour;
      tm_min = f.minute;
      tm_sec = f.second;
      tm_isdst = pos 0;
    })
