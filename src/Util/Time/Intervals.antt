-- ===== src/Util/Time/Intervals.antt =====
-- The units of cpp_lib/util/time/time.cc: what the divisions one after the other come to.
use native.Mathlib.Nat.{zero-div, div-div-eq-div-mul}
use cpp_lib.Prelude.{ℕ, zero, suc, ◌+◌, ◌*◌, ◌/◌, ◌^◌, ◌≡◌, refl, ap, ◌∙◌, true, List, arith}
use cpp_lib.Serialize.Integers.{ℤ, pos, negsuc}
use cpp_lib.Serialize.Ranges.{fits, to_signed-fits}
use cpp_lib.Util.Time.{
  neg, div, ◌-ℤ◌, get_current_time_nanos, get_current_time_seconds, get_current_time_minutes,
  get_current_time_hours, get_interval_min, get_interval_hour, get_interval_day, Fields, Tm,
  get_current_time_from_field,
}

div-neg : (n d : ℕ) → div (neg n) d ≡ neg (n / d)
unfolding div
div-neg zero d = rw (zero-div d) refl
div-neg (suc n) d = ap (λ k. neg (k / d)) (omega arith)

-- Division by one constant after the other is division by their product, also below 0.
pub div-div : (z : ℤ) (a b : ℕ) → div (div z a) b ≡ div z (a * b)
unfolding div
div-div (pos n) a b = ap pos (div-div-eq-div-mul n a b)
div-div (negsuc n) a b = div-neg ((n + 1) / a) b ∙ ap neg (div-div-eq-div-mul (n + 1) a b)

-- The clock in other units, whatever their number of divisions.
pub get_current_time-div :
    (nanos : ℤ)
    → (get_current_time_minutes nanos ≡ div nanos (1000000000 * 60))
      × (get_current_time_hours nanos ≡ div nanos (1000000000 * 3600))
unfolding get_current_time_minutes get_current_time_hours get_current_time_seconds
    get_current_time_nanos
get_current_time-div nanos = (
  div-div nanos 1000000000 60,
  div-div (div nanos 1000000000) 60 60 ∙ div-div nanos 1000000000 3600,
)

pub get_interval-div :
    (nanos timestamp : ℤ)
    → fits (2 ^ 31) (div (get_current_time_seconds nanos -ℤ timestamp) 60) ≡ true
    → (get_interval_min nanos timestamp ≡ div (get_current_time_seconds nanos -ℤ timestamp) 60)
      × (get_interval_hour nanos timestamp ≡ div (get_current_time_seconds nanos -ℤ timestamp) 3600)
      × (get_interval_day nanos timestamp ≡ div (get_current_time_seconds nanos -ℤ timestamp) 86400)
unfolding get_interval_min get_interval_hour get_interval_day
get_interval-div nanos timestamp small =
    let i = get_current_time_seconds nanos -ℤ timestamp in
    let mins : get_interval_min nanos timestamp ≡ div i 60 =
      to_signed-fits (2 ^ 31) (div i 60) small in
    let hours : get_interval_hour nanos timestamp ≡ div i 3600 =
      ap (λ z. div z 60) mins ∙ div-div i 60 60 in
    (mins, hours, ap (λ z. div z 24) hours ∙ div-div i 3600 24)

-- A date and time as `mktime` documents it: the year counted from 1900, the month from 0.
abbrev pub documented : Fields → Tm
documented f = record {
  tm_year = f.year -ℤ pos 1900;
  tm_mon = f.month -ℤ pos 1;
  tm_mday = f.day;
  tm_hour = f.hour;
  tm_min = f.minute;
  tm_sec = f.second;
  tm_isdst = pos 0;
}

sub-sub : (z : ℤ) → z -ℤ pos 1990 ≡ (z -ℤ pos 90) -ℤ pos 1900
sub-sub (pos n) = ground arith
sub-sub (negsuc n) = ap negsuc (omega arith)

-- What `GetCurrentTimeFromField` returns is the time of the date 90 years before the one in the
-- text.
pub get_current_time_from_field-early :
    (sscanf : List ℕ → Fields → Fields) (mktime : Tm → ℤ) (uninitialised : Fields) (text : List ℕ)
    → get_current_time_from_field sscanf mktime uninitialised text
      ≡ mktime (
          documented (record (sscanf text uninitialised) {
            year = (sscanf text uninitialised).year -ℤ pos 90;
          }))
unfolding get_current_time_from_field
get_current_time_from_field-early sscanf mktime uninitialised text =
    let f = sscanf text uninitialised in
    ap (λ y. mktime (record (documented f) { tm_year = y })) (sub-sub f.year)
