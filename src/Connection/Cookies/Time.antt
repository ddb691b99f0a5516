-- ===== src/Connection/Cookies/Time.antt =====
-- ParseImfFixdate of src/connection/client/request_assembler.cc. `std::get_time` is
-- a parameter.
use bsrvcore.Base.{
  ℕ, ◌+◌, ◌-◌, ◌*◌, ◌/◌, ◌%◌, ◌^◌, Bytes, ◌==◌, leb, ltb, ◌&&◌, ◌||◌, not, if◌then◌else◌, Bool,
  Option, none, some,
}
use bsrvcore.Base.Clock.{epoch, wrap}

abbrev pub seconds : ℕ → ℕ
seconds n = n * 1000000000

-- The fields of `std::tm` that are read, none of which `std::get_time` makes negative, with the
-- year as it stands in the text.
pub record Tm : Type 0 where
  pub year : ℕ
  pub month : ℕ
  pub day : ℕ
  pub hour : ℕ
  pub minute : ℕ
  pub second : ℕ

abbrev pub is_leap : ℕ → Bool
is_leap y = (y % 4 == 0) && (not (y % 100 == 0) || y % 400 == 0)

abbrev pub last_day : ℕ → ℕ → ℕ
last_day y m =
    if m == 2
    then (if is_leap y then 29 else 28)
    else (if m == 4 || (m == 6 || (m == 9 || m == 11)) then 30 else 31)

-- `year_month_day::ok`.
abbrev pub is_date : Tm → Bool
is_date t =
    (leb 1 t.month && leb t.month 12) && (leb 1 t.day && leb t.day (last_day t.year t.month))

-- The 400 years before the year 0 are counted too, so that no day is negative.
abbrev pub days_from_march : ℕ → ℕ → ℕ → ℕ
days_from_march y m d = y * 365 + y / 4 - y / 100 + y / 400 + (153 * m + 2) / 5 + d - 1

abbrev pub days : Tm → ℕ
days t =
    if ltb 2 t.month
    then days_from_march (t.year + 400) (t.month - 3) t.day
    else days_from_march (t.year + 399) (t.month + 9) t.day

-- 865565 days before 1 January 1970 are the day 0 of `days`.
abbrev pub timestamp : Tm → ℕ
timestamp t = wrap (
    epoch
    + 5 * 2 ^ 64
    + seconds (days t * 86400 + t.hour * 3600 + t.minute * 60 + t.second)
    - seconds (865565 * 86400))

unfoldable pub checked_time : Tm → Option ℕ
checked_time t =
    if not (is_date t) || (ltb 23 t.hour || (ltb 59 t.minute || ltb 59 t.second))
    then none
    else some (timestamp t)

unfoldable pub parse_imf_fixdate : (Bytes → Option Tm) → Bytes → Option ℕ
unfolding checked_time
parse_imf_fixdate get_time v = elim (get_time v) [ none ↦ none | some t ↦ checked_time t ]
