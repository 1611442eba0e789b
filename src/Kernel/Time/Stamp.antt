-- ===== src/Kernel/Time/Stamp.antt =====
-- `mktime` beside the calendar.
use onix.Base.{ℕ, ◌+◌, ◌-◌, ◌*◌, ◌≤◌, ◌<◌, Bool, not, get_or, ◌==◌, ltb, if◌then◌else◌, ◌&&◌, ◌||◌}
use onix.Kernel.Time.{Tm, month, since_1970}
use onix.Kernel.Time.Calendar.{is_leap, month_lengths, days_of, days_since_1970}

-- The days of a year before month `mon` as `mktime` counts them.
abbrev before : ℕ → Bool → ℕ
before mon leap = if ltb 2 mon && not leap then get_or month mon 0 - 1 else get_or month mon 0

month_test : Bool → ℕ → Bool
month_test leap mon =
    ltb mon 1
    || (before mon leap == days_of (mon - 1) (month_lengths leap)
        && ltb (get_or month mon 0) 336
        && (ltb mon 3 || ltb 0 (get_or month mon 0)))

-- The seconds from the start of 1970 to a date and time, by the calendar.
unfoldable pub seconds_of : Tm → ℕ
unfolding is_leap month_lengths days_of days_since_1970
seconds_of t =
    let n = since_1970 t.year in
    86400
      * (days_since_1970 n
          + days_of (t.mon - 1) (month_lengths (is_leap (1970 + n)))
          + (t.mday - 1))
    + 3600 * t.hour
    + 60 * t.min
    + t.sec

-- A date and time with its fields in range, of the years 1970 to 2099.
pub record IsDate (t : Tm) : Type 0 where
  pub years : since_1970 t.year < 69
  pub months : (1 ≤ t.mon) × (t.mon ≤ 12)
  pub days : (1 ≤ t.mday) × (t.mday ≤ 31)
  pub hours : t.hour < 24
  pub minutes : t.min < 60
  pub seconds : t.sec < 60
