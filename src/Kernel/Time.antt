-- ===== src/Kernel/Time.antt =====
-- src/kernel/time.c: calendar dates and seconds since 1970. (src/lib/time.c holds the same
-- functions up to `localtime` once more, for user programs.)
pub mod Calendar
pub mod Stamp
pub mod Local
mod Tests
use onix.Base.{
  ℕ, zero, suc, ◌+◌, ◌-◌, ◌*◌, ◌/◌, ◌%◌, ◌^◌, Bool, true, false, not, Option, none, some, List, [],
  ◌∷◌, get_or, ◌==◌, ltb, leb, if◌then◌else◌, ◌&&◌, ◌||◌,
}
use onix.Base.Int.{ℤ, pos, negsuc, sub_ℕ, leb_ℤ}
use onix.Libc.Number.{bcd_to_bin}

-- `tm`. A year counts from 1900 and a month from 1; all fields but the last are never negative here.
pub record Tm : Type 0 where
  pub sec : ℕ
  pub min : ℕ
  pub hour : ℕ
  pub mday : ℕ
  pub mon : ℕ
  pub year : ℕ
  pub wday : ℕ
  pub yday : ℕ
  pub isdst : ℤ

-- `MINUTE`, `HOUR`, `DAY`, `YEAR`
abbrev pub minute : ℕ
minute = 60

abbrev pub hour : ℕ
hour = 60 * minute

abbrev pub day : ℕ
day = 24 * hour

abbrev pub year : ℕ
year = 365 * day

-- `month`: the days of a leap year before each month, from month 1 on.
abbrev pub month : List ℕ
month = 0 ∷ 0 ∷ 31 ∷ 60 ∷ 91 ∷ 121 ∷ 152 ∷ 182 ∷ 213 ∷ 244 ∷ 274 ∷ 305 ∷ 335 ∷ []

-- `elapsed_leap_years`, for the years from 70 on, where no difference falls below 0.
pub elapsed_leap_years : ℕ → ℕ
elapsed_leap_years year = (year - 1) / 4 - (year - 1) / 100 + (year + 299) / 400 - 17

-- `is_leap_year`
pub is_leap_year : ℕ → Bool
is_leap_year year = (year % 4 == 0 && not (year % 100 == 0)) || ((year + 1900) % 400 == 0)

-- The loop of `localtime` over the months from `mon` on, which recurs on the months left.
pub find_mon : ℕ → ℕ → ℕ → ℕ → ℕ
find_mon zero mon offset yday = mon
find_mon (suc left) mon offset yday = elim (leb_ℤ (sub_ℕ (get_or month mon 0) offset) (pos yday)) [
  | true ↦ find_mon left (mon + 1) offset yday
  | false ↦ mon
]

-- `offset` of `localtime`
pub leap_offset : ℕ → ℕ
leap_offset years = if is_leap_year years then 0 else 1

-- `tm_mon` and `tm_mday` of `localtime`, from the day of the year and `offset`.
pub date_of : ℕ → ℕ → ℕ × ℕ
date_of yday offset =
    let mon = find_mon 12 1 offset yday - 1 in
    (mon, yday + 2 ^ 32 - get_or month mon 0 + offset + 1)

-- `localtime`; it leaves `tm_isdst` as it was.
pub localtime : ℕ → Tm → Tm
localtime stamp time =
    let days = stamp / 60 / 60 / 24 in
    let years = days / 365 + 70 in
    let offset = leap_offset years in
    let yday = (days + 2 ^ 32 - elapsed_leap_years years) % 2 ^ 32 % (366 - offset) in
    let date = date_of yday offset in
    record {
      sec = stamp % 60;
      min = stamp / 60 % 60;
      hour = stamp / 60 / 60 % 24;
      mday = date.1 % 2 ^ 32;
      mon = date.0;
      year = years;
      wday = (days + 4) % 2 ^ 32 % 7;
      yday = yday;
      isdst = time.isdst;
    }

-- `year` of `mktime` and `get_yday`: the years since 1970; a year below 70 is one of the next
-- century.
pub since_1970 : ℕ → ℕ
since_1970 y = if leb 70 y then y - 70 else y + 100 - 70

-- `mktime`, at 32 bits; a month lies in the table, and a day of the month is not 0. Its products are
-- `int`s, which overflow from the year 2039 on; they wrap around here.
pub mktime : Tm → ℕ
mktime time =
    let y = since_1970 time.year in
    let past = year * y + day * ((y + 1) / 4) + get_or month time.mon 0 * day in
    let short = ltb 2 time.mon && not ((y + 2) % 4 == 0) in
    let months = if short then past - day else past in
    (months + day * (time.mday - 1) + hour * time.hour + minute * time.min + time.sec) % 2 ^ 32

-- `get_yday`
pub get_yday : Tm → ℕ
get_yday time =
    let res = get_or month time.mon 0 + time.mday in
    if not ((since_1970 time.year + 2) % 4 == 0) && ltb 2 time.mon then res - 1 else res

-- `time_read`, on the codes that `time_read_bcd` has read from the clock chip: the time, and
-- `century`.
pub time_read : Tm → ℕ → Tm × ℕ
time_read raw century =
    let time : Tm = record {
      sec = bcd_to_bin raw.sec;
      min = bcd_to_bin raw.min;
      hour = bcd_to_bin raw.hour;
      mday = bcd_to_bin raw.mday;
      mon = bcd_to_bin raw.mon;
      year = bcd_to_bin raw.year;
      wday = bcd_to_bin raw.wday;
      yday = raw.yday;
      isdst = raw.isdst;
    } in
    (record time { yday = get_yday time; isdst = negsuc 0 }, bcd_to_bin century)
