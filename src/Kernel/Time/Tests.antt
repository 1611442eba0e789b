-- ===== src/Kernel/Time/Tests.antt =====
-- Runs of the functions of kernel/time.c, and the theorems at concrete dates.
use onix.Base.{ℕ, ◌+◌, ◌*◌, ◌<◌, ◌≡◌, refl, true, false, arith}
use onix.Base.Int.{pos}
use onix.Kernel.Time.{
  Tm, find_mon, date_of, leap_offset, is_leap_year, localtime, mktime, since_1970,
  elapsed_leap_years,
}
use onix.Kernel.Time.Calendar.{date}
use onix.Kernel.Time.Local.{localtime-date_early}

abbrev blank : Tm
blank = record {
  sec = 0;
  min = 0;
  hour = 0;
  mday = 0;
  mon = 0;
  year = 0;
  wday = 0;
  yday = 0;
  isdst = pos 0;
}

-- The last second of 1999.
abbrev eve : Tm
eve = record {
  sec = 59;
  min = 59;
  hour = 23;
  mday = 31;
  mon = 12;
  year = 99;
  wday = 5;
  yday = 365;
  isdst = pos 0;
}

eve_stamp : mktime eve ≡ 946684799
unfolding mktime since_1970
eve_stamp = refl

-- The tenth of April 1972.
abbrev spring : ℕ
spring = 86400 * 830

spring_month : (localtime spring blank).mon ≡ 4
unfolding localtime date_of find_mon leap_offset is_leap_year elapsed_leap_years
spring_month = refl

spring_leap : is_leap_year (localtime spring blank).year ≡ true
unfolding localtime is_leap_year
spring_leap = refl

-- An hour into 1970, which `localtime` takes for the second of January.
new_year : (localtime 3600 blank).mday ≡ 2
unfolding localtime date_of find_mon leap_offset is_leap_year elapsed_leap_years
new_year = refl

new_year_common : is_leap_year (localtime 3600 blank).year ≡ false
unfolding localtime is_leap_year
new_year_common = refl

new_year_early : (localtime 3600 blank).yday < 59
unfolding localtime leap_offset is_leap_year elapsed_leap_years
new_year_early = omega arith

localtime-date_early_example :
    ((localtime 3600 blank).mon ≡ (date true ((localtime 3600 blank).yday + 1)).0)
    × ((localtime 3600 blank).mday ≡ (date true ((localtime 3600 blank).yday + 1)).1)
    × ¬ (
        ((localtime 3600 blank).mon ≡ (date false (localtime 3600 blank).yday).0)
        × ((localtime 3600 blank).mday ≡ (date false (localtime 3600 blank).yday).1))
localtime-date_early_example = localtime-date_early 3600 blank new_year_common new_year_early
