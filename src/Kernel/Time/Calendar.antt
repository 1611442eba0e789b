-- ===== src/Kernel/Time/Calendar.antt =====
-- The calendar itself, to compare with: the lengths of years and months.
use onix.Base.{
  ℕ, zero, suc, ◌+◌, ◌-◌, ◌%◌, Bool, true, false, not, List, [], ◌∷◌, ◌==◌, ltb, ◌&&◌, ◌||◌,
  if◌then◌else◌,
}

-- The rule for leap years, on the full number of the year.
unfoldable pub is_leap : ℕ → Bool
is_leap y = (y % 4 == 0 && not (y % 100 == 0)) || (y % 400 == 0)

unfoldable pub month_lengths : Bool → List ℕ
month_lengths leap =
    31 ∷ (if leap then 29 else 28) ∷ 31 ∷ 30 ∷ 31 ∷ 30 ∷ 31 ∷ 31 ∷ 30 ∷ 31 ∷ 30 ∷ 31 ∷ []

-- The days of the first `n` months.
unfoldable pub days_of : ℕ → List ℕ → ℕ
days_of zero ms = 0
days_of (suc n) [] = 0
days_of (suc n) (m ∷ ms) = m + days_of n ms

-- The month, from `mon` on, and its day for a day of the year that counts from 0.
unfoldable pub date_from : ℕ → List ℕ → ℕ → ℕ × ℕ
date_from mon [] yday = (mon, yday)
date_from mon (m ∷ ms) yday = elim (ltb yday m) [
  | true ↦ (mon, yday + 1)
  | false ↦ date_from (mon + 1) ms (yday - m)
]

unfoldable pub date : Bool → ℕ → ℕ × ℕ
unfolding month_lengths date_from
date leap yday = date_from 1 (month_lengths leap) yday

-- The days from the first of January 1970 to that of the year `n` years later.
unfoldable pub days_since_1970 : ℕ → ℕ
unfolding is_leap
days_since_1970 zero = 0
days_since_1970 (suc n) = (if is_leap (1970 + n) then 366 else 365) + days_since_1970 n
