-- ===== src/Kernel/Time/Local.antt =====
-- `localtime` beside the calendar.
use onix.Base.{
  ℕ, ◌+◌, ◌-◌, ◌/◌, ◌%◌, ◌^◌, ◌≤◌, ◌<◌, ◌≡◌, ◌≢◌, ◌∙◌, ◌⊎◌, refl, sym, Bool, true, false, not, ◌==◌,
  ltb, ◌&&◌, ◌||◌, arith, Bool-cases, inl, inr,
}
use native.Mathlib.Nat.{mod-lt}
use onix.Base.Table.{all_below, all_below-at}
use onix.Kernel.Time.{Tm, find_mon, date_of, leap_offset, is_leap_year, localtime}
use onix.Kernel.Time.Calendar.{date}

same_date : ℕ × ℕ → ℕ × ℕ → Bool
same_date a b = a.0 == b.0 && a.1 == b.1

same_date-eq : (a b : ℕ × ℕ) → same_date a b ≡ true → (a.0 ≡ b.0) × (a.1 ≡ b.1)
unfolding same_date
same_date-eq a b h = ground arith

-- The date that the loop finds, cut to an `int`.
abbrev found : ℕ → ℕ → ℕ × ℕ
found yday offset = ((date_of yday offset).0, (date_of yday offset).1 % 2 ^ 32)

leap_table : all_below 366 (λ d. same_date (found d 0) (date true d)) ≡ true
unfolding all_below same_date date_of find_mon date
leap_table = refl

common_table : all_below 365 (λ d. same_date (found d 1) (date true (d + 1))) ≡ true
unfolding all_below same_date date_of find_mon date
common_table = refl

late_table : all_below 365 (λ d. ltb d 59 || same_date (date true (d + 1)) (date false d)) ≡ true
unfolding all_below same_date date
late_table = refl

early_table : all_below 59 (λ d. not (same_date (date true (d + 1)) (date false d))) ≡ true
unfolding all_below same_date date
early_table = refl

table_at :
    (n : ℕ) (f g : ℕ → ℕ × ℕ) (d : ℕ)
    → all_below n (λ d. same_date (f d) (g d)) ≡ true
    → d < n
    → ((f d).0 ≡ (g d).0) × ((f d).1 ≡ (g d).1)
table_at n f g d t h = same_date-eq (f d) (g d) (all_below-at n (λ d. same_date (f d) (g d)) d t h)

found-leap :
    (d : ℕ) → d < 366 → ((found d 0).0 ≡ (date true d).0) × ((found d 0).1 ≡ (date true d).1)
found-leap d h = table_at 366 (λ d. found d 0) (date true) d leap_table h

found-common :
    (d : ℕ)
    → d < 365
    → ((found d 1).0 ≡ (date true (d + 1)).0) × ((found d 1).1 ≡ (date true (d + 1)).1)
found-common d h = table_at 365 (λ d. found d 1) (λ d. date true (d + 1)) d common_table h

date-late :
    (d : ℕ)
    → d < 365
    → 59 ≤ d
    → ((date true (d + 1)).0 ≡ (date false d).0) × ((date true (d + 1)).1 ≡ (date false d).1)
date-late d h late = same_date-eq (date true (d + 1)) (date false d) (
    go (
      all_below-at 365 (λ d. ltb d 59 || same_date (date true (d + 1)) (date false d)) d late_table
        h))
  where
    go :
        (ltb d 59 || same_date (date true (d + 1)) (date false d)) ≡ true
        → same_date (date true (d + 1)) (date false d) ≡ true
    go e = ground arith

date-early :
    (d : ℕ)
    → d < 59
    → (date true (d + 1)).0 ≡ (date false d).0
    → (date true (d + 1)).1 ≢ (date false d).1
unfolding same_date
date-early d h =
    let e =
      all_below-at 59 (λ d. not (same_date (date true (d + 1)) (date false d))) d early_table h in
    ground arith

found-date :
    (y d : ℕ)
    → d < 366 - leap_offset y
    → (is_leap_year y ≡ true) ⊎ (59 ≤ d)
    → ((found d (leap_offset y)).0 ≡ (date (is_leap_year y) d).0)
      × ((found d (leap_offset y)).1 ≡ (date (is_leap_year y) d).1)
unfolding leap_offset
found-date y d h k = elim (Bool-cases (is_leap_year y)) [
  | inl leap ↦ rw leap (found-leap d (rw leap at h))
  | inr common ↦
      let inside : d < 365 = rw common at h in
      let late : 59 ≤ d = elim k [ inl leap ↦ cc | inr l ↦ l ] in
      let a = found-common d inside in
      let b = date-late d inside late in rw common (a.0 ∙ b.0, a.1 ∙ b.1)
]

found-early :
    (y d : ℕ)
    → is_leap_year y ≡ false
    → d < 59
    → ((found d (leap_offset y)).0 ≡ (date true (d + 1)).0)
      × ((found d (leap_offset y)).1 ≡ (date true (d + 1)).1)
unfolding leap_offset
found-early y d common h = rw common (found-common d (omega arith))

module _ (stamp : ℕ) (old : Tm) where
  yday-lt : (localtime stamp old).yday < 366 - leap_offset (localtime stamp old).year
  unfolding localtime leap_offset
  yday-lt = elim (Bool-cases (is_leap_year (stamp / 60 / 60 / 24 / 365 + 70))) [
    | inl leap ↦ rw leap (mod-lt _ (omega arith))
    | inr common ↦ rw common (mod-lt _ (omega arith))
  ]

  shown :
      ((localtime stamp old).mon
        ≡ (found (localtime stamp old).yday (leap_offset (localtime stamp old).year)).0)
      × ((localtime stamp old).mday
          ≡ (found (localtime stamp old).yday (leap_offset (localtime stamp old).year)).1)
  unfolding localtime
  shown = (refl, refl)

  -- In a leap year of `localtime`, and from the 60th day of its common years on, `tm_mon` and
  -- `tm_mday` are the calendar's month and day of `tm_yday`.
  pub localtime-date :
      (is_leap_year (localtime stamp old).year ≡ true) ⊎ (59 ≤ (localtime stamp old).yday)
      → ((localtime stamp old).mon
          ≡ (date (is_leap_year (localtime stamp old).year) (localtime stamp old).yday).0)
        × ((localtime stamp old).mday
            ≡ (date (is_leap_year (localtime stamp old).year) (localtime stamp old).yday).1)
  localtime-date h =
      let d = found-date (localtime stamp old).year (localtime stamp old).yday yday-lt h in
      (shown.0 ∙ d.0, shown.1 ∙ d.1)

  -- In January and February of a common year of `localtime` the date is one day late: `tm_mon` and
  -- `tm_mday` are those of the next day in a leap year, and not both those of the day.
  pub localtime-date_early :
      is_leap_year (localtime stamp old).year ≡ false
      → (localtime stamp old).yday < 59
      → ((localtime stamp old).mon ≡ (date true ((localtime stamp old).yday + 1)).0)
        × ((localtime stamp old).mday ≡ (date true ((localtime stamp old).yday + 1)).1)
        × ¬ (
            ((localtime stamp old).mon ≡ (date false (localtime stamp old).yday).0)
            × ((localtime stamp old).mday ≡ (date false (localtime stamp old).yday).1))
  localtime-date_early common h =
      let d = found-early (localtime stamp old).year (localtime stamp old).yday common h in
      (
        shown.0 ∙ d.0,
        shown.1 ∙ d.1,
        λ both.
            date-early (localtime stamp old).yday h (sym (shown.0 ∙ d.0) ∙ both.0)
              (sym (shown.1 ∙ d.1) ∙ both.1),
      )
