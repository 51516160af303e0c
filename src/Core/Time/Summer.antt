-- ===== src/Core/Time/Summer.antt =====
-- The summer time of aquaOneCore/src/Time/EuropeWarsawTimeService.cpp, as an interval of the year.
use aqua_one.Base.{
  ℕ, zero, suc, ◌+◌, ◌*◌, ◌≤◌, ◌<◌, ◌≡◌, ap, subst, Bool, true, false, ltb, leb, ◌==◌,
  if◌then◌else◌, arith, Bool-cases, inl, inr, leb→le, ◌&&◌, ◌↔◌,
}
use aqua_one.Core.Time.{LocalTime, days_in_month, last_sunday, is_dst}
use aqua_one.Core.Time.Weekday.{days_in_month-bounds, last_sunday_lem}
use aqua_one.Core.Time.Calendar.{days_before_year, days_before_month, months_suc, day_number}
use aqua_one.Core.Time.Sunday.{
  IsLastSunday, last_sunday-march, last_sunday-october, IsLastSunday-unique,
}
use aqua_one.Core.Time.Warsaw.{IsTime, minute_number}

le_refl : (n : ℕ) → n ≤ n
le_refl n = omega arith

same_days : (y : ℕ) {m n : ℕ} → m ≡ n → days_before_month y m ≤ days_before_month y n
same_days y {m = m} e =
    subst (λ j. days_before_month y m ≤ days_before_month y j) e (le_refl (days_before_month y m))

is_last : (m n : ℕ) → m ≤ suc n → leb m n ≡ false → m ≡ suc n
is_last m n h g = ground arith

months_mono : (y m n : ℕ) → m ≤ n → days_before_month y m ≤ days_before_month y n
unfolding days_before_month
months_mono y m zero h = same_days y {n = 0} (omega arith)
months_mono y m (suc n) h = elim (Bool-cases (leb m n)) [
  | inl le ↦ omega (arith, months_mono y m n (leb→le m n le))
  | inr gt ↦ same_days y (is_last m n h gt)
]

-- A month ends before a later one begins.
months_apart :
    (y a b : ℕ) → a < b → days_before_month y a + days_in_month y a ≤ days_before_month y b
months_apart y a b h = omega (arith, months_suc y a, months_mono y (a + 1) b (omega arith))

-- is_dst on the numbers that it compares.
abbrev summer : (month day hour march october : ℕ) → Bool
summer month day hour march october =
    if ltb month 3
    then false
    else if ltb 10 month
    then false
    else if ltb 3 month && ltb month 10
    then true
    else if month == 3
    then (if ltb march day then true else if ltb day march then false else leb 1 hour)
    else if ltb day october
    then true
    else if ltb october day
    then false
    else ltb hour 1

-- The comparison in numbers: `before` counts the days before a month, and the months are apart.
summer_iff :
    (month day hour minute march october now_before march_before october_before : ℕ)
    → 1 ≤ day
    → hour < 24
    → minute < 60
    → 1 ≤ march
    → (month < 3 → now_before + day ≤ march_before)
    → (3 < month → march_before + march ≤ now_before)
    → (month < 10 → now_before + day ≤ october_before)
    → (10 < month → october_before + october ≤ now_before)
    → (month ≡ 3 → now_before ≡ march_before)
    → (month ≡ 10 → now_before ≡ october_before)
    → 1 ≤ october
    → (summer month day hour march october ≡ true)
      ↔ ((march_before + march) * 1440 + 1 * 60 + 0
          ≤ (now_before + day) * 1440 + hour * 60 + minute)
        × ((now_before + day) * 1440 + hour * 60 + minute
            < (october_before + october) * 1440 + 1 * 60 + 0)
summer_iff month day hour minute march october n m o dl hl ml sl a b c d e f g = ground arith

-- From 1:00 UTC on a day of March until before 1:00 UTC on a day of October of the same year.
abbrev pub InSummer : LocalTime → ℕ → ℕ → Type 0
InSummer utc march october =
    (minute_number (record utc { month = 3; day = march; hour = 1; minute = 0 })
      ≤ minute_number utc)
    × (minute_number utc
        < minute_number (record utc { month = 10; day = october; hour = 1; minute = 0 }))

by_last_sunday :
    (utc : LocalTime)
    → IsTime utc
    → (is_dst utc ≡ true) ↔ InSummer utc (last_sunday utc.year 3) (last_sunday utc.year 10)
unfolding is_dst day_number
by_last_sunday utc x =
    let y = utc.year in
    let d = x.date in
    let march = last_sunday_lem y 3 (omega arith) (omega arith) in
    let october = last_sunday_lem y 10 (omega arith) (omega arith) in
    let march_days = days_in_month-bounds y 3 (omega arith) (omega arith) in
    let october_days = days_in_month-bounds y 10 (omega arith) (omega arith) in
    summer_iff utc.month utc.day utc.hour utc.minute (last_sunday y 3) (last_sunday y 10)
      (days_before_year y + days_before_month y utc.month)
      (days_before_year y + days_before_month y 3) (days_before_year y + days_before_month y 10)
      d.day_low x.hour_fits x.minute_fits (omega arith)
      (λ h. omega (arith, months_apart y utc.month 3 h, d.day_high))
      (λ h. omega (arith, months_apart y 3 utc.month h))
      (λ h. omega (arith, months_apart y utc.month 10 h, d.day_high))
      (λ h. omega (arith, months_apart y 10 utc.month h))
      (λ h. ap (λ m. days_before_year y + days_before_month y m) h)
      (λ h. ap (λ m. days_before_year y + days_before_month y m) h) (omega arith)

-- By is_dst, summer time is from 1:00 UTC on the last Sunday of March until before 1:00 UTC on the last
-- Sunday of October of the same year, which is from 1 to 65535. Which day is a Sunday is by the count of
-- days, of which 1 January of the year 1 is a Monday.
pub is_dst_iff :
    (utc : LocalTime) (march october : ℕ)
    → IsTime utc
    → utc.year < 65536
    → IsLastSunday utc.year 3 march
    → IsLastSunday utc.year 10 october
    → (is_dst utc ≡ true) ↔ InSummer utc march october
is_dst_iff utc march october x l m o =
    let y = utc.year in
    let low = x.date.year_low in
    let e = IsLastSunday-unique y 3 _ march (last_sunday-march y low l) m in
    let g = IsLastSunday-unique y 10 _ october (last_sunday-october y low l) o in
    subst (λ d. (is_dst utc ≡ true) ↔ InSummer utc d october) e
      (subst (λ d. (is_dst utc ≡ true) ↔ InSummer utc (last_sunday y 3) d) g (by_last_sunday utc x))
