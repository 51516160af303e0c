-- ===== src/Core/Time/Sunday.antt =====
-- The Sundays of aquaOneCore/src/Time/EuropeWarsawTimeService.cpp against the count of days: 1 January of the
-- year 1 was a Monday.
use aqua_one.Base.{ℕ, zero, suc, ◌+◌, ◌%◌, ◌≤◌, ◌<◌, ◌≡◌, refl, ◌∙◌, subst, if◌then◌else◌, arith}
use aqua_one.Core.Time.{is_leap_year, days_in_month, zeller, day_of_week, last_sunday}
use aqua_one.Core.Time.Weekday.{last_sunday_lem, days_in_month-bounds}
use aqua_one.Core.Time.Calendar.{days_before_year, days_before_month}

-- The number of a day, of a year, a month and a day.
abbrev pub number : ℕ → ℕ → ℕ → ℕ
number y m d = days_before_year y + days_before_month y m + d

-- The last Sunday of a month.
pub record IsLastSunday (y m d : ℕ) : Type 0 where
  pub sunday : number y m d % 7 ≡ 2
  pub in_month : d ≤ days_in_month y m
  pub last : days_in_month y m < d + 7

year_step :
    (y : ℕ)
    → 1 ≤ y
    → y < 65535
    → day_of_week (y + 1) 1 1 ≡ (day_of_week y 1 1 + (if is_leap_year y then 366 else 365)) % 7
unfolding day_of_week zeller
year_step y l h = ground arith

march_weekday :
    (y d : ℕ)
    → 1 ≤ y
    → y < 65536
    → 1 ≤ d
    → day_of_week y 3 d ≡ (day_of_week y 1 1 + days_before_month y 3 + d + 6) % 7
unfolding day_of_week zeller days_before_month days_in_month
march_weekday y d l h b = ground arith

october_weekday :
    (y d : ℕ)
    → 1 ≤ y
    → y < 65536
    → 1 ≤ d
    → day_of_week y 10 d ≡ (day_of_week y 1 1 + days_before_month y 10 + d + 6) % 7
unfolding day_of_week zeller days_before_month days_in_month
october_weekday y d l h b = ground arith

next_number : (a b c : ℕ) → a ≡ (b + 6) % 7 → (a + c) % 7 ≡ (b + c + 6) % 7
next_number a b c h = omega arith

new_year_weekday : (y : ℕ) → 1 ≤ y → y < 65536 → day_of_week y 1 1 ≡ (days_before_year y + 6) % 7
new_year_weekday zero l h = absurd (omega arith)
new_year_weekday (suc zero) l h = unfold day_of_week zeller in refl
new_year_weekday (suc (suc y)) l h =
    subst (λ n. day_of_week n 1 1 ≡ (days_before_year (suc (suc y)) + 6) % 7) (after (suc y))
      (year_step (suc y) (omega arith) (omega arith)
        ∙ next_number (day_of_week (suc y) 1 1) (days_before_year (suc y))
            (if is_leap_year (suc y) then 366 else 365)
            (new_year_weekday (suc y) (omega arith) (omega arith)))
  where
    after : (n : ℕ) → n + 1 ≡ suc n
    after n = omega arith

-- A weekday that is 0 by the code is a Sunday by the count of days.
zero_is_sunday :
    (a b c d w : ℕ) → a ≡ (b + 6) % 7 → w ≡ (a + c + d + 6) % 7 → w ≡ 0 → (b + c + d) % 7 ≡ 2
zero_is_sunday a b c d w h e z = omega arith

-- lastSunday is the last Sunday of March and of October, by the count of days.
pub last_sunday-march : (y : ℕ) → 1 ≤ y → y < 65536 → IsLastSunday y 3 (last_sunday y 3)
last_sunday-march y l h =
    let (w, i, j) = last_sunday_lem y 3 (omega arith) (omega arith) in
    let b = days_in_month-bounds y 3 (omega arith) (omega arith) in
    record {
      sunday =
          zero_is_sunday (day_of_week y 1 1) (days_before_year y) (days_before_month y 3)
            (last_sunday y 3) _ (new_year_weekday y l h)
            (march_weekday y (last_sunday y 3) l h (omega arith)) w;
      in_month = i;
      last = j;
    }

pub last_sunday-october : (y : ℕ) → 1 ≤ y → y < 65536 → IsLastSunday y 10 (last_sunday y 10)
last_sunday-october y l h =
    let (w, i, j) = last_sunday_lem y 10 (omega arith) (omega arith) in
    let b = days_in_month-bounds y 10 (omega arith) (omega arith) in
    record {
      sunday =
          zero_is_sunday (day_of_week y 1 1) (days_before_year y) (days_before_month y 10)
            (last_sunday y 10) _ (new_year_weekday y l h)
            (october_weekday y (last_sunday y 10) l h (omega arith)) w;
      in_month = i;
      last = j;
    }

-- There is one last Sunday of a month.
pub IsLastSunday-unique : (y m a b : ℕ) → IsLastSunday y m a → IsLastSunday y m b → a ≡ b
IsLastSunday-unique y m a b x z =
    same_day (days_before_year y + days_before_month y m) (days_in_month y m) a b x.sunday z.sunday
      x.in_month x.last z.in_month z.last
  where
    same_day :
        (n k a b : ℕ)
        → (n + a) % 7 ≡ 2
        → (n + b) % 7 ≡ 2
        → a ≤ k
        → k < a + 7
        → b ≤ k
        → k < b + 7
        → a ≡ b
    same_day n k a b s t i j u v = omega arith
