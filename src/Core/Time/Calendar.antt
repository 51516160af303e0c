-- ===== src/Core/Time/Calendar.antt =====
-- The turn to the next day in aquaOneCore/src/Time/EuropeWarsawTimeService.cpp against the calendar: a
-- count of days, and the days of the week.
use aqua_one.Base.{
  ℕ, zero, suc, ◌+◌, ◌%◌, ◌≤◌, ◌<◌, ◌≡◌, refl, sym, ◌∙◌, ap, subst, false, ltb, ltb→lt,
  if◌then◌else◌, Bool-cases, inl, inr, arith,
}
use aqua_one.Core.Time.{LocalTime, is_leap_year, days_in_month, day_of_week, next_day}
use aqua_one.Core.Time.Weekday.{
  IsMonth-of, days_in_month-bounds, next_in_month, next_month, next_year,
}

-- A date of the Gregorian calendar.
pub record IsDate (t : LocalTime) : Type 0 where
  pub month_low : 1 ≤ t.month
  pub month_high : t.month ≤ 12
  pub day_low : 1 ≤ t.day
  pub day_high : t.day ≤ days_in_month t.year t.month
  pub year_low : 1 ≤ t.year

-- The days of the years before one, and of the months of a year before one.
abbrev pub days_before_year : ℕ → ℕ
days_before_year zero = 0
days_before_year (suc y) = days_before_year y + (if is_leap_year y then 366 else 365)

unfoldable pub days_before_month : ℕ → ℕ → ℕ
days_before_month y zero = 0
days_before_month y (suc m) = days_before_month y m + days_in_month y m

-- The number of the day that a date is.
unfoldable pub day_number : LocalTime → ℕ
day_number t = days_before_year t.year + days_before_month t.year t.month + t.day

december : (y : ℕ) → days_before_month y 12 + 31 ≡ (if is_leap_year y then 366 else 365)
unfolding days_before_month days_in_month
december y = ground arith

-- The three ways in which next_day turns a date.
next_day-within :
    (t : LocalTime)
    → t.day < days_in_month t.year t.month
    → next_day t ≡ record t { day = t.day + 1 }
unfolding next_day
next_day-within t h = ground arith

next_day-month :
    (t : LocalTime)
    → t.day ≡ days_in_month t.year t.month
    → t.month < 12
    → next_day t ≡ record t { day = 1; month = t.month + 1 }
unfolding next_day
next_day-month t e h = ground arith

next_day-year :
    (t : LocalTime)
    → t.day ≡ days_in_month t.year t.month
    → t.month ≡ 12
    → next_day t ≡ record t { day = 1; month = 1; year = (t.year + 1) % 65536 }
unfolding next_day
next_day-year t e h = ground arith

is_last : (d n : ℕ) → d ≤ n → ltb d n ≡ false → d ≡ n
is_last d n l h = ground arith

-- A date is the day after another one.
pub record IsNext (t n : LocalTime) : Type 0 where
  pub date : IsDate n
  pub number : day_number n ≡ day_number t + 1
  pub weekday : day_of_week n.year n.month n.day ≡ (day_of_week t.year t.month t.day + 1) % 7
  pub second_kept : n.second ≡ t.second

after : (m : ℕ) → suc m ≡ m + 1
after m = omega arith

pub months_suc : (y m : ℕ) → days_before_month y (m + 1) ≡ days_before_month y m + days_in_month y m
unfolding days_before_month
months_suc y m =
    subst (λ n. days_before_month y n ≡ days_before_month y m + days_in_month y m) (after m) refl

weekday_by :
    (y m : ℕ) {d n v : ℕ}
    → d ≡ n
    → v ≡ (day_of_week y m n + 1) % 7
    → v ≡ (day_of_week y m d + 1) % 7
weekday_by y m {v = v} e h = subst (λ i. v ≡ (day_of_week y m i + 1) % 7) (sym e) h

wrapped : (y : ℕ) → y < 65535 → (y + 1) % 65536 ≡ suc y
wrapped y l = omega arith

first_month : (y : ℕ) → days_before_month y 1 ≡ 0
unfolding days_before_month days_in_month
first_month y = refl

december_days : (y : ℕ) → days_in_month y 12 ≡ 31
unfolding days_in_month
december_days y = ground arith

within-IsNext :
    (t : LocalTime)
    → IsDate t
    → t.day < days_in_month t.year t.month
    → IsNext t (record t { day = t.day + 1 })
unfolding day_number
within-IsNext t x h = record {
  date = record {
    month_low = x.month_low;
    month_high = x.month_high;
    day_low = omega arith;
    day_high = omega arith;
    year_low = x.year_low;
  };
  number = omega arith;
  weekday = next_in_month t.year t.month t.day;
  second_kept = refl;
}

month-IsNext :
    (t : LocalTime)
    → IsDate t
    → t.day ≡ days_in_month t.year t.month
    → t.month < 12
    → t.year < 65535
    → IsNext t (record t { day = 1; month = t.month + 1 })
unfolding day_number
month-IsNext t x e h l =
    let b = days_in_month-bounds t.year (t.month + 1) (omega arith) (omega arith) in
    record {
      date = record {
        month_low = omega arith;
        month_high = omega arith;
        day_low = omega arith;
        day_high = omega arith;
        year_low = x.year_low;
      };
      number = omega (arith, months_suc t.year t.month);
      weekday =
          weekday_by t.year t.month e
            (next_month t.year (IsMonth-of t.month x.month_low x.month_high) h x.year_low l);
      second_kept = refl;
    }

year_number :
    (t : LocalTime)
    → t.day ≡ 31
    → t.month ≡ 12
    → day_number (record t { day = 1; month = 1; year = suc t.year }) ≡ day_number t + 1
unfolding day_number
year_number t d m = rw m (omega (arith, first_month (suc t.year), december t.year))

new_year :
    (y m d : ℕ)
    → d ≡ 31
    → m ≡ 12
    → 1 ≤ y
    → y < 65535
    → day_of_week (suc y) 1 1 ≡ (day_of_week y m d + 1) % 7
new_year y m d e h l u =
    rw (e, h)
      (subst (λ z. day_of_week z 1 1 ≡ (day_of_week y 12 31 + 1) % 7) (sym (after y))
        (next_year y l u))

year-IsNext :
    (t : LocalTime)
    → IsDate t
    → t.day ≡ days_in_month t.year t.month
    → t.month ≡ 12
    → t.year < 65535
    → IsNext t (record t { day = 1; month = 1; year = (t.year + 1) % 65536 })
unfolding day_number
year-IsNext t x e h l =
    subst (λ y. IsNext t (record t { day = 1; month = 1; year = y })) (sym (wrapped t.year l))
      (record {
        date = record {
          month_low = omega arith;
          month_high = omega arith;
          day_low = omega arith;
          day_high = omega (arith, days_in_month-bounds (suc t.year) 1 (omega arith) (omega arith));
          year_low = omega arith;
        };
        number = year_number t (e ∙ ap (days_in_month t.year) h ∙ december_days t.year) h;
        weekday =
            new_year t.year t.month t.day (e ∙ ap (days_in_month t.year) h ∙ december_days t.year) h
              x.year_low l;
        second_kept = refl;
      })

-- The turn of a date is the next day of the calendar, through the ends of months and years and the leap
-- days: it counts one day more and has the next day of the week by Zeller's congruence.
pub next_day-IsNext : (t : LocalTime) → IsDate t → t.year < 65535 → IsNext t (next_day t)
next_day-IsNext t x l = elim (Bool-cases (ltb t.day (days_in_month t.year t.month))) [
  | inl w ↦
      let h = ltb→lt t.day (days_in_month t.year t.month) w in
      subst (IsNext t) (sym (next_day-within t h)) (within-IsNext t x h)
  | inr last ↦
      let e = is_last t.day _ x.day_high last in
      elim (Bool-cases (ltb t.month 12)) [
        | inl m ↦
            let h = ltb→lt t.month 12 m in
            subst (IsNext t) (sym (next_day-month t e h)) (month-IsNext t x e h l)
        | inr d ↦
            let h = is_last t.month 12 x.month_high d in
            subst (IsNext t) (sym (next_day-year t e h)) (year-IsNext t x e h l)
      ]
]
