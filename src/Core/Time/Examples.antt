-- ===== src/Core/Time/Examples.antt =====
-- Dates of the local time.
use aqua_one.Base.{◌≡◌, refl, true, arith, ◌⊎◌, ◌↔◌}
use aqua_one.Core.Time.{
  LocalTime, days_in_month, day_of_week, zeller, last_sunday, is_dst, next_day,
  convert_utc_to_warsaw,
}
use aqua_one.Core.Time.Calendar.{IsDate, IsNext, next_day-IsNext, days_before_month}
use aqua_one.Core.Time.Warsaw.{IsTime, IsLater}
use aqua_one.Core.Time.Local.{convert_utc_to_warsaw_lem}
use aqua_one.Core.Time.Sunday.{IsLastSunday}
use aqua_one.Core.Time.Summer.{InSummer, is_dst_iff}

-- The last minute of 2023.
abbrev new_year : LocalTime
new_year = record {
  valid = true;
  year = 2023;
  month = 12;
  day = 31;
  hour = 23;
  minute = 59;
  second = 7;
  minute_of_day = 1439;
}

new_year-IsDate : IsDate new_year
unfolding days_in_month
new_year-IsDate = record {
  month_low = omega arith;
  month_high = omega arith;
  day_low = omega arith;
  day_high = omega arith;
  year_low = omega arith;
}

new_year-IsTime : IsTime new_year
new_year-IsTime = record {
  date = new_year-IsDate;
  hour_fits = omega arith;
  minute_fits = omega arith;
}

-- 31 March 2024 was a Sunday, the last of its month.
march_2024 : (last_sunday 2024 3 ≡ 31) × (day_of_week 2024 3 31 ≡ 0) × (day_of_week 2024 2 29 ≡ 4)
unfolding last_sunday day_of_week zeller days_in_month
march_2024 = (refl, refl, refl)

next_day-IsNext_example : IsNext new_year (next_day new_year)
next_day-IsNext_example = next_day-IsNext new_year new_year-IsDate (omega arith)

-- The last Sundays of March and October 2023.
march_26 : IsLastSunday 2023 3 26
unfolding days_before_month days_in_month
march_26 = record { sunday = refl; in_month = omega arith; last = omega arith }

october_29 : IsLastSunday 2023 10 29
unfolding days_before_month days_in_month
october_29 = record { sunday = refl; in_month = omega arith; last = omega arith }

convert_utc_to_warsaw_lem_example :
    let w = convert_utc_to_warsaw new_year in
    (w.valid ≡ true)
    × (InSummer new_year 26 29 × IsLater new_year 120 w
        ⊎ (¬ InSummer new_year 26 29) × IsLater new_year 60 w)
convert_utc_to_warsaw_lem_example =
    convert_utc_to_warsaw_lem new_year 26 29 refl new_year-IsTime (omega arith) march_26 october_29

is_dst_iff_example : (is_dst new_year ≡ true) ↔ InSummer new_year 26 29
is_dst_iff_example = is_dst_iff new_year 26 29 new_year-IsTime (omega arith) march_26 october_29
