-- ===== src/Core/Time.antt =====
-- aquaOneCore/src/Time/EuropeWarsawTimeService.cpp and aquaOneCore/include/AquaCore/Time/TimeTypes.h: the
-- local time of Poland from the UTC that the RTC holds. The RtcService is a parameter by what its begin()
-- and read() return.
pub mod Weekday
pub mod Calendar
pub mod Sunday
pub mod Warsaw
pub mod Summer
pub mod Local
mod Examples
use aqua_one.Base.{
  ℕ, zero, suc, ◌+◌, ◌-◌, ◌*◌, ◌/◌, ◌%◌, Bool, true, false, not, ◌&&◌, ◌||◌, ltb, leb, ◌==◌,
  if◌then◌else◌, [], ◌∷◌, get_or,
}

pub record LocalTime : Type 0 where
  pub valid : Bool
  pub year : ℕ
  pub month : ℕ
  pub day : ℕ
  pub hour : ℕ
  pub minute : ℕ
  pub second : ℕ
  pub minute_of_day : ℕ

abbrev pub no_time : LocalTime
no_time = record {
  valid = false;
  year = 0;
  month = 0;
  day = 0;
  hour = 0;
  minute = 0;
  second = 0;
  minute_of_day = 0;
}

abbrev pub is_leap_year : ℕ → Bool
is_leap_year year = (year % 4 == 0 && not (year % 100 == 0)) || year % 400 == 0

unfoldable pub days_in_month : ℕ → ℕ → ℕ
days_in_month year month =
    if ltb month 1 || ltb 12 month
    then 0
    else if month == 2 && is_leap_year year
    then 29
    else get_or (31 ∷ 28 ∷ 31 ∷ 30 ∷ 31 ∷ 30 ∷ 31 ∷ 31 ∷ 30 ∷ 31 ∷ 30 ∷ 31 ∷ []) (month - 1) 0

-- Zeller's congruence; January and February count as months 13 and 14 of the year before.
unfoldable pub zeller : ℕ → ℕ → ℕ → ℕ
zeller year month day =
    (day + 13 * (month + 1) / 5 + year % 100 + year % 100 / 4 + year / 100 / 4 + 5 * (year / 100))
    % 7

-- 0 is Sunday; year is a uint16_t.
unfoldable pub day_of_week : ℕ → ℕ → ℕ → ℕ
unfolding zeller
day_of_week year month day =
    ((if ltb month 3
        then zeller ((year + 65535) % 65536) (month + 12) day
        else zeller year month day)
      + 6)
    % 7

unfoldable pub last_sunday : ℕ → ℕ → ℕ
last_sunday year month =
    days_in_month year month - day_of_week year month (days_in_month year month)

unfoldable pub is_dst : LocalTime → Bool
is_dst utc =
    if ltb utc.month 3
    then false
    else if ltb 10 utc.month
    then false
    else if ltb 3 utc.month && ltb utc.month 10
    then true
    else if utc.month == 3
    then (if ltb (last_sunday utc.year 3) utc.day
        then true
        else if ltb utc.day (last_sunday utc.year 3)
        then false
        else leb 1 utc.hour)
    else if ltb utc.day (last_sunday utc.year 10)
    then true
    else if ltb (last_sunday utc.year 10) utc.day
    then false
    else ltb utc.hour 1

-- The turn to the next day in addMinutes.
unfoldable pub next_day : LocalTime → LocalTime
next_day t =
    if ltb (days_in_month t.year t.month) (t.day + 1)
    then (if ltb 12 (t.month + 1)
        then record t { day = 1; month = 1; year = (t.year + 1) % 65536 }
        else record t { day = 1; month = t.month + 1 })
    else record t { day = t.day + 1 }

-- The while loop of addMinutes, on fuel: the days that are turned and the minutes that are left.
unfoldable pub turn_days : ℕ → ℕ → LocalTime → LocalTime × ℕ
turn_days zero total t = (t, total)
turn_days (suc fuel) total t =
    let rest = turn_days fuel (total - 1440) (next_day t) in
    if leb 1440 total then rest else (t, total)

-- addMinutes; 46 turns take all the days of a uint16_t of minutes.
unfoldable pub add_minutes : LocalTime → ℕ → LocalTime
unfolding turn_days
add_minutes t minutes =
    let (u, total) = turn_days 46 ((t.hour * 60 + t.minute + minutes) % 65536) t in
    record u {
      hour = total / 60;
      minute = total % 60;
      minute_of_day = total / 60 * 60 + total % 60;
    }

unfoldable pub convert_utc_to_warsaw : LocalTime → LocalTime
convert_utc_to_warsaw utc =
    if not utc.valid
    then no_time
    else record (add_minutes utc (if is_dst utc then 120 else 60)) { valid = true }

-- begin(), by what rtc_.begin() and rtc_.read() return: the new current_, and the result.
unfoldable pub begin : Bool → LocalTime → LocalTime × Bool
begin started utc =
    if not started || not utc.valid
    then (no_time, false)
    else (convert_utc_to_warsaw utc, (convert_utc_to_warsaw utc).valid)

-- now(): the new current_, which is returned.
unfoldable pub now : LocalTime → LocalTime
now utc = if not utc.valid then no_time else convert_utc_to_warsaw utc
