-- ===== src/Core/Time/Warsaw.antt =====
-- The local time that aquaOneCore/src/Time/EuropeWarsawTimeService.cpp gives, against the count of minutes.
use aqua_one.Base.{
  ℕ, ◌+◌, ◌-◌, ◌*◌, ◌/◌, ◌%◌, ◌≤◌, ◌<◌, ◌≡◌, refl, sym, subst, Bool, true, false, ltb, leb, ltb→lt,
  if◌then◌else◌, Bool-cases, inl, inr, arith, not,
}
use aqua_one.Core.Time.{LocalTime, is_dst, next_day, turn_days, add_minutes, convert_utc_to_warsaw}
use aqua_one.Core.Time.Calendar.{IsDate, day_number, next_day-IsNext}

-- A time of day on a date.
pub record IsTime (t : LocalTime) : Type 0 where
  pub date : IsDate t
  pub hour_fits : t.hour < 24
  pub minute_fits : t.minute < 60

-- The number of the minute that a time is.
abbrev pub minute_number : LocalTime → ℕ
minute_number t = day_number t * 1440 + t.hour * 60 + t.minute

leb_day_false : (n : ℕ) → n < 1440 → leb 1440 n ≡ false
leb_day_false n h = ground arith

leb_day_true : (n : ℕ) → 1440 ≤ n → leb 1440 n ≡ true
leb_day_true n h = ground arith

turn_days-today : (t : LocalTime) (total : ℕ) → total < 1440 → turn_days 46 total t ≡ (t, total)
unfolding turn_days
turn_days-today t total h = rw (leb_day_false total h) refl

turn_days-tomorrow :
    (t : LocalTime) (total : ℕ)
    → 1440 ≤ total
    → total < 2880
    → turn_days 46 total t ≡ (next_day t, total - 1440)
unfolding turn_days
turn_days-tomorrow t total l h =
    rw (leb_day_true total l, leb_day_false (total - 1440) (omega arith)) refl

-- A time that is later than another one by a number of minutes.
pub record IsLater (t : LocalTime) (minutes : ℕ) (v : LocalTime) : Type 0 where
  pub time : IsTime v
  pub number : minute_number v ≡ minute_number t + minutes
  pub of_day : v.minute_of_day ≡ v.hour * 60 + v.minute
  pub second_kept : v.second ≡ t.second

-- The last step of addMinutes: what is left of the minutes is the time of the day that is reached.
settle :
    (t u : LocalTime) (minutes total : ℕ)
    → IsDate u
    → u.second ≡ t.second
    → total < 1440
    → day_number u * 1440 + total ≡ minute_number t + minutes
    → IsLater t minutes (record u {
      hour = total / 60;
      minute = total % 60;
      minute_of_day = total / 60 * 60 + total % 60;
    })
unfolding day_number
settle t u minutes total x s l e = record {
  time = record {
    date = record {
      month_low = x.month_low;
      month_high = x.month_high;
      day_low = x.day_low;
      day_high = x.day_high;
      year_low = x.year_low;
    };
    hour_fits = omega arith;
    minute_fits = omega arith;
  };
  number = omega arith;
  of_day = refl;
  second_kept = s;
}

total_fits :
    (hour minute minutes : ℕ)
    → hour < 24
    → minute < 60
    → minutes < 1440
    → ((hour * 60 + minute + minutes) % 65536 ≡ hour * 60 + minute + minutes)
      × ((hour * 60 + minute + minutes) % 65536 < 2880)
total_fits hour minute minutes h m l = omega arith

not_less : (n : ℕ) → ltb n 1440 ≡ false → 1440 ≤ n
not_less n h = ground arith

-- The addition of less than a day to a time gives the time that is that many minutes later, through the
-- ends of days, months and years.
pub add_minutes-IsLater :
    (t : LocalTime) (minutes : ℕ)
    → IsTime t
    → t.year < 65535
    → minutes < 1440
    → IsLater t minutes (add_minutes t minutes)
unfolding add_minutes
add_minutes-IsLater t minutes x l h =
    let total = (t.hour * 60 + t.minute + minutes) % 65536 in
    let (whole, short) = total_fits t.hour t.minute minutes x.hour_fits x.minute_fits h in
    elim (Bool-cases (ltb total 1440)) [
      | inl same_day ↦
          let less = ltb→lt total 1440 same_day in
          rw (turn_days-today t total less)
            (settle t t minutes total x.date refl less (omega arith))
      | inr next ↦
          let more = not_less total next in
          let n = next_day-IsNext t x.date l in
          rw (turn_days-tomorrow t total more short) (
            settle t (next_day t) minutes (total - 1440) n.date n.second_kept (omega arith)
              (omega (arith, n.number)))
    ]

validated :
    (t : LocalTime) (minutes : ℕ) (v : LocalTime)
    → IsLater t minutes v
    → IsLater t minutes (record v { valid = true })
unfolding day_number
validated t minutes v x = record {
  time = record {
    date = record {
      month_low = x.time.date.month_low;
      month_high = x.time.date.month_high;
      day_low = x.time.date.day_low;
      day_high = x.time.date.day_high;
      year_low = x.time.date.year_low;
    };
    hour_fits = x.time.hour_fits;
    minute_fits = x.time.minute_fits;
  };
  number = x.number;
  of_day = x.of_day;
  second_kept = x.second_kept;
}

offset_fits : (b : Bool) → (if b then 120 else 60) < 1440
offset_fits b = ground arith

if_not-true : {A : Type 0} (b : Bool) (x y : A) → b ≡ true → (if not b then x else y) ≡ y
if_not-true b x y e = rw e refl

-- A valid time is moved by the offset of the code, and stays valid.
pub convert-IsLater :
    (utc : LocalTime)
    → utc.valid ≡ true
    → IsTime utc
    → utc.year < 65535
    → IsLater utc (if is_dst utc then 120 else 60) (convert_utc_to_warsaw utc)
      × ((convert_utc_to_warsaw utc).valid ≡ true)
unfolding convert_utc_to_warsaw
convert-IsLater utc v x l =
    let offset = if is_dst utc then 120 else 60 in
    let later = add_minutes-IsLater utc offset x l (offset_fits (is_dst utc)) in
    subst (λ (w : LocalTime). IsLater utc offset w × (w.valid ≡ true))
      (sym (if_not-true utc.valid _ _ v))
      (validated utc offset (add_minutes utc offset) later, refl)
