-- ===== src/Core/Time/Weekday.antt =====
-- The weekdays and the last Sunday of aquaOneCore/src/Time/EuropeWarsawTimeService.cpp.
use aqua_one.Base.{ℕ, zero, suc, Bool-cases, inl, inr, ◌+◌, ◌-◌, ◌%◌, ◌≤◌, ◌<◌, ◌≡◌, ltb, arith}
use aqua_one.Core.Time.{days_in_month, zeller, day_of_week, last_sunday}

-- The months by their numbers.
pub data IsMonth : ℕ → Type 0 where
  january : IsMonth 1
  february : IsMonth 2
  march : IsMonth 3
  april : IsMonth 4
  may : IsMonth 5
  june : IsMonth 6
  july : IsMonth 7
  august : IsMonth 8
  september : IsMonth 9
  october : IsMonth 10
  november : IsMonth 11
  december : IsMonth 12

pub IsMonth-of : (m : ℕ) → 1 ≤ m → m ≤ 12 → IsMonth m
IsMonth-of zero l h = elim l [ ]
IsMonth-of (suc zero) l h = january
IsMonth-of (suc (suc zero)) l h = february
IsMonth-of (suc (suc (suc zero))) l h = march
IsMonth-of (suc (suc (suc (suc zero)))) l h = april
IsMonth-of (suc (suc (suc (suc (suc zero))))) l h = may
IsMonth-of (suc (suc (suc (suc (suc (suc zero)))))) l h = june
IsMonth-of (suc (suc (suc (suc (suc (suc (suc zero))))))) l h = july
IsMonth-of (suc (suc (suc (suc (suc (suc (suc (suc zero)))))))) l h = august
IsMonth-of (suc (suc (suc (suc (suc (suc (suc (suc (suc zero))))))))) l h = september
IsMonth-of (suc (suc (suc (suc (suc (suc (suc (suc (suc (suc zero)))))))))) l h = october
IsMonth-of (suc (suc (suc (suc (suc (suc (suc (suc (suc (suc (suc zero))))))))))) l h = november
IsMonth-of (suc (suc (suc (suc (suc (suc (suc (suc (suc (suc (suc (suc zero)))))))))))) l h =
    december
IsMonth-of (suc (suc (suc (suc (suc (suc (suc (suc (suc (suc (suc (suc (suc m))))))))))))) l h =
    absurd (omega arith)

days_bounds : {m : ℕ} (y : ℕ) → IsMonth m → (28 ≤ days_in_month y m) × (days_in_month y m ≤ 31)
unfolding days_in_month
days_bounds y january = ground arith
days_bounds y february = ground arith
days_bounds y march = ground arith
days_bounds y april = ground arith
days_bounds y may = ground arith
days_bounds y june = ground arith
days_bounds y july = ground arith
days_bounds y august = ground arith
days_bounds y september = ground arith
days_bounds y october = ground arith
days_bounds y november = ground arith
days_bounds y december = ground arith

pub days_in_month-bounds :
    (y m : ℕ) → 1 ≤ m → m ≤ 12 → (28 ≤ days_in_month y m) × (days_in_month y m ≤ 31)
days_in_month-bounds y m l h = days_bounds y (IsMonth-of m l h)

back_to_sunday :
    (d a b c e f : ℕ)
    → 7 ≤ d
    → ((d - ((d + a + b + c + e + f) % 7 + 6) % 7 + a + b + c + e + f) % 7 + 6) % 7 ≡ 0
back_to_sunday d a b c e f h = omega arith

-- lastSunday is a Sunday, and there is no later one in its month.
pub last_sunday_lem :
    (y m : ℕ)
    → 1 ≤ m
    → m ≤ 12
    → (day_of_week y m (last_sunday y m) ≡ 0)
      × (last_sunday y m ≤ days_in_month y m)
      × (days_in_month y m < last_sunday y m + 7)
unfolding last_sunday day_of_week zeller
last_sunday_lem y m l h =
    let b = days_in_month-bounds y m l h in
    elim (Bool-cases (ltb m 3)) [
      | inl early ↦
          rw early
            (back_to_sunday (days_in_month y m) _ _ _ _ _ (omega arith), omega arith, omega arith)
      | inr late ↦
          rw late
            (back_to_sunday (days_in_month y m) _ _ _ _ _ (omega arith), omega arith, omega arith)
    ]

pub next_in_month : (y m d : ℕ) → day_of_week y m (d + 1) ≡ (day_of_week y m d + 1) % 7
unfolding day_of_week zeller
next_in_month y m d = ground arith

-- The first of a month is the day of the week after the last of the month before.
pub next_month :
    {m : ℕ} (y : ℕ)
    → IsMonth m
    → m < 12
    → 1 ≤ y
    → y < 65535
    → day_of_week y (m + 1) 1 ≡ (day_of_week y m (days_in_month y m) + 1) % 7
unfolding day_of_week zeller days_in_month
next_month y january b l h = ground arith
next_month y february b l h = ground arith
next_month y march b l h = ground arith
next_month y april b l h = ground arith
next_month y may b l h = ground arith
next_month y june b l h = ground arith
next_month y july b l h = ground arith
next_month y august b l h = ground arith
next_month y september b l h = ground arith
next_month y october b l h = ground arith
next_month y november b l h = ground arith
next_month y december b l h = ground arith

pub next_year :
    (y : ℕ) → 1 ≤ y → y < 65535 → day_of_week (y + 1) 1 1 ≡ (day_of_week y 12 31 + 1) % 7
unfolding day_of_week zeller
next_year y l h = ground arith
