-- ===== src/Hydro/Tank/Examples.antt =====
-- A series of measurements, with whole numbers for the floats.
use mathlib.Core.List.{Perm}
use aqua_one.Base.{
  ℕ, zero, suc, ◌-◌, ◌*◌, ◌≤◌, ◌≡◌, ◌↔◌, refl, map, true, false, List, [], ◌∷◌, ◌++◌, take, drop,
  arith, ltb,
}
use aqua_one.Hydro.Floats.Whole.{whole, ltb-IsOrdered}
use aqua_one.Hydro.Tank.{
  Tank, tank_begin, tank_update, take_sample, measure, finish_series, count_failure, judge,
  sort_samples,
}
use aqua_one.Hydro.Tank.Sorting.{IsSorted, sort_samples_lem}
use aqua_one.Hydro.Tank.Faults.{IsSound}
use aqua_one.Hydro.Tank.Series.{Sample, no_count, watch}
use aqua_one.Hydro.Tank.Reported.{updates, updates-begin_fault}

abbrev five : List ℕ
five = 21 ∷ 19 ∷ 20 ∷ 7 ∷ 0 ∷ []

sort_samples_lem_example :
    (sorted : List ℕ) × (sort_samples whole five 3 ≡ sorted ++ drop 3 five)
    × Perm (take 3 five) sorted
    × IsSorted ltb sorted
sort_samples_lem_example = sort_samples_lem whole five 3 ltb-IsOrdered

-- The numbers from n down to 1.
abbrev down_from : ℕ → List ℕ
down_from zero = []
down_from (suc n) = suc n ∷ down_from n

abbrev tank : Tank ℕ
tank = record {
  sensor = record { min_distance = 2; max_distance = 450; distance = 20; valid = false };
  empty_distance = 40;
  full_distance = 5;
  sample_interval_ms = 80;
  max_failed_series = 3;
  samples = five;
  attempts = 4;
  valid_samples = 1;
  failed_series = 2;
  last_sample_ms = 0;
  last_valid_reading_ms = 0;
  distance = 20;
  level = 20;
  level_percent = 57;
  valid = false;
  new_reading = false;
  sensor_fault = false;
}

-- Fifteen measurements without an echo.
abbrev silence : List Sample
silence =
    map (λ n. record { at = 100 * n; duration_us = 0; valid_ms = 100 * n })
      (map (λ k. 16 - k) (down_from 15))

updates-begin_fault_example :
    let x = updates whole (tank_begin whole tank 0) silence (no_count 0) in
    IsSound x.0 × ((x.0.sensor_fault ≡ true) ↔ (3 ≤ x.1.failures))
updates-begin_fault_example =
    updates-begin_fault whole tank 0 silence refl (omega arith) (omega arith)

-- They are three series that fail.
three_failed : (updates whole (tank_begin whole tank 0) silence (no_count 0)).1.failures ≡ 3
unfolding updates tank_begin tank_update take_sample measure finish_series watch count_failure judge
three_failed = refl
