-- ===== src/Hydro/Tank.antt =====
-- aquaOneHydro/src/hardware/UltrasonicSensor.cpp and aquaOneHydro/src/hydrosense/WaterTank.cpp: five
-- echo measurements make a series, whose median is the water level. The duration that pulseIn returns
-- and the readings of millis() are arguments; the trigger pulse and the pins are left out.
pub mod Sorting
pub mod Faults
pub mod Series
pub mod Reported
mod Examples
use aqua_one.Base.{
  ℕ, zero, suc, ◌+◌, ◌-◌, ◌/◌, ◌%◌, Bool, true, false, not, ◌||◌, ltb, leb, ◌==◌, if◌then◌else◌,
  List, [], ◌∷◌, ◌++◌, take, drop, set, get_or, elapsed,
}
use aqua_one.Hydro.Floats.{Floats}

-- The inner loop of median(): `x` stands at i, and each later value that is smaller changes places
-- with the one at i.
pub sift : {F : Type 0} → (F → F → Bool) → F → List F → F × List F
sift lt x [] = (x, [])
sift lt x (y ∷ ys) =
    let below = lt y x in
    let (m, rest) = sift lt (if below then y else x) ys in (m, (if below then x else y) ∷ rest)

-- The outer loop, with `n` places to go.
pub exchange : {F : Type 0} → (F → F → Bool) → ℕ → List F → List F
exchange lt zero xs = xs
exchange lt (suc n) [] = []
exchange lt (suc n) (x ∷ xs) = let (m, rest) = sift lt x xs in m ∷ exchange lt n rest

pub record Sensor (F : Type 0) : Type 0 where
  pub min_distance : F
  pub max_distance : F
  pub distance : F
  pub valid : Bool

abbrev pub sample_count : ℕ
sample_count = 5

abbrev pub min_valid_samples : ℕ
min_valid_samples = 3

-- `samples` has sample_count places.
pub record Tank (F : Type 0) : Type 0 where
  pub sensor : Sensor F
  pub empty_distance : F
  pub full_distance : F
  pub sample_interval_ms : ℕ
  pub max_failed_series : ℕ
  pub samples : List F
  pub attempts : ℕ
  pub valid_samples : ℕ
  pub failed_series : ℕ
  pub last_sample_ms : ℕ
  pub last_valid_reading_ms : ℕ
  pub distance : F
  pub level : F
  pub level_percent : F
  pub valid : Bool
  pub new_reading : Bool
  pub sensor_fault : Bool

module _ {F : Type 0} (𝓕 : Floats F) where
  open 𝓕 use {lt, le, add, sub, mul, div, of_micros, zero_f, two_f, hundred_f, sound}

  unfoldable pub sensor_begin : Sensor F → Sensor F
  sensor_begin s = record s { distance = zero_f; valid = false }

  -- measure(): no echo, or a distance out of range, keeps the last distance.
  unfoldable pub measure : Sensor F → ℕ → Sensor F × Bool
  measure s duration_us =
      let measured = div (mul (of_micros duration_us) sound) two_f in
      if duration_us == 0
      then (record s { valid = false }, false)
      else if lt measured s.min_distance || lt s.max_distance measured
      then (record s { valid = false }, false)
      else (record s { distance = measured; valid = true }, true)

  unfoldable pub tank_begin : Tank F → ℕ → Tank F
  tank_begin t ms = record t {
    attempts = 0;
    valid_samples = 0;
    failed_series = 0;
    last_sample_ms = ms;
    last_valid_reading_ms = 0;
    distance = zero_f;
    level = zero_f;
    level_percent = zero_f;
    valid = false;
    new_reading = false;
    sensor_fault = false;
  }

  -- median() sorts the first `count` samples in place; an array never has a negative index, as
  -- `count` is at least min_valid_samples where it is called.
  pub sort_samples : List F → ℕ → List F
  sort_samples values count = exchange lt count (take count values) ++ drop count values

  pub median_of : List F → ℕ → F
  median_of values count =
      if (count % 2) == 1
      then get_or values (count / 2) zero_f
      else div (add (get_or values (count / 2 - 1) zero_f) (get_or values (count / 2) zero_f)) two_f

  clamp : F → F → F
  clamp level height =
      let low = if lt level zero_f then zero_f else level in if lt height low then height else low

  pub process_samples : Tank F → Tank F
  unfolding sort_samples median_of clamp
  process_samples t =
      let height = sub t.empty_distance t.full_distance in
      let sorted = sort_samples t.samples t.valid_samples in
      let middle = median_of sorted t.valid_samples in
      let level = clamp (sub t.empty_distance middle) height in
      if le height zero_f then record t { valid = false } else record t {
        samples = sorted;
        distance = middle;
        level = level;
        level_percent = mul (div level height) hundred_f;
        valid = true;
      }

  -- The count of failed series is a uint8_t that stops at 255.
  count_failure : Tank F → Tank F
  count_failure t =
      let failures = if ltb t.failed_series 255 then t.failed_series + 1 else t.failed_series in
      record t {
        failed_series = failures;
        sensor_fault = if leb t.max_failed_series failures then true else t.sensor_fault;
      }

  judge : Tank F → ℕ → Tank F
  judge t ms =
      if t.valid
      then record t { failed_series = 0; sensor_fault = false; last_valid_reading_ms = ms }
      else t

  unfoldable pub finish_series : Tank F → ℕ → Tank F
  unfolding count_failure judge
  finish_series t ms =
      let read =
        if leb min_valid_samples t.valid_samples
        then judge (process_samples t) ms
        else record t { valid = false } in
      let judged = if read.valid then read else count_failure read in
      record judged { new_reading = true; attempts = 0; valid_samples = 0 }

  pub take_sample : Tank F → ℕ → Tank F
  take_sample t duration_us =
      let (s, done) = measure t.sensor duration_us in
      let u = record t { sensor = s; attempts = t.attempts + 1 } in
      if done
      then (if ltb u.valid_samples sample_count
          then record u {
            samples = set u.samples u.valid_samples s.distance;
            valid_samples = u.valid_samples + 1;
          }
          else u)
      else u

  -- update(): at `now`, with the echo of the measurement if there is one, and `valid_ms` the
  -- millis() of a successful series.
  unfoldable pub tank_update : Tank F → ℕ → ℕ → ℕ → Tank F
  unfolding take_sample
  tank_update t now duration_us valid_ms =
      if ltb (elapsed now t.last_sample_ms) t.sample_interval_ms
      then t
      else (let u = take_sample (record t { last_sample_ms = now }) duration_us in
          if leb sample_count u.attempts then finish_series u valid_ms else u)
