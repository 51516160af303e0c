-- ===== src/Hydro/Tank/Series.antt =====
-- The series of measurements of aquaOneHydro/src/hydrosense/WaterTank.cpp, counted from outside.
use aqua_one.Base.{
  ℕ, ◌+◌, ◌≤◌, ◌<◌, ◌≡◌, Bool, not, ◌&&◌, ltb, leb, ◌==◌, if◌then◌else◌, elapsed, arith, Bool-cases,
  inl, inr,
}
use aqua_one.Hydro.Floats.{Floats}
use aqua_one.Hydro.Tank.{
  Tank, measure, take_sample, count_failure, finish_series, process_samples, judge,
}

-- A call of update(): when it is made, the echo that it measures, and millis() at the end of a good series.
pub record Sample : Type 0 where
  pub at : ℕ
  pub duration_us : ℕ
  pub valid_ms : ℕ

-- The measurements of the series so far, those of them that have succeeded, and the series that have failed
-- since the last one that has not; and the time of the last measurement.
pub record Count : Type 0 where
  pub tries : ℕ
  pub hits : ℕ
  pub failures : ℕ
  pub measured_at : ℕ

abbrev pub no_count : ℕ → Count
no_count ms = record { tries = 0; hits = 0; failures = 0; measured_at = ms }

abbrev pub capped : ℕ → ℕ
capped n = if leb 255 n then 255 else n

module _ {F : Type 0} (𝓕 : Floats F) where
  abbrev pub is_early : Tank F → Sample → Count → Bool
  is_early t u c = ltb (elapsed u.at c.measured_at) t.sample_interval_ms

  -- The tank has no height.
  abbrev pub is_flat : Tank F → Bool
  is_flat t = 𝓕.le (𝓕.sub t.empty_distance t.full_distance) 𝓕.zero_f

  abbrev pub hits_after : Tank F → Sample → ℕ → ℕ
  hits_after t u n = if (measure 𝓕 t.sensor u.duration_us).1 then n + 1 else n

  -- The count after a call: five measurements make a series, which fails with fewer than three that have
  -- succeeded, or in a tank with no height.
  unfoldable pub watch : Tank F → Sample → Count → Count
  watch t u c =
      if is_early t u c
      then c
      else if c.tries == 4
      then record c {
        tries = 0;
        hits = 0;
        failures = if leb 3 (hits_after t u c.hits) && not (is_flat t) then 0 else c.failures + 1;
        measured_at = u.at;
      }
      else record c { tries = c.tries + 1; hits = hits_after t u c.hits; measured_at = u.at }

  -- What the code has counted is the count, up to 255 failures.
  pub record IsCounted (m : ℕ) (t : Tank F) (c : Count) : Type 0 where
    pub limit : t.max_failed_series ≡ m
    pub tries_same : t.attempts ≡ c.tries
    pub hits_same : t.valid_samples ≡ c.hits
    pub failures_same : t.failed_series ≡ capped c.failures
    pub time_same : t.last_sample_ms ≡ c.measured_at
    pub few : c.tries ≤ 4
    pub fewer : c.hits ≤ c.tries

  -- A tank in the middle of a series.
  pub record IsTaken (t : Tank F) (n : ℕ) (u : Tank F) : Type 0 where
    pub limit_kept : u.max_failed_series ≡ t.max_failed_series
    pub one_more : u.attempts ≡ t.attempts + 1
    pub hits_more : u.valid_samples ≡ n
    pub failures_kept : u.failed_series ≡ t.failed_series
    pub empty_kept : u.empty_distance ≡ t.empty_distance
    pub full_kept : u.full_distance ≡ t.full_distance
    pub time_kept : u.last_sample_ms ≡ t.last_sample_ms

  pub take_sample-IsTaken :
      (t : Tank F) (u : Sample)
      → t.valid_samples < 5
      → IsTaken t (hits_after t u t.valid_samples) (take_sample 𝓕 t u.duration_us)
  unfolding take_sample
  take_sample-IsTaken t u h = elim (Bool-cases (measure 𝓕 t.sensor u.duration_us).1) [
    | inl done ↦ elim (Bool-cases (ltb t.valid_samples 5)) [
      | inl room ↦ rw (done, room) (ground arith)
      | inr full ↦ absurd (ground arith)
    ]
    | inr failed ↦ rw failed (ground arith)
  ]

  -- A tank after a series.
  pub record IsFinished (t u : Tank F) : Type 0 where
    pub limit_kept : u.max_failed_series ≡ t.max_failed_series
    pub none_tried : u.attempts ≡ 0
    pub none_hit : u.valid_samples ≡ 0
    pub time_kept : u.last_sample_ms ≡ t.last_sample_ms
    pub failures_next : u.failed_series ≡ (
        if leb 3 t.valid_samples && not (is_flat t)
        then 0
        else if ltb t.failed_series 255
        then t.failed_series + 1
        else t.failed_series)

  pub finish_series-IsFinished : (t : Tank F) (ms : ℕ) → IsFinished t (finish_series 𝓕 t ms)
  unfolding finish_series process_samples count_failure judge
  finish_series-IsFinished t ms = elim (Bool-cases (leb 3 t.valid_samples)) [
    | inl enough ↦ elim (Bool-cases (is_flat t)) [
      | inl flat ↦ rw (enough, flat) (ground arith)
      | inr tall ↦ rw (enough, tall) (ground arith)
    ]
    | inr few ↦ rw few (ground arith)
  ]
