-- ===== src/Hydro/Tank/Faults.antt =====
-- When a measurement counts, and when the sensor is reported as faulty.
use aqua_one.Base.{
  ℕ, ◌≤◌, ◌<◌, true, false, ◌≡◌, ◌↔◌, inl, inr, List, length, take, drop, length-set, length-append,
  length-take-drop, arith, elapsed, ltb, leb, Bool-cases,
}
use aqua_one.Hydro.Floats.{Floats}
use aqua_one.Hydro.Tank.{
  Tank, measure, tank_begin, take_sample, count_failure, finish_series, tank_update, sort_samples,
  process_samples,
}
use aqua_one.Hydro.Tank.Sorting.{length-exchange}

module _ {F : Type 0} where
  -- At most `k` samples into a series: no sample is written outside its array, and the fault is on
  -- just when the failed series that the code has counted have reached the limit.
  pub record IsWithin (k : ℕ) (t : Tank F) : Type 0 where
    pub sized : length t.samples ≡ 5
    pub open_series : t.attempts ≤ k
    pub within : t.valid_samples ≤ t.attempts
    pub saturated : t.failed_series ≤ 255
    pub counted :
        0 < t.max_failed_series → (t.sensor_fault ≡ true) ↔ (t.max_failed_series ≤ t.failed_series)
    pub trusted : t.valid ≡ true → (t.failed_series ≡ 0) × (t.sensor_fault ≡ false)

  -- What holds of a tank between two updates.
  abbrev pub IsSound : Tank F → Type 0
  IsSound = IsWithin 4

module _ {F : Type 0} (𝓕 : Floats F) where
  pub tank_begin-IsSound :
      (t : Tank F) (ms : ℕ) → length t.samples ≡ 5 → IsSound (tank_begin 𝓕 t ms)
  unfolding tank_begin
  tank_begin-IsSound t ms h = ground arith

  length-sort_samples : (xs : List F) (n : ℕ) → length (sort_samples 𝓕 xs n) ≡ length xs
  unfolding sort_samples
  length-sort_samples xs n = omega (
    arith,
    length-append _ (drop n xs),
    length-exchange 𝓕.lt n (take n xs),
    length-take-drop n xs,
  )

  take_sample-IsWithin : (t : Tank F) (d : ℕ) → IsSound t → IsWithin 5 (take_sample 𝓕 t d)
  unfolding take_sample
  take_sample-IsWithin t d h = elim (Bool-cases (measure 𝓕 t.sensor d).1) [
    | inl done ↦ elim (Bool-cases (ltb t.valid_samples 5)) [
      | inl room ↦
          rw (done, room)
            (ground (arith, length-set t.samples t.valid_samples (measure 𝓕 t.sensor d).0.distance))
      | inr full ↦ rw (done, full) (ground arith)
    ]
    | inr failed ↦ rw failed (ground arith)
  ]

  -- The end of a series whose reading does not count.
  close_failed :
      (t : Tank F) {n : ℕ}
      → t.max_failed_series ≤ 255
      → IsWithin n t
      → let u = count_failure 𝓕 (record t { valid = false }) in
        IsSound (record u { new_reading = true; attempts = 0; valid_samples = 0 })
  unfolding count_failure
  close_failed t m h = ground arith

  finish_series-IsSound :
      (t : Tank F) (ms : ℕ) {n : ℕ}
      → t.max_failed_series ≤ 255
      → IsWithin n t
      → IsSound (finish_series 𝓕 t ms)
  unfolding finish_series process_samples
  finish_series-IsSound t ms m h = elim (Bool-cases (leb 3 t.valid_samples)) [
    | inl enough ↦ elim (Bool-cases (𝓕.le (𝓕.sub t.empty_distance t.full_distance) 𝓕.zero_f)) [
      | inl flat ↦ rw (enough, flat) (close_failed t m h)
      | inr tall ↦ rw (enough, tall) (ground (arith, length-sort_samples t.samples t.valid_samples))
    ]
    | inr few ↦ rw few (close_failed t m h)
  ]

  take_sample_limit :
      (t : Tank F) (d : ℕ) → (take_sample 𝓕 t d).max_failed_series ≡ t.max_failed_series
  unfolding take_sample
  take_sample_limit t d = elim (Bool-cases (measure 𝓕 t.sensor d).1) [
    | inl done ↦ elim (Bool-cases (ltb t.valid_samples 5)) [
      | inl room ↦ rw (done, room)
      | inr full ↦ rw (done, full)
    ]
    | inr failed ↦ rw failed
  ]

  -- Every update keeps the tank sound: samples are written inside the array, the uint8_t count of
  -- failed series stays in range, and the fault is on just when that count has reached its limit.
  pub tank_update-IsSound :
      (t : Tank F) (now duration_us valid_ms : ℕ)
      → t.max_failed_series ≤ 255
      → IsSound t
      → IsSound (tank_update 𝓕 t now duration_us valid_ms)
  unfolding tank_update
  tank_update-IsSound t now d v m h =
      elim (Bool-cases (ltb (elapsed now t.last_sample_ms) t.sample_interval_ms)) [
        | inl early ↦ rw early h
        | inr due ↦
            let s : Tank F = record t { last_sample_ms = now } in
            let k : IsWithin 5 (take_sample 𝓕 s d) = take_sample-IsWithin s d (ground arith) in
            elim (Bool-cases (leb 5 (take_sample 𝓕 s d).attempts)) [
              | inl last ↦
                  rw (due, last) (finish_series-IsSound _ v (rw (take_sample_limit s d) m) k)
              | inr more ↦ rw (due, more) (ground (arith, k))
            ]
      ]
