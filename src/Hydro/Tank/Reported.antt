-- ===== src/Hydro/Tank/Reported.antt =====
-- The fault that aquaOneHydro/src/hydrosense/WaterTank.cpp reports, after any updates.
use aqua_one.Base.{
  ℕ, ◌+◌, ◌≤◌, ◌<◌, ◌≡◌, ◌↔◌, sym, ap, ◌∙◌, subst, Bool, true, false, not, ◌&&◌, ltb, leb, ◌==◌,
  if◌then◌else◌, List, [], ◌∷◌, length, elapsed, arith, Bool-cases, inl, inr,
}
use aqua_one.Hydro.Floats.{Floats}
use aqua_one.Hydro.Tank.{Tank, measure, tank_begin, take_sample, tank_update}
use aqua_one.Hydro.Tank.Faults.{IsSound, tank_begin-IsSound, tank_update-IsSound}
use aqua_one.Hydro.Tank.Series.{
  Sample, Count, no_count, capped, is_early, is_flat, hits_after, watch, IsCounted, IsTaken,
  take_sample-IsTaken, IsFinished, finish_series-IsFinished,
}

module _ {F : Type 0} (𝓕 : Floats F) where
  next_failures :
      (good : Bool) (n : ℕ)
      → (if good then 0 else if ltb (capped n) 255 then capped n + 1 else capped n)
        ≡ capped (if good then 0 else n + 1)
  next_failures good n = ground arith

  finished-IsCounted :
      (m : ℕ) (t : Tank F) (hits : ℕ) (c : Count) (v w : Tank F)
      → t.max_failed_series ≡ m
      → t.failed_series ≡ capped c.failures
      → IsTaken 𝓕 t hits v
      → IsFinished 𝓕 v w
      → IsCounted 𝓕 m w (record c {
        tries = 0;
        hits = 0;
        failures = if leb 3 hits && not (is_flat 𝓕 t) then 0 else c.failures + 1;
        measured_at = t.last_sample_ms;
      })
  finished-IsCounted m t hits c v w l f k z = record {
    limit = z.limit_kept ∙ k.limit_kept ∙ l;
    tries_same = z.none_tried;
    hits_same = z.none_hit;
    failures_same =
        z.failures_next
        ∙ rw (k.hits_more, k.failures_kept, k.empty_kept, k.full_kept, f)
            (next_failures (leb 3 hits && not (is_flat 𝓕 t)) c.failures);
    time_same = z.time_kept ∙ k.time_kept;
    few = omega arith;
    fewer = omega arith;
  }

  hits_limit : (t : Tank F) (u : Sample) (n k : ℕ) → n ≤ k → hits_after 𝓕 t u n ≤ k + 1
  hits_limit t u n k h = elim (Bool-cases (measure 𝓕 t.sensor u.duration_us).1) [
    | inl e ↦ rw e (omega arith)
    | inr e ↦ rw e (omega arith)
  ]

  more-IsCounted :
      (m : ℕ) (t : Tank F) (hits : ℕ) (c : Count) (v : Tank F)
      → t.max_failed_series ≡ m
      → t.attempts ≡ c.tries
      → t.failed_series ≡ capped c.failures
      → c.tries < 4
      → hits ≤ c.tries + 1
      → IsTaken 𝓕 t hits v
      → IsCounted 𝓕 m v
          (record c { tries = c.tries + 1; hits = hits; measured_at = t.last_sample_ms })
  more-IsCounted m t hits c v l a f b h k = record {
    limit = k.limit_kept ∙ l;
    tries_same = k.one_more ∙ ap (λ n. n + 1) a;
    hits_same = k.hits_more;
    failures_same = k.failures_kept ∙ f;
    time_same = k.time_kept;
    few = omega arith;
    fewer = h;
  }

  in_code :
      (t : Tank F) (u : Sample) (c : Count) (b : Bool)
      → t.last_sample_ms ≡ c.measured_at
      → is_early 𝓕 t u c ≡ b
      → ltb (elapsed u.at t.last_sample_ms) t.sample_interval_ms ≡ b
  in_code t u c b e h = subst (λ n. ltb (elapsed u.at n) t.sample_interval_ms ≡ b) (sym e) h

  fits : (n : ℕ) {h k : ℕ} → n ≡ h → h ≤ k → k ≤ 4 → n < 5
  fits n e a b = omega arith

  is_five : (v t k : ℕ) → v ≡ t + 1 → t ≡ k → (k == 4) ≡ true → leb 5 v ≡ true
  is_five v t k e f g = ground arith

  not_five : (v t k : ℕ) → v ≡ t + 1 → t ≡ k → (k == 4) ≡ false → k ≤ 4 → leb 5 v ≡ false
  not_five v t k e f g h = ground arith

  below_4 : (k : ℕ) → k ≤ 4 → (k == 4) ≡ false → k < 4
  below_4 k h g = ground arith

  tank_update-IsCounted :
      (m : ℕ) (t : Tank F) (u : Sample) (c : Count)
      → IsCounted 𝓕 m t c
      → IsCounted 𝓕 m (tank_update 𝓕 t u.at u.duration_us u.valid_ms) (watch 𝓕 t u c)
  unfolding tank_update watch
  tank_update-IsCounted m t u c x = elim (Bool-cases (is_early 𝓕 t u c)) [
    | inl early ↦ rw (early, in_code t u c true x.time_same early) x
    | inr due ↦
        let s : Tank F = record t { last_sample_ms = u.at } in
        let v = take_sample 𝓕 s u.duration_us in
        let k =
          subst (λ n. IsTaken 𝓕 s (hits_after 𝓕 t u n) v) x.hits_same
            (take_sample-IsTaken 𝓕 s u (fits t.valid_samples x.hits_same x.fewer x.few)) in
        elim (Bool-cases (c.tries == 4)) [
          | inl last ↦
              let five = is_five v.attempts t.attempts c.tries k.one_more x.tries_same last in
              rw (due, in_code t u c false x.time_same due, last, five)
                (finished-IsCounted m s (hits_after 𝓕 t u c.hits) c v _ x.limit x.failures_same k
                  (finish_series-IsFinished 𝓕 v u.valid_ms))
          | inr more ↦
              let less =
                not_five v.attempts t.attempts c.tries k.one_more x.tries_same more x.few in
              rw (due, in_code t u c false x.time_same due, more, less)
                (more-IsCounted m s (hits_after 𝓕 t u c.hits) c v x.limit x.tries_same
                  x.failures_same (below_4 c.tries x.few more)
                  (hits_limit t u c.hits c.tries x.fewer) k)
        ]
  ]

  tank_begin-IsCounted :
      (t : Tank F) (ms : ℕ) → IsCounted 𝓕 t.max_failed_series (tank_begin 𝓕 t ms) (no_count ms)
  unfolding tank_begin
  tank_begin-IsCounted t ms = ground arith

  -- The calls one after the other, with the count.
  unfoldable pub updates : Tank F → List Sample → Count → Tank F × Count
  updates t [] c = (t, c)
  updates t (u ∷ us) c = updates (tank_update 𝓕 t u.at u.duration_us u.valid_ms) us (watch 𝓕 t u c)

  record IsFaithful (m : ℕ) (x : Tank F × Count) : Type 0 where
    sound : IsSound x.0
    counted : IsCounted 𝓕 m x.0 x.1

  updates-IsFaithful :
      (m : ℕ) (t : Tank F) (us : List Sample) (c : Count)
      → m ≤ 255
      → IsSound t
      → IsCounted 𝓕 m t c
      → IsFaithful m (updates t us c)
  unfolding updates
  updates-IsFaithful m t [] c l s x = record { sound = s; counted = x }
  updates-IsFaithful m t (u ∷ us) c l s x =
      updates-IsFaithful m (tank_update 𝓕 t u.at u.duration_us u.valid_ms) us (watch 𝓕 t u c) l
        (tank_update-IsSound 𝓕 t u.at u.duration_us u.valid_ms
          (subst (λ n. n ≤ 255) (sym x.limit) l) s)
        (tank_update-IsCounted m t u c x)

  reaches : (m f n : ℕ) → m ≤ 255 → f ≡ capped n → (m ≤ f) ↔ (m ≤ n)
  reaches m f n h e = ground arith

  -- After begin() and any updates, whatever the echoes and the clock, the tank is sound: its samples are in
  -- their array, the count of failed series is one of a uint8_t, and a valid reading goes with no fault. Its
  -- fault is on just when as many series in a row as the limit, which is from 1 to 255, have failed up to
  -- now, counted from the measurements.
  pub updates-begin_fault :
      (t : Tank F) (ms : ℕ) (us : List Sample)
      → length t.samples ≡ 5
      → 0 < t.max_failed_series
      → t.max_failed_series ≤ 255
      → let x = updates (tank_begin 𝓕 t ms) us (no_count ms) in
        IsSound x.0 × ((x.0.sensor_fault ≡ true) ↔ (t.max_failed_series ≤ x.1.failures))
  updates-begin_fault t ms us h low high =
      let m = t.max_failed_series in
      let x = updates (tank_begin 𝓕 t ms) us (no_count ms) in
      let y =
        updates-IsFaithful m (tank_begin 𝓕 t ms) us (no_count ms) high (tank_begin-IsSound 𝓕 t ms h)
          (tank_begin-IsCounted t ms) in
      let by_code = y.sound.counted (subst (λ n. 0 < n) (sym y.counted.limit) low) in
      let by_count = reaches m x.0.failed_series x.1.failures high y.counted.failures_same in
      (
        y.sound,
        (
          (λ f. by_count.0 (subst (λ n. n ≤ x.0.failed_series) y.counted.limit (by_code.0 f))),
          (λ n.
              by_code.1 (subst (λ i. i ≤ x.0.failed_series) (sym y.counted.limit) (by_count.1 n))),
        ),
      )
