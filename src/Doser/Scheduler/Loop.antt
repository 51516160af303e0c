-- ===== src/Doser/Scheduler/Loop.antt =====
-- The start and the end of a dose and loop() of aquaOneDoser/src/SchedulerManager.cpp.
use aqua_one.Base.{
  ℕ, zero, suc, ◌+◌, Bool, true, false, not, ◌&&◌, ◌||◌, ltb, leb, ◌==◌, if◌then◌else◌, Option,
  none, some, elapsed,
}
use aqua_one.Doser.Driver.{pump_count, any_running, is_running, start_pump, stop_pump, stop_all}
use aqua_one.Doser.Pumps.{Doses, PumpConfig, get_pump}
use aqua_one.Doser.Scheduler.{
  Tm, Calendar, State, idle, running_pump, waiting_gap, World, Inputs, window_seconds, gap_ms,
  date_key, is_reliable, scheduled_on, candidate, find_due_event, enter_gap, store_pump,
  finish_successful_dose,
}

abbrev pub is_in : State → State → Bool
is_in idle idle = true
is_in running_pump running_pump = true
is_in waiting_gap waiting_gap = true
is_in _ _ = false

module _ {F : Type 0} (k : Doses F) (c : Calendar) where
  -- The guards of processPump on a pump's settings, after the event is found: the dose and the rest are
  -- in range, the pump is calibrated, enough is left and the runtime is within its limit.
  unfoldable pub is_dosable : PumpConfig F → Bool
  is_dosable p =
      not (
        not (k.lt k.zero_f p.dose)
        || k.lt k.max_single_dose p.dose
        || not (k.is_finite p.dose)
        || not (k.is_finite p.remaining)
        || k.lt p.remaining k.zero_f
        || k.lt k.max_remaining p.remaining)
      && not (k.le p.calibration k.zero_f)
      && not (k.lt p.remaining p.dose)
      && not (
          not (k.is_finite (k.div p.dose p.calibration))
          || k.lt k.max_runtime_sec (k.div p.dose p.calibration))

  unfoldable pub runtime_of : PumpConfig F → ℕ
  runtime_of p = k.runtime_ms (k.div p.dose p.calibration)

  -- processPump from the found event on.
  unfoldable pub start_dose : World F → ℕ → PumpConfig F → ℕ → Inputs → World F × Bool
  start_dose w index p event_date n =
      let (d, started) = start_pump w.driver index n.driver_ms in
      if p.last_dose_date == event_date || not (is_dosable p) || runtime_of p == 0
      then (w, false)
      else if not started
      then (record w { driver = d }, false)
      else (
        record w {
          driver = d;
          active_pump = some index;
          active_event_date = event_date;
          pump_started_at = n.start_ms;
          planned_runtime_ms = runtime_of p;
          state = running_pump;
        },
        true,
      )

  unfoldable pub process_pump : World F → ℕ → Inputs → World F × Bool
  process_pump w index n =
      let p = get_pump k w.pumps index in
      if not p.enabled || k.le p.dose k.zero_f || p.days_mask == 0
      then (w, false)
      else elim (find_due_event c p n.local n.timestamp) [
        | none ↦ (w, false)
        | some event_date ↦ start_dose w index p event_date n
      ]

  -- The loop over the pumps from `index` on, `count` of them being left.
  unfoldable pub process_pumps : ℕ → ℕ → World F → Inputs → World F
  process_pumps zero index w n = w
  process_pumps (suc count) index w n =
      let r = process_pump w index n in
      let rest = process_pumps count (index + 1) r.0 n in if r.1 then r.0 else rest

  -- The tests of detectMissedDoses on a pump.
  unfoldable pub is_missed : PumpConfig F → Tm → ℕ → Bool
  is_missed p t now =
      not (
        not p.enabled
        || not (k.is_finite p.dose)
        || k.le p.dose k.zero_f
        || k.lt k.max_single_dose p.dose
        || ltb 23 p.hour
        || ltb 59 p.minute
        || p.days_mask == 0
        || not (scheduled_on p t))
      && elim (c.mktime (candidate p t t.tm_mday)) [
        | none ↦ false
        | some scheduled ↦ not (
            ltb now (scheduled + window_seconds)
            || p.last_dose_date == date_key t
            || p.last_missed_dose_date == date_key t)
      ]

  unfoldable pub detect_from : ℕ → ℕ → World F → Tm → ℕ → World F
  detect_from zero index w t now = w
  detect_from (suc count) index w t now =
      let p = get_pump k w.pumps index in
      let v =
        if is_missed p t now
        then store_pump w index (record p { last_missed_dose_date = date_key t })
        else w in
      detect_from count (index + 1) v t now

  unfoldable pub detect_missed_doses : World F → Tm → ℕ → World F
  detect_missed_doses w t now =
      if ltb (date_key t) 20230101 then w else detect_from pump_count 0 w t now

  unfoldable pub stopped_all : World F → World F
  stopped_all w = if any_running w.driver then record w { driver = stop_all w.driver } else w

  -- serviceRunningPump from the test of the index on.
  unfoldable pub serviced : World F → Inputs → Option ℕ → World F
  serviced w n none = enter_gap (stopped_all w) n.enter_ms
  serviced w n (some index) =
      let (d, done) = stop_pump w.driver index in
      if leb pump_count index
      then enter_gap (stopped_all w) n.enter_ms
      else if not (is_running w.driver index)
      then enter_gap w n.enter_ms
      else if ltb (elapsed n.service_ms w.pump_started_at) w.planned_runtime_ms
      then w
      else if done
      then enter_gap (finish_successful_dose k (record w { driver = d }) index w.active_event_date)
          n.enter_ms
      else enter_gap (record w { driver = stop_all d }) n.enter_ms

  unfoldable pub service_running_pump : World F → Inputs → World F
  service_running_pump w n = serviced w n w.active_pump

  -- loop() from the state machine's gap on.
  unfoldable pub dose_if_due : World F → Inputs → World F
  dose_if_due w n =
      if is_in w.state waiting_gap && ltb (elapsed n.gap_ms w.gap_started_at) gap_ms
      then w
      else process_pumps pump_count 0
          (record w { state = if is_in w.state waiting_gap then idle else w.state }) n

  -- loop() after the service of a running dose.
  unfoldable pub supervise : World F → Inputs → World F
  supervise w n =
      if w.ota_in_progress
      then stopped_all (record w { automatic_dosing_active = false })
      else if not (is_reliable n)
      then record (stopped_all w) { automatic_dosing_active = false }
      else dose_if_due
          (detect_missed_doses (record w { automatic_dosing_active = true }) n.local n.timestamp) n

  unfoldable pub loop : World F → Inputs → World F
  loop w n =
      if not w.has_pumps || not w.has_time || not w.has_driver
      then w
      else (let v = if is_in w.state running_pump then service_running_pump w n else w in
          if is_in v.state running_pump then v else supervise v n)

  -- begin(pumpManager, timeManager, pumpDriver).
  unfoldable pub begin : World F → Inputs → World F
  begin w n = record w {
    has_pumps = true;
    has_time = true;
    state = idle;
    automatic_dosing_active = is_reliable n;
  }

  unfoldable pub set_ota_in_progress : World F → Bool → World F
  set_ota_in_progress w in_progress = record w { ota_in_progress = in_progress }
