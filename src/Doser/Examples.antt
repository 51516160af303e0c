-- ===== src/Doser/Examples.antt =====
-- Runs of the pump outputs and of the scheduler: whole numbers for the floats, and a calendar of one month.
use aqua_one.Base.{
  ℕ, zero, suc, ◌+◌, ◌*◌, ◌/◌, ◌-◌, ◌%◌, ◌<◌, ◌≤◌, ◌≡◌, refl, Bool, true, false, List, [], ◌∷◌,
  replicate, none, some, ltb, leb, arith, elapsed, get_or,
}
use aqua_one.Doser.Driver.{
  Driver, no_reason, begin, driver_loop, maximum_ms, is_running, start_pump,
}
use aqua_one.Doser.Driver.Trace.{
  starts, loops, Call, call, run, last_start, run-begin_exclusive, driver_loop_limit,
}
use aqua_one.Doser.Pumps.{Doses, PumpConfig, get_pump}
use aqua_one.Doser.Pumps.Within.{IsWithin, AreWithin}
use aqua_one.Doser.Pumps.Limits.{doses, change, Taken, change-AreWithin}
use aqua_one.Doser.Scheduler.{Tm, Calendar, World, Inputs, idle, running_pump}
use aqua_one.Doser.Scheduler.Loop.{
  is_in, loop, supervise, dose_if_due, process_pumps, process_pump, start_dose, is_dosable,
  detect_missed_doses, runtime_of, detect_from, is_missed,
}
use aqua_one.Doser.Scheduler.Loop
use aqua_one.Doser.Scheduler.Passes.{passes, passes-begin_idle}

abbrev cold : Driver
cold = record {
  initialized = false;
  high = replicate 8 false;
  running = replicate 8 false;
  running_pump = none;
  last_stopped_pump = none;
  started_at = 0;
  last_stop_reason = no_reason;
}

abbrev calls : List Call
calls = starts 3 100 ∷ starts 5 200 ∷ loops 300 ∷ []

pump_3_on : get_or (run (begin cold) calls).high 3 false ≡ true
unfolding run begin call start_pump driver_loop
pump_3_on = refl

run-begin_exclusive_example :
    ((run (begin cold) calls).running_pump ≡ some 3)
    × (is_running (run (begin cold) calls) 3 ≡ true)
    × (get_or (run (begin cold) calls).high 5 false ≡ true → ◌≡◌ {A = ℕ} 3 5)
run-begin_exclusive_example = run-begin_exclusive cold calls 3 5 pump_3_on

driver_loop_limit_example :
    let r = run (begin cold) calls in
    let passed = elapsed 70000 (last_start (begin cold) calls (begin cold).started_at) in
    (maximum_ms < passed → (i : ℕ) → get_or (driver_loop r 70000).high i false ≡ false)
    × (passed ≤ maximum_ms → driver_loop r 70000 ≡ r)
driver_loop_limit_example = driver_loop_limit cold calls 70000

abbrev whole : Doses ℕ
whole = record {
  lt = ltb;
  le = leb;
  sub = ◌-◌;
  div = ◌/◌;
  is_finite = λ _. true;
  runtime_ms = λ s. s * 1000;
  zero_f = 0;
  max_single_dose = 100;
  max_remaining = 10000;
  max_runtime_sec = 60;
}

abbrev on_day : ℕ → ℕ → ℕ → Tm
on_day day hour minute = record {
  tm_year = 123;
  tm_mon = 10;
  tm_mday = day;
  tm_hour = hour;
  tm_min = minute;
  tm_sec = 0;
  tm_wday = day % 7;
  tm_isdst = none;
}

abbrev month : Calendar
month = record {
  mktime = λ t. some (1700000000 + t.tm_mday * 86400 + t.tm_hour * 3600 + t.tm_min * 60);
  localtime = λ s. let m = (s - 1700000000) / 60 in on_day (m / 1440) (m % 1440 / 60) (m % 60);
}

-- A pump that doses 10 ml at 8:00 every day.
abbrev daily : PumpConfig ℕ
daily = record {
  enabled = true;
  name = [];
  calibration = 2;
  dose = 10;
  hour = 8;
  minute = 0;
  days_mask = 127;
  remaining = 50;
  reservoir_set_timestamp = 0;
  last_dose_date = 0;
  last_missed_dose_date = 0;
}

abbrev world : Bool → Bool → World ℕ
world has_driver ota = record {
  has_pumps = true;
  has_time = true;
  has_driver = has_driver;
  state = idle;
  gap_started_at = 0;
  pump_started_at = 0;
  planned_runtime_ms = 0;
  active_pump = none;
  active_event_date = 0;
  automatic_dosing_active = false;
  ota_in_progress = ota;
  driver = record cold { initialized = true };
  pumps = replicate 8 daily;
  writes = [];
}

-- 8:02 on the fifth.
abbrev inputs : Inputs
inputs = record {
  time_valid = true;
  timestamp = 1700460920;
  local = on_day 5 8 2;
  service_ms = 5000;
  enter_ms = 5000;
  gap_ms = 5000;
  driver_ms = 5000;
  start_ms = 5000;
}

passes-begin_idle_example :
    passes whole month (Loop.begin whole month (world false false) inputs) (inputs ∷ inputs ∷ [])
    ≡ Loop.begin whole month (world false false) inputs
passes-begin_idle_example =
    passes-begin_idle whole month (world false false) inputs (inputs ∷ inputs ∷ []) refl

-- A dose of pump 0 that has run for its 5 seconds.
abbrev dosing : World ℕ
dosing = record (world true false) {
  state = running_pump;
  active_pump = some 0;
  active_event_date = 20231105;
  pump_started_at = 5000;
  planned_runtime_ms = 5000;
  driver = (start_pump (world true false).driver 0 5000).0;
}

daily-IsWithin : IsWithin whole daily
daily-IsWithin = record {
  dose_fits = record { finite = refl; positive = refl; bounded = refl };
  remaining_fits = record { finite = refl; positive = refl; bounded = refl };
  calibration_fits = (refl, refl);
  hour_fits = refl;
  minute_fits = refl;
  days_fit = refl;
  name_fits = refl;
}

all_daily : (n i : ℕ) → i < n → IsWithin whole (get_pump whole (replicate n daily) i)
all_daily zero i h = elim h [ ]
all_daily (suc n) zero h = daily-IsWithin
all_daily (suc n) (suc i) h = all_daily n i (omega arith)

change-AreWithin_example :
    AreWithin whole (change whole (replicate 8 daily) 3 (doses 20)).0
    × Taken whole (replicate 8 daily) 3 (doses 20) (change whole (replicate 8 daily) 3 (doses 20))
change-AreWithin_example =
    change-AreWithin whole (replicate 8 daily) 3 (doses 20)
      (record { eight = refl; each = λ i h. all_daily 8 i h })
