-- ===== src/Hydro/App/Samples.antt =====
-- An application with whole numbers for the floats: a tank that is 57 % full, and a controller that waits.
use aqua_one.Base.{ℕ, true, false, [], ◌∷◌, none}
use aqua_one.Hydro.Tank.{Tank}
use aqua_one.Hydro.Reserve.{ok}
use aqua_one.Hydro.Alarm.{no_alarm, calm}
use aqua_one.Hydro.Buzzer.{idle}
use aqua_one.Hydro.Topup.{Topup, waiting}
use aqua_one.Hydro.App.{App, Inputs}

abbrev pub tank : Tank ℕ
tank = record {
  sensor = record { min_distance = 2; max_distance = 450; distance = 20; valid = true };
  empty_distance = 40;
  full_distance = 5;
  sample_interval_ms = 80;
  max_failed_series = 3;
  samples = 20 ∷ 21 ∷ 19 ∷ 20 ∷ 0 ∷ [];
  attempts = 4;
  valid_samples = 4;
  failed_series = 0;
  last_sample_ms = 0;
  last_valid_reading_ms = 0;
  distance = 20;
  level = 20;
  level_percent = 57;
  valid = true;
  new_reading = false;
  sensor_fault = false;
}

abbrev pub waits : Topup
waits = record {
  pump = record { pin_high = false; is_on = false };
  float_sensor = record {
    active_low = true;
    debounce_ms = 100;
    raw_state = true;
    stable_state = true;
    last_change_ms = 0;
  };
  start_delay_ms = 3000;
  max_pump_runtime_ms = 120000;
  state = waiting;
  state_start_ms = 1000;
  service_mode = false;
  pump_allowed = true;
}

abbrev pub app : App ℕ
app = record {
  button = record {
    active_low = true;
    debounce_ms = 50;
    long_press_ms = 3000;
    raw_pressed = false;
    stable_pressed = false;
    long_press_reported = false;
    short_press_event = false;
    long_press_event = false;
    raw_change_ms = 0;
    press_start_ms = 0;
  };
  tank = tank;
  reserve = record { low_level = 25; critical_level = 10; hysteresis = 3; state = ok };
  topup = waits;
  alarm = record { code = no_alarm; severity = calm };
  buzzer = record {
    buzzer = record { active_high = true; pin_high = false; is_on = false };
    pattern_state = idle;
    state_start_ms = 0;
    beep_count = 0;
    muted = false;
    last_alarm_code = no_alarm;
  };
  restart_requested = false;
  restart_pending = false;
  restart_requested_ms = 0;
  restarted = false;
}

abbrev pub inputs : Inputs
inputs = record {
  button_high = true;
  button_ms = 5000;
  tank_ms = 50;
  echo_us = 40;
  series_ms = 5000;
  allow_ms = 5000;
  readings = record {
    pin_high = false;
    float_ms = 5000;
    unblock_ms = 5000;
    now = 5000;
    enter_ms = 5000;
  };
  buzzer_ms = 5000;
  pattern_ms = 5000;
  request = none;
  web_ms = 5000;
  request_ms = 5000;
  restart_ms = 5000;
}
