-- ===== src/Hydro/Examples.antt =====
-- Runs of the reserve, the alarm and the buzzer.
use aqua_one.Base.{refl, true, false, arith}
use aqua_one.Hydro.Alarm.{Alarm, tank_level_low, warning}
use aqua_one.Hydro.Buzzer.{
  BuzzerController, beep_on, IsSteady, controller_update, controller_update-IsSteady,
}

abbrev alarm : Alarm
alarm = record { code = tank_level_low; severity = warning }

abbrev beeping : BuzzerController
beeping = record {
  buzzer = record { active_high = true; pin_high = true; is_on = true };
  pattern_state = beep_on;
  state_start_ms = 1000;
  beep_count = 0;
  muted = false;
  last_alarm_code = tank_level_low;
}

controller_update-IsSteady_example : IsSteady (controller_update beeping alarm 1200 1200)
controller_update-IsSteady_example =
    controller_update-IsSteady beeping alarm 1200 1200 refl (ground arith)
