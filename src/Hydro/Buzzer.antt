-- ===== src/Hydro/Buzzer.antt =====
-- aquaOneHydro/src/hardware/Buzzer.cpp and aquaOneHydro/src/hydrosense/BuzzerController.cpp: the beeps of
-- an alarm. The readings of millis() are arguments; one update that resets the pattern reads `reset_ms`.
use aqua_one.Base.{
  ℕ, ◌+◌, ◌≤◌, ◌<◌, Bool, true, false, not, leb, if◌then◌else◌, ◌≡◌, ◌↔◌, elapsed, arith,
}
use aqua_one.Hydro.Alarm.{
  Alarm, Code, no_alarm, tank_sensor_fault, tank_level_low, tank_level_critical, pump_lockout,
  Severity, severity_of, calm, info, warning, grave,
}

pub record Buzzer : Type 0 where
  pub active_high : Bool
  pub pin_high : Bool
  pub is_on : Bool

write_state : Buzzer → Bool → Buzzer
write_state b enabled = record b {
  pin_high = if enabled then b.active_high else not b.active_high;
  is_on = enabled;
}

unfoldable pub buzzer_on : Buzzer → Buzzer
unfolding write_state
buzzer_on b = write_state b true

unfoldable pub buzzer_off : Buzzer → Buzzer
unfolding write_state
buzzer_off b = write_state b false

pub data PatternState : Type 0 where
  idle beep_on beep_off pause : PatternState

pub record BuzzerController : Type 0 where
  pub buzzer : Buzzer
  pub pattern_state : PatternState
  pub state_start_ms : ℕ
  pub beep_count : ℕ
  pub muted : Bool
  pub last_alarm_code : Code

reset_pattern : BuzzerController → ℕ → BuzzerController
unfolding buzzer_off
reset_pattern c ms = record c {
  buzzer = buzzer_off c.buzzer;
  pattern_state = idle;
  state_start_ms = ms;
  beep_count = 0;
}

unfoldable pub controller_begin : BuzzerController → ℕ → BuzzerController
unfolding reset_pattern buzzer_off
controller_begin c ms =
    reset_pattern
      (record c { buzzer = buzzer_off c.buzzer; muted = false; last_alarm_code = no_alarm }) ms

unfoldable pub mute : BuzzerController → ℕ → BuzzerController
unfolding reset_pattern buzzer_off
mute c ms = reset_pattern (record c { muted = true; buzzer = buzzer_off c.buzzer }) ms

update_warning : PatternState → BuzzerController → ℕ → BuzzerController
unfolding buzzer_on buzzer_off
update_warning idle c now = record c {
  buzzer = buzzer_on c.buzzer;
  pattern_state = beep_on;
  state_start_ms = now;
}
update_warning beep_on c now =
    if leb 150 (elapsed now c.state_start_ms)
    then record c { buzzer = buzzer_off c.buzzer; pattern_state = pause; state_start_ms = now }
    else c
update_warning pause c now =
    if leb 5000 (elapsed now c.state_start_ms) then record c { pattern_state = idle } else c
update_warning beep_off c now = record c { pattern_state = idle }

-- `++beepCount_` is on a uint8_t, which stays below 4 (`IsSteady.few`).
update_critical : PatternState → BuzzerController → ℕ → BuzzerController
unfolding buzzer_on buzzer_off
update_critical idle c now = record c {
  beep_count = 0;
  buzzer = buzzer_on c.buzzer;
  pattern_state = beep_on;
  state_start_ms = now;
}
update_critical beep_on c now =
    if leb 150 (elapsed now c.state_start_ms)
    then record c {
      buzzer = buzzer_off c.buzzer;
      beep_count = c.beep_count + 1;
      state_start_ms = now;
      pattern_state = if leb 3 (c.beep_count + 1) then pause else beep_off;
    }
    else c
update_critical beep_off c now =
    if leb 150 (elapsed now c.state_start_ms)
    then record c { buzzer = buzzer_on c.buzzer; pattern_state = beep_on; state_start_ms = now }
    else c
update_critical pause c now =
    if leb 3000 (elapsed now c.state_start_ms) then record c { pattern_state = idle } else c

abbrev pub same_code : Code → Code → Bool
same_code no_alarm no_alarm = true
same_code tank_sensor_fault tank_sensor_fault = true
same_code tank_level_low tank_level_low = true
same_code tank_level_critical tank_level_critical = true
same_code pump_lockout pump_lockout = true
same_code _ _ = false

notice : BuzzerController → Code → ℕ → BuzzerController
unfolding reset_pattern
notice c code ms =
    if same_code code c.last_alarm_code
    then c
    else record (reset_pattern (record c { muted = false }) ms) { last_alarm_code = code }

sound : BuzzerController → Severity → ℕ → ℕ → BuzzerController
unfolding buzzer_off reset_pattern update_warning update_critical
sound c warning now ms = update_warning c.pattern_state c now
sound c grave now ms = update_critical c.pattern_state c now
sound c info now ms = reset_pattern (record c { buzzer = buzzer_off c.buzzer }) ms
sound c calm now ms = reset_pattern (record c { buzzer = buzzer_off c.buzzer }) ms

unfoldable pub controller_update : BuzzerController → Alarm → ℕ → ℕ → BuzzerController
unfolding buzzer_off reset_pattern notice sound
controller_update c a now ms =
    if same_code a.code no_alarm
    then reset_pattern
        (record c { buzzer = buzzer_off c.buzzer; muted = false; last_alarm_code = no_alarm }) ms
    else (let d = notice c a.code ms in
        if d.muted then record d { buzzer = buzzer_off d.buzzer } else sound d a.severity now ms)

-- The buzzer sounds just in a beep, and a muted controller is silent; a series has at most three beeps.
pub record IsSteady (c : BuzzerController) : Type 0 where
  pub output :
      c.buzzer.pin_high
      ≡ (if c.buzzer.is_on then c.buzzer.active_high else not c.buzzer.active_high)
  pub beeping : (c.buzzer.is_on ≡ true) ↔ (c.pattern_state ≡ beep_on)
  pub silent : c.muted ≡ true → c.buzzer.is_on ≡ false
  pub few : c.beep_count ≤ 3
  pub beep_room : c.pattern_state ≡ beep_on → c.beep_count < 3
  pub plain : severity_of c.last_alarm_code ≡ warning → c.beep_count ≡ 0
  pub gap_room : c.pattern_state ≡ beep_off → c.beep_count < 3

pub mute-IsSteady : (c : BuzzerController) (ms : ℕ) → IsSteady c → IsSteady (mute c ms)
unfolding mute
mute-IsSteady c ms h = ground arith

pub controller_begin-IsSteady : (c : BuzzerController) (ms : ℕ) → IsSteady (controller_begin c ms)
unfolding controller_begin
controller_begin-IsSteady c ms = ground arith

-- Every update for an alarm whose severity is the one of its code keeps the buzzer in step.
pub controller_update-IsSteady :
    (c : BuzzerController) (a : Alarm) (now ms : ℕ)
    → a.severity ≡ severity_of a.code
    → IsSteady c
    → IsSteady (controller_update c a now ms)
unfolding controller_update
controller_update-IsSteady c a now ms m h = ground arith
