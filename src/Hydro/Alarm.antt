-- ===== src/Hydro/Alarm.antt =====
-- aquaOneHydro/src/hydrosense/AlarmManager.cpp: the one alarm shown, by priority.
use aqua_one.Base.{Bool, true, false, if◌then◌else◌, ◌≡◌, ◌↔◌, ◌⊎◌, arith}
use aqua_one.Hydro.Topup.{Topup, State, lockout, is_lockout}
use aqua_one.Hydro.Tank.{Tank}
use aqua_one.Hydro.Reserve.{Reserve, ReserveState, critical, is_low, is_critical}

pub data Severity : Type 0 where
  calm info warning grave : Severity

pub data Code : Type 0 where
  no_alarm tank_sensor_fault tank_level_low tank_level_critical pump_lockout : Code

pub record Alarm : Type 0 where
  pub code : Code
  pub severity : Severity

-- The severity that update() gives with each code.
abbrev pub severity_of : Code → Severity
severity_of no_alarm = calm
severity_of tank_level_low = warning
severity_of _ = grave

clear_alarm : Alarm → Alarm
clear_alarm a = record { code = no_alarm; severity = calm }

unfoldable pub alarm_begin : Alarm → Alarm
unfolding clear_alarm
alarm_begin a = clear_alarm a

set_alarm : Alarm → Code → Severity → Alarm
set_alarm a code severity = record { code = code; severity = severity }

-- What update() asks of the controller, the tank and the reserve.
choose : Alarm → State → Bool → ReserveState → Alarm
unfolding clear_alarm set_alarm
choose a s fault r =
    if is_lockout s
    then set_alarm a pump_lockout grave
    else if fault
    then set_alarm a tank_sensor_fault grave
    else if is_critical r
    then set_alarm a tank_level_critical grave
    else if is_low r
    then set_alarm a tank_level_low warning
    else clear_alarm a

unfoldable pub alarm_update : {F : Type 0} → Alarm → Tank F → Reserve F → Topup → Alarm
unfolding choose
alarm_update a t r c = choose a c.state t.sensor_fault r.state

choose_lem :
    (a : Alarm) (s : State) (fault : Bool) (r : ReserveState)
    → (((choose a s fault r).code ≡ no_alarm)
        ↔ ((is_lockout s ≡ false) × (fault ≡ false) × (is_critical r ≡ false) × (is_low r ≡ false)))
      × (((choose a s fault r).severity ≡ grave)
          ↔ ((s ≡ lockout) ⊎ (fault ≡ true) ⊎ (r ≡ critical)))
      × (((choose a s fault r).code ≡ pump_lockout) ↔ (s ≡ lockout))
unfolding choose
choose_lem a s fault r = ground arith

-- After an update no alarm is shown just when the controller is not locked out, the sensor is sound and
-- the reserve neither low nor critical; the alarm is critical just on a lockout, a sensor fault or a
-- critical reserve; and a lockout is never hidden by another alarm.
pub alarm_update_lem :
    {F : Type 0} (a : Alarm) (t : Tank F) (r : Reserve F) (c : Topup)
    → (((alarm_update a t r c).code ≡ no_alarm) ↔ (
        (is_lockout c.state ≡ false)
        × (t.sensor_fault ≡ false)
        × (is_critical r.state ≡ false)
        × (is_low r.state ≡ false)))
      × (((alarm_update a t r c).severity ≡ grave)
          ↔ ((c.state ≡ lockout) ⊎ (t.sensor_fault ≡ true) ⊎ (r.state ≡ critical)))
      × (((alarm_update a t r c).code ≡ pump_lockout) ↔ (c.state ≡ lockout))
unfolding alarm_update
alarm_update_lem a t r c = choose_lem a c.state t.sensor_fault r.state

pub alarm_update_matched :
    {F : Type 0} (a : Alarm) (t : Tank F) (r : Reserve F) (c : Topup)
    → (alarm_update a t r c).severity ≡ severity_of (alarm_update a t r c).code
unfolding alarm_update
alarm_update_matched a t r c = matched a c.state t.sensor_fault r.state
  where
    matched :
        (a : Alarm) (s : State) (fault : Bool) (r : ReserveState)
        → (choose a s fault r).severity ≡ severity_of (choose a s fault r).code
    matched a s fault r = ground arith
