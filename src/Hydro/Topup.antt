-- ===== src/Hydro/Topup.antt =====
-- aquaOneHydro/src/hydrosense/TopupController.cpp. The pump and the float sensor are borrowed by the
-- controller; the record holds the one instance of each. Every reading of millis() is an argument.
pub mod Safety
pub mod Timing
pub mod Trace
mod Examples
use aqua_one.Base.{ℕ, Bool, true, false, not, ◌&&◌, ◌||◌, leb, same, if◌then◌else◌, elapsed}
use aqua_one.Hydro.Devices.{Pump, pump_on, pump_off, FloatSensor, float_update}

pub data State : Type 0 where
  idle waiting pumping blocked lockout : State

pub record Topup : Type 0 where
  pub pump : Pump
  pub float_sensor : FloatSensor
  pub start_delay_ms : ℕ
  pub max_pump_runtime_ms : ℕ
  pub state : State
  pub state_start_ms : ℕ
  pub service_mode : Bool
  pub pump_allowed : Bool

-- What one call of update() reads: the float sensor's pin, the millis() of its update, of leaving
-- Blocked, of the controller itself, and of entering a state.
pub record Readings : Type 0 where
  pub pin_high : Bool
  pub float_ms : ℕ
  pub unblock_ms : ℕ
  pub now : ℕ
  pub enter_ms : ℕ

abbrev is_pumping : State → Bool
is_pumping pumping = true
is_pumping _ = false

abbrev pub is_lockout : State → Bool
is_lockout lockout = true
is_lockout _ = false

abbrev is_blocked : State → Bool
is_blocked blocked = true
is_blocked _ = false

switch_off : Topup → Topup
unfolding pump_off
switch_off t = record t { pump = pump_off t.pump }

unfoldable pub enter_state : Topup → State → ℕ → Topup
unfolding pump_on pump_off
enter_state t new ms = record t {
  state = new;
  state_start_ms = ms;
  pump =
      if is_pumping new && (not t.service_mode && t.pump_allowed)
      then pump_on t.pump
      else pump_off t.pump;
}

unfoldable pub configure : Topup → ℕ → ℕ → Topup
configure t start_delay_ms max_pump_runtime_ms = record t {
  start_delay_ms = start_delay_ms;
  max_pump_runtime_ms = max_pump_runtime_ms;
}

unfoldable pub begin : Topup → ℕ → Topup
unfolding switch_off
begin t ms = record (switch_off t) {
  service_mode = false;
  pump_allowed = false;
  state = idle;
  state_start_ms = ms;
}

-- The branch of update() without the permission to pump.
withhold : Topup → ℕ → Topup
unfolding switch_off enter_state
withhold t ms =
    let off = switch_off t in
    if is_lockout t.state || is_blocked t.state then off else enter_state off blocked ms

resume : Topup → ℕ → Topup
unfolding enter_state
resume t ms = if is_blocked t.state then enter_state t idle ms else t

-- The switch of update(), on the state and the debounced float sensor.
run_state : State → Topup → Bool → ℕ → ℕ → Topup
unfolding switch_off enter_state
run_state idle t low_water now ms =
    let off = switch_off t in if low_water then enter_state off waiting ms else off
run_state waiting t low_water now ms =
    let off = switch_off t in
    if not low_water
    then enter_state off idle ms
    else if leb t.start_delay_ms (elapsed now t.state_start_ms)
    then enter_state off pumping ms
    else off
run_state pumping t low_water now ms =
    if not low_water
    then enter_state t idle ms
    else if leb t.max_pump_runtime_ms (elapsed now t.state_start_ms)
    then enter_state t lockout ms
    else t
run_state blocked t low_water now ms = switch_off t
run_state lockout t low_water now ms = switch_off t

unfoldable pub update : Topup → Readings → Topup
unfolding switch_off withhold resume run_state
update t r =
    let s = record t { float_sensor = float_update t.float_sensor r.pin_high r.float_ms } in
    if s.service_mode
    then switch_off s
    else if not s.pump_allowed
    then withhold s r.enter_ms
    else (let u = resume s r.unblock_ms in
        run_state u.state u u.float_sensor.stable_state r.now r.enter_ms)

unfoldable pub set_service_mode : Topup → Bool → ℕ → Topup
unfolding switch_off enter_state
set_service_mode t enabled ms =
    if same t.service_mode enabled
    then t
    else (let s = switch_off (record t { service_mode = enabled }) in
        if is_lockout s.state
        then s
        else enter_state s (if s.pump_allowed then idle else blocked) ms)

unfoldable pub set_pump_allowed : Topup → Bool → ℕ → Topup
unfolding switch_off enter_state
set_pump_allowed t allowed ms =
    if same t.pump_allowed allowed
    then t
    else (let s = record t { pump_allowed = allowed } in
        if s.pump_allowed
        then s
        else (let off = switch_off s in
            if is_lockout off.state then off else enter_state off blocked ms))

unfoldable pub reset_lockout : Topup → ℕ → Topup
unfolding switch_off enter_state
reset_lockout t ms =
    let off = switch_off t in enter_state off (if off.pump_allowed then idle else blocked) ms

abbrev pub is_locked : Topup → Bool
is_locked t = is_lockout t.state
