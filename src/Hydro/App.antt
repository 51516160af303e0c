-- ===== src/Hydro/App.antt =====
-- The control cycle of aquaOneHydro/src/app/HydroSenseApp.cpp, and the requests of the web page that
-- aquaOneHydro/src/web/HydroWebApplication.cpp executes in it. The network, the projections and the status
-- copy are left out. ESP.restart() is the flag `restarted`.
pub mod Safety
pub mod Samples
mod Examples
use aqua_one.Base.{ℕ, Bool, true, false, not, leb, if◌then◌else◌, ◌&&◌, elapsed, Option, none, some}
use aqua_one.Hydro.Floats.{Floats}
use aqua_one.Hydro.Devices.{Button, button_update, short_press, long_press, pump_off}
use aqua_one.Hydro.Topup.{
  Topup, Readings, set_service_mode, set_pump_allowed, update, reset_lockout,
}
use aqua_one.Hydro.Tank.{Tank, tank_update}
use aqua_one.Hydro.Reserve.{Reserve, reserve_update, allows_pump}
use aqua_one.Hydro.Alarm.{Alarm, alarm_update}
use aqua_one.Hydro.Buzzer.{BuzzerController, buzzer_off, controller_update, mute}

-- `saves b` is a SaveSettings request, and `b` whether the settings were accepted and stored.
pub data WebRequest : Type 0 where
  toggle_service_mode mute_buzzer reset : WebRequest
  saves : Bool → WebRequest

-- What a cycle reads from outside, `ms` being millis() where the order of its readings makes no
-- difference to what is modelled.
pub record Inputs : Type 0 where
  pub button_high : Bool
  pub button_ms : ℕ
  pub tank_ms : ℕ
  pub echo_us : ℕ
  pub series_ms : ℕ
  pub allow_ms : ℕ
  pub readings : Readings
  pub buzzer_ms : ℕ
  pub pattern_ms : ℕ
  pub request : Option WebRequest
  pub web_ms : ℕ
  pub request_ms : ℕ
  pub restart_ms : ℕ

pub record App (F : Type 0) : Type 0 where
  pub button : Button
  pub tank : Tank F
  pub reserve : Reserve F
  pub topup : Topup
  pub alarm : Alarm
  pub buzzer : BuzzerController
  pub restart_requested : Bool
  pub restart_pending : Bool
  pub restart_requested_ms : ℕ
  pub restarted : Bool

module _ {F : Type 0} where
  handle_button : App F → Inputs → App F
  handle_button a i =
      let (b, short) = short_press (button_update a.button i.button_high i.button_ms) in
      let (c, long) = long_press b in
      record a {
        button = c;
        buzzer = if short then mute a.buzzer i.button_ms else a.buzzer;
        topup =
            if long
            then set_service_mode a.topup (not a.topup.service_mode) i.button_ms
            else a.topup;
      }

  -- HydroWebApplication::execute.
  execute : App F → WebRequest → ℕ → App F
  execute a toggle_service_mode ms = record a {
    topup = set_service_mode a.topup (not a.topup.service_mode) ms;
  }
  execute a mute_buzzer ms = record a { buzzer = mute a.buzzer ms }
  execute a reset ms = record a { topup = reset_lockout a.topup ms }
  execute a (saves b) ms = record a { restart_requested = if b then true else a.restart_requested }

  process_one : App F → Option WebRequest → ℕ → App F
  unfolding execute
  process_one a none ms = a
  process_one a (some q) ms = execute a q ms

  unfoldable pub stop_pump : App F → App F
  stop_pump a = let t = a.topup in record a { topup = record t { pump = pump_off t.pump } }

  unfoldable pub note_restart : App F → ℕ → App F
  unfolding stop_pump
  note_restart a ms =
      if not a.restart_pending && a.restart_requested
      then record (stop_pump a) {
        restart_requested = false;
        restart_pending = true;
        restart_requested_ms = ms;
      }
      else a

  unfoldable pub silence : App F → App F
  silence a = let c = a.buzzer in record a { buzzer = record c { buzzer = buzzer_off c.buzzer } }

  unfoldable pub handle_restart_request : App F → ℕ → ℕ → App F
  unfolding stop_pump note_restart silence
  handle_restart_request a request_ms ms =
      let b = note_restart a request_ms in
      if b.restart_pending && leb 500 (elapsed ms b.restart_requested_ms)
      then silence (record (stop_pump b) { restarted = true })
      else b

module _ {F : Type 0} (𝓕 : Floats F) where
  -- The local part of update(): the measurements, the permission, the controller, the alarm.
  control : App F → Inputs → App F
  control a i =
      let t = tank_update 𝓕 a.tank i.tank_ms i.echo_us i.series_ms in
      let r = reserve_update 𝓕 a.reserve t in
      let c = update (set_pump_allowed a.topup (allows_pump r) i.allow_ms) i.readings in
      let m = alarm_update a.alarm t r c in
      record a {
        tank = t;
        reserve = r;
        topup = c;
        alarm = m;
        buzzer = controller_update a.buzzer m i.buzzer_ms i.pattern_ms;
      }

  unfoldable pub cycle : App F → Inputs → App F
  unfolding handle_button control process_one
  cycle a i =
      handle_restart_request (process_one (control (handle_button a i) i) i.request i.web_ms)
        i.request_ms i.restart_ms
