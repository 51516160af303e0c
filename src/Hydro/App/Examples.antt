-- ===== src/Hydro/App/Examples.antt =====
-- Cycles of the application.
use aqua_one.Base.{ℕ, true, false, ◌≡◌, refl, arith}
use aqua_one.Hydro.Floats.Whole.{whole}
use aqua_one.Hydro.Tank.{tank_update}
use aqua_one.Hydro.Reserve.{reserve_update, permits, allows_pump}
use aqua_one.Hydro.Topup.{pumping, update, set_pump_allowed}
use aqua_one.Hydro.Topup.Safety.{IsSafe}
use aqua_one.Hydro.Devices.{button_update, short_press, long_press, float_update}
use aqua_one.Hydro.App.{App, cycle, handle_restart_request}
use aqua_one.Hydro.App.Samples.{waits, app, inputs}
use aqua_one.Hydro.App.Safety.{cycle_pump_safe}

waits-IsSafe : IsSafe waits
waits-IsSafe = ground arith

-- A waiting controller whose start delay has passed pumps.
cycle_pumps : (cycle whole app inputs).topup.pump.pin_high ≡ true
unfolding cycle handle_restart_request update set_pump_allowed long_press short_press button_update
    allows_pump reserve_update tank_update float_update
cycle_pumps = refl

cycle_pump_safe_example :
    ((cycle whole app inputs).topup.state ≡ pumping)
    × ((cycle whole app inputs).topup.service_mode ≡ false)
    × ((cycle whole app inputs).tank.valid ≡ true)
    × (permits whole app.reserve (cycle whole app inputs).tank.level_percent ≡ true)
cycle_pump_safe_example = cycle_pump_safe whole app inputs waits-IsSafe cycle_pumps

abbrev pending : App ℕ
pending = record app { restart_pending = true; restart_requested_ms = 100 }

restarts : (handle_restart_request pending 5000 5000).restarted ≡ true
unfolding handle_restart_request
restarts = refl
