-- ===== src/Hydro/Topup/Timing.antt =====
-- How long the controller waits before it pumps, and how long it pumps.
use aqua_one.Base.{◌≤◌, ◌<◌, true, false, ◌≡◌, ◌⊎◌, arith, elapsed}
use aqua_one.Hydro.Devices.{float_update}
use aqua_one.Hydro.Topup.{Topup, idle, waiting, pumping, lockout, Readings, update}
use aqua_one.Hydro.Topup.Safety.{IsSafe, IsDriven}

-- The debounced water level that this update works on.
abbrev pub LowWater : Topup → Readings → Type 0
LowWater t r = (float_update t.float_sensor r.pin_high r.float_ms).stable_state ≡ true

-- After an update of a safe controller that leaves the pump on, the pump was started by this very
-- update, or it has run for less than the limit by the clock that the update read; and the water is low.
pub update_runtime :
    (t : Topup) (r : Readings)
    → IsSafe t
    → (update t r).pump.pin_high ≡ true
    → (((update t r).state_start_ms ≡ r.enter_ms) × (t.state ≡ waiting)
        ⊎ (elapsed r.now t.state_start_ms < t.max_pump_runtime_ms) × (t.state ≡ pumping))
      × LowWater t r
unfolding update
update_runtime t r h on = ground arith

-- An update turns the pump on only from Waiting, with the water low and the start delay passed.
pub update_start :
    (t : Topup) (r : Readings)
    → t.pump.pin_high ≡ false
    → t.pump.is_on ≡ false
    → (update t r).pump.pin_high ≡ true
    → (t.state ≡ waiting)
      × (t.start_delay_ms ≤ elapsed r.now t.state_start_ms)
      × LowWater t r
      × (t.service_mode ≡ false)
      × (t.pump_allowed ≡ true)
unfolding update
update_start t r off unmarked on = ground arith

-- Of a controller whose pump does run in Pumping: pumping for the whole limit without the water
-- rising ends in Lockout with the pump off.
pub update_cutoff :
    (t : Topup) (r : Readings)
    → IsSafe t
    → IsDriven t
    → t.state ≡ pumping
    → LowWater t r
    → t.max_pump_runtime_ms ≤ elapsed r.now t.state_start_ms
    → ((update t r).state ≡ lockout) × ((update t r).pump.pin_high ≡ false)
unfolding update
update_cutoff t r h d p low late = ground arith

-- With permission, out of service and with the water low in two updates, the second after the start
-- delay, an idle controller pumps.
pub update_reaches_pumping :
    (t : Topup) (r s : Readings)
    → t.state ≡ idle
    → t.service_mode ≡ false
    → t.pump_allowed ≡ true
    → LowWater t r
    → LowWater (update t r) s
    → t.start_delay_ms ≤ elapsed s.now r.enter_ms
    → (update (update t r) s).pump.pin_high ≡ true
unfolding update
update_reaches_pumping t r s i v p low still delay = ground arith
