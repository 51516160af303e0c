-- ===== src/Hydro/Topup/Examples.antt =====
-- Runs of the top-up controller: three readings a second apart, with an active-low float switch.
use aqua_one.Base.{ℕ, true, false, ◌≡◌, refl, ◌<◌, ◌⊎◌, arith, elapsed, ◌↔◌, List, [], ◌∷◌, Bool}
use aqua_one.Hydro.Devices.{float_update}
use aqua_one.Hydro.Topup.{Topup, State, waiting, pumping, lockout, Readings, update, begin}
use aqua_one.Hydro.Topup.Safety.{IsSafe}
use aqua_one.Hydro.Topup.Timing.{LowWater, update_runtime}
use aqua_one.Hydro.Topup.Trace.{
  Call, run, updates, services, allows, run-begin_safe, lockout_persists,
}

-- A controller in a given state since 1 s, permitted to pump, with the water low.
abbrev at : State → Bool → Topup
at s on = record {
  pump = record { pin_high = on; is_on = on };
  float_sensor = record {
    active_low = true;
    debounce_ms = 100;
    raw_state = true;
    stable_state = true;
    last_change_ms = 0;
  };
  start_delay_ms = 3000;
  max_pump_runtime_ms = 120000;
  state = s;
  state_start_ms = 1000;
  service_mode = false;
  pump_allowed = true;
}

abbrev reads : ℕ → Readings
reads ms = record { pin_high = false; float_ms = ms; unblock_ms = ms; now = ms; enter_ms = ms }

at_pumping-IsSafe : IsSafe (at pumping true)
at_pumping-IsSafe = ground arith

abbrev cycles : List Call
cycles = allows true 5 ∷ updates (reads 10) ∷ services true 20 ∷ []

run-begin_safe_example :
    let u = run (begin (at pumping true) 0) cycles in
    ((u.pump.pin_high ≡ true) ↔ (u.state ≡ pumping))
    × (u.pump.pin_high ≡ true → (u.service_mode ≡ false) × (u.pump_allowed ≡ true))
run-begin_safe_example = run-begin_safe (at pumping true) 0 cycles

update_runtime_example :
    (((update (at pumping true) (reads 2000)).state_start_ms ≡ 2000) × (pumping ≡ waiting)
      ⊎ (elapsed 2000 1000 < 120000) × (pumping ≡ pumping))
    × LowWater (at pumping true) (reads 2000)
unfolding update float_update
update_runtime_example = update_runtime (at pumping true) (reads 2000) at_pumping-IsSafe refl

lockout_persists_example :
    ((run
        (at lockout false)
        (services true 2000 ∷ allows false 2500 ∷ updates (reads 3000) ∷ [])).state
      ≡ lockout)
    × ((run
          (at lockout false)
          (services true 2000 ∷ allows false 2500 ∷ updates (reads 3000) ∷ [])).pump.pin_high
        ≡ false)
lockout_persists_example =
    lockout_persists (at lockout false)
      (services true 2000 ∷ allows false 2500 ∷ updates (reads 3000) ∷ []) (ground arith) refl
      (refl, (refl, (refl, tt)))
