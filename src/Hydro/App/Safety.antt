-- ===== src/Hydro/App/Safety.antt =====
-- What keeps the pump off in a cycle of the application.
use aqua_one.Base.{
  ℕ, Bool, true, false, not, leb, if◌then◌else◌, ◌≡◌, refl, ◌≤◌, ◌∙◌, ◌&&◌, arith, elapsed,
  Bool-cases, inl, inr, Option, none, some,
}
use aqua_one.Hydro.Floats.{Floats}
use aqua_one.Hydro.Devices.{button_update, short_press, long_press, pump_off}
use aqua_one.Hydro.Topup.{pumping, set_service_mode}
use aqua_one.Hydro.Topup.Safety.{
  IsSafe, update-IsSafe, set_service_mode-IsSafe, set_pump_allowed-IsSafe, reset_lockout-IsSafe,
  pump_allowed-set_service_mode, pump_allowed-reset_lockout, set_pump_allowed_lem,
  pump_allowed-update,
}
use aqua_one.Hydro.Reserve.{permits, allows_pump-reserve_update}
use aqua_one.Hydro.App.{
  App, Inputs, WebRequest, toggle_service_mode, mute_buzzer, reset, saves, handle_button, control,
  process_one, stop_pump, note_restart, handle_restart_request, cycle,
}

module _ {F : Type 0} (𝓕 : Floats F) where
  stop_pump-IsSafe : (a : App F) → IsSafe a.topup → IsSafe (stop_pump a).topup
  unfolding stop_pump pump_off
  stop_pump-IsSafe a h = ground arith

  handle_button-IsSafe :
      (a : App F) (i : Inputs) → IsSafe a.topup → IsSafe (handle_button a i).topup
  unfolding handle_button
  handle_button-IsSafe a i h =
      pick (long_press (short_press (button_update a.button i.button_high i.button_ms)).0).1
    where
      pick :
          (b : Bool)
          → IsSafe (
              if b
              then set_service_mode a.topup (not a.topup.service_mode) i.button_ms
              else a.topup)
      pick true = set_service_mode-IsSafe a.topup (not a.topup.service_mode) i.button_ms h
      pick false = h

  control-IsSafe : (a : App F) (i : Inputs) → IsSafe a.topup → IsSafe (control 𝓕 a i).topup
  unfolding control
  control-IsSafe a i h = update-IsSafe _ i.readings (set_pump_allowed-IsSafe a.topup _ i.allow_ms h)

  -- What the permission of a controller that the control part leaves rests on.
  abbrev IsPermitted : App F → App F → Type 0
  IsPermitted a b =
      b.topup.pump_allowed ≡ (b.tank.valid && permits 𝓕 a.reserve b.tank.level_percent)

  control-IsPermitted : (a : App F) (i : Inputs) → IsPermitted a (control 𝓕 a i)
  unfolding control
  control-IsPermitted a i =
      pump_allowed-update _ i.readings
      ∙ set_pump_allowed_lem a.topup _ i.allow_ms
      ∙ allows_pump-reserve_update 𝓕 a.reserve _

  process_one-IsSafe :
      (a : App F) (q : Option WebRequest) (ms : ℕ)
      → IsSafe a.topup
      → IsSafe (process_one a q ms).topup
  unfolding process_one
  process_one-IsSafe a none ms h = h
  process_one-IsSafe a (some toggle_service_mode) ms h = set_service_mode-IsSafe a.topup _ ms h
  process_one-IsSafe a (some mute_buzzer) ms h = h
  process_one-IsSafe a (some reset) ms h = reset_lockout-IsSafe a.topup ms h
  process_one-IsSafe a (some (saves b)) ms h = h

  process_one-IsPermitted :
      (a b : App F) (q : Option WebRequest) (ms : ℕ)
      → IsPermitted a b
      → IsPermitted a (process_one b q ms)
  unfolding process_one
  process_one-IsPermitted a b none ms h = h
  process_one-IsPermitted a b (some toggle_service_mode) ms h =
      pump_allowed-set_service_mode b.topup _ ms ∙ h
  process_one-IsPermitted a b (some mute_buzzer) ms h = h
  process_one-IsPermitted a b (some reset) ms h = pump_allowed-reset_lockout b.topup ms ∙ h
  process_one-IsPermitted a b (some (saves c)) ms h = h

  -- What the restart request leaves of an application: a safe controller and its permission.
  IsKept : App F → App F → Type 0
  IsKept a b = IsSafe b.topup × IsPermitted a b

  note_restart-IsKept :
      (a b : App F) (ms : ℕ) → IsSafe b.topup → IsPermitted a b → IsKept a (note_restart b ms)
  unfolding note_restart IsKept
  note_restart-IsKept a b ms h p =
      elim (Bool-cases (not b.restart_pending && b.restart_requested)) [
        | inl e ↦ rw e (stop_pump-IsSafe b h, p)
        | inr e ↦ rw e (h, p)
      ]

  handle_restart_request-IsKept :
      (a b : App F) (m n : ℕ)
      → IsSafe b.topup
      → IsPermitted a b
      → IsKept a (handle_restart_request b m n)
  unfolding handle_restart_request IsKept
  handle_restart_request-IsKept a b m n h p =
      let c = note_restart b m in
      let k : IsSafe c.topup × IsPermitted a c = note_restart-IsKept a b m h p in
      elim (Bool-cases (c.restart_pending && leb 500 (elapsed n c.restart_requested_ms))) [
        | inl e ↦ rw e (stop_pump-IsSafe c k.0, k.1)
        | inr e ↦ rw e k
      ]

  cycle-IsKept : (a : App F) (i : Inputs) → IsSafe a.topup → IsKept a (cycle 𝓕 a i)
  unfolding cycle handle_button
  cycle-IsKept a i h =
      let b = handle_button a i in
      let c = control 𝓕 b i in
      handle_restart_request-IsKept a (process_one c i.request i.web_ms) i.request_ms i.restart_ms
        (process_one-IsSafe c i.request i.web_ms (control-IsSafe b i (handle_button-IsSafe a i h)))
        (process_one-IsPermitted a c i.request i.web_ms (control-IsPermitted b i))

  -- After any cycle of the application, whatever the button, the web page and the sensors bring, the
  -- pump runs only in Pumping, out of service mode, on a valid measurement of the reserve, at a level
  -- that permits it: above the critical one, or past the hysteresis if the reserve was critical.
  pub cycle_pump_safe :
      (a : App F) (i : Inputs)
      → IsSafe a.topup
      → (cycle 𝓕 a i).topup.pump.pin_high ≡ true
      → ((cycle 𝓕 a i).topup.state ≡ pumping)
        × ((cycle 𝓕 a i).topup.service_mode ≡ false)
        × ((cycle 𝓕 a i).tank.valid ≡ true)
        × (permits 𝓕 a.reserve (cycle 𝓕 a i).tank.level_percent ≡ true)
  unfolding IsKept
  cycle_pump_safe a i h on = ground (arith, cycle-IsKept a i h)

  -- The cycle keeps the controller safe, so the above holds of every cycle of a run.
  pub cycle-IsSafe : (a : App F) (i : Inputs) → IsSafe a.topup → IsSafe (cycle 𝓕 a i).topup
  unfolding IsKept
  cycle-IsSafe a i h = (cycle-IsKept a i h).0

module _ {F : Type 0} where
  restarted-note_restart : (a : App F) (ms : ℕ) → (note_restart a ms).restarted ≡ a.restarted
  unfolding note_restart
  restarted-note_restart a ms = elim (Bool-cases (not a.restart_pending && a.restart_requested)) [
    | inl e ↦ rw e
    | inr e ↦ rw e
  ]

  -- When the device restarts, at least 500 ms after the request was noted, the pump is off.
  pub handle_restart_request_stops :
      (a : App F) (m n : ℕ)
      → a.restarted ≡ false
      → (handle_restart_request a m n).restarted ≡ true
      → ((handle_restart_request a m n).topup.pump.pin_high ≡ false)
        × (500 ≤ elapsed n (note_restart a m).restart_requested_ms)
  unfolding handle_restart_request pump_off
  handle_restart_request_stops a m n fresh h =
      let c = note_restart a m in
      elim (Bool-cases (c.restart_pending && leb 500 (elapsed n c.restart_requested_ms))) [
        | inl e ↦ rw e (refl, ground arith)
        | inr e ↦ let still : c.restarted ≡ true = (rw e at h) in cc (restarted-note_restart a m)
      ]
