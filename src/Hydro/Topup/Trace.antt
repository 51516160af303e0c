-- ===== src/Hydro/Topup/Trace.antt =====
-- Histories of the controller: any calls of its operations, in any order.
use aqua_one.Base.{ℕ, Bool, true, false, ◌≡◌, ◌↔◌, List, [], ◌∷◌, arith}
use aqua_one.Hydro.Topup.{
  Topup, pumping, lockout, Readings, configure, begin, update, set_service_mode, set_pump_allowed,
  reset_lockout,
}
use aqua_one.Hydro.Topup.Safety.{
  IsSafe, begin-IsSafe, configure-IsSafe, update-IsSafe, set_service_mode-IsSafe,
  set_pump_allowed-IsSafe, reset_lockout-IsSafe, IsDriven, begin-IsDriven, configure-IsDriven,
  update-IsDriven, set_service_mode-IsDriven, set_pump_allowed-IsDriven, reset_lockout-IsDriven,
}

pub data Call : Type 0 where
  configures : ℕ → ℕ → Call
  updates : Readings → Call
  services : Bool → ℕ → Call
  allows : Bool → ℕ → Call
  resets : ℕ → Call

unfoldable pub call : Topup → Call → Topup
call t (configures a b) = configure t a b
call t (updates r) = update t r
call t (services b ms) = set_service_mode t b ms
call t (allows b ms) = set_pump_allowed t b ms
call t (resets ms) = reset_lockout t ms

unfoldable pub run : Topup → List Call → Topup
run t [] = t
run t (c ∷ cs) = run (call t c) cs

call-IsSafe : (t : Topup) (c : Call) → IsSafe t → IsSafe (call t c)
unfolding call
call-IsSafe t (configures a b) h = configure-IsSafe t a b h
call-IsSafe t (updates r) h = update-IsSafe t r h
call-IsSafe t (services b ms) h = set_service_mode-IsSafe t b ms h
call-IsSafe t (allows b ms) h = set_pump_allowed-IsSafe t b ms h
call-IsSafe t (resets ms) h = reset_lockout-IsSafe t ms h

pub run-IsSafe : (t : Topup) (cs : List Call) → IsSafe t → IsSafe (run t cs)
unfolding run
run-IsSafe t [] h = h
run-IsSafe t (c ∷ cs) h = run-IsSafe (call t c) cs (call-IsSafe t c h)

call-IsDriven : (t : Topup) (c : Call) → IsSafe t → IsDriven t → IsDriven (call t c)
unfolding call
call-IsDriven t (configures a b) h d = configure-IsDriven t a b d
call-IsDriven t (updates r) h d = update-IsDriven t r h d
call-IsDriven t (services b ms) h d = set_service_mode-IsDriven t b ms d
call-IsDriven t (allows b ms) h d = set_pump_allowed-IsDriven t b ms d
call-IsDriven t (resets ms) h d = reset_lockout-IsDriven t ms

run-IsDriven : (t : Topup) (cs : List Call) → IsSafe t → IsDriven t → IsDriven (run t cs)
unfolding run
run-IsDriven t [] h d = d
run-IsDriven t (c ∷ cs) h d = run-IsDriven (call t c) cs (call-IsSafe t c h) (call-IsDriven t c h d)

-- After begin() and any calls of the controller's operations, in any order, the pump's pin is high just
-- when the controller is in Pumping, and then service mode is off and the permission is given.
pub run-begin_safe :
    (t : Topup) (ms : ℕ) (cs : List Call)
    → let u = run (begin t ms) cs in
      ((u.pump.pin_high ≡ true) ↔ (u.state ≡ pumping))
      × (u.pump.pin_high ≡ true → (u.service_mode ≡ false) × (u.pump_allowed ≡ true))
run-begin_safe t ms cs = ground (
  arith,
  run-IsSafe (begin t ms) cs (begin-IsSafe t ms),
  run-IsDriven (begin t ms) cs (begin-IsSafe t ms) (begin-IsDriven t ms),
)

abbrev is_reset : Call → Bool
is_reset (resets ms) = true
is_reset _ = false

abbrev pub NoReset : List Call → Type 0
NoReset [] = Unit {0}
NoReset (c ∷ cs) = (is_reset c ≡ false) × NoReset cs

call_locked :
    (t : Topup) (c : Call) → t.state ≡ lockout → is_reset c ≡ false → (call t c).state ≡ lockout
unfolding call configure update set_service_mode set_pump_allowed
call_locked t (configures a b) l n = l
call_locked t (updates r) l n = ground arith
call_locked t (services b ms) l n = ground arith
call_locked t (allows b ms) l n = ground arith
call_locked t (resets ms) l n = cc

run_locked :
    (t : Topup) (cs : List Call) → t.state ≡ lockout → NoReset cs → (run t cs).state ≡ lockout
unfolding run
run_locked t [] l n = l
run_locked t (c ∷ cs) l n = run_locked (call t c) cs (call_locked t c l n.0) n.1

-- A locked-out controller stays locked out with the pump off through any calls but resetLockout():
-- neither a change of service mode nor of the permission releases it.
pub lockout_persists :
    (t : Topup) (cs : List Call)
    → IsSafe t
    → t.state ≡ lockout
    → NoReset cs
    → ((run t cs).state ≡ lockout) × ((run t cs).pump.pin_high ≡ false)
lockout_persists t cs h l n = ground (arith, run_locked t cs l n, run-IsSafe t cs h)
