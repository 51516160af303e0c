-- ===== src/Hydro/Topup/Safety.antt =====
-- When the pump runs, and that every operation keeps it so.
use aqua_one.Base.{ℕ, Bool, true, false, ◌≡◌, arith}
use aqua_one.Hydro.Topup.{
  Topup, pumping, Readings, configure, begin, update, set_service_mode, set_pump_allowed,
  reset_lockout,
}

-- The output pin is high only in Pumping, out of service mode and with the permission given.
pub record IsSafe (t : Topup) : Type 0 where
  pub output : t.pump.pin_high ≡ t.pump.is_on
  pub running : t.pump.is_on ≡ true → t.state ≡ pumping
  pub served : t.pump.is_on ≡ true → t.service_mode ≡ false
  pub allowed : t.pump.is_on ≡ true → t.pump_allowed ≡ true

pub begin-IsSafe : (t : Topup) (ms : ℕ) → IsSafe (begin t ms)
unfolding begin
begin-IsSafe t ms = ground arith

pub configure-IsSafe : (t : Topup) (a b : ℕ) → IsSafe t → IsSafe (configure t a b)
unfolding configure
configure-IsSafe t a b h = ground arith

pub update-IsSafe : (t : Topup) (r : Readings) → IsSafe t → IsSafe (update t r)
unfolding update
update-IsSafe t r h = ground arith

pub set_service_mode-IsSafe :
    (t : Topup) (b : Bool) (ms : ℕ) → IsSafe t → IsSafe (set_service_mode t b ms)
unfolding set_service_mode
set_service_mode-IsSafe t b ms h = ground arith

pub set_pump_allowed-IsSafe :
    (t : Topup) (b : Bool) (ms : ℕ) → IsSafe t → IsSafe (set_pump_allowed t b ms)
unfolding set_pump_allowed
set_pump_allowed-IsSafe t b ms h = ground arith

pub reset_lockout-IsSafe : (t : Topup) (ms : ℕ) → IsSafe t → IsSafe (reset_lockout t ms)
unfolding reset_lockout
reset_lockout-IsSafe t ms h = ground arith

-- Withdrawing the permission turns the pump off at once, whatever the state was.
pub set_pump_allowed-stops :
    (t : Topup) (ms : ℕ) → IsSafe t → (set_pump_allowed t false ms).pump.pin_high ≡ false
unfolding set_pump_allowed
set_pump_allowed-stops t ms h = ground arith

-- Until the application turns the pump off itself, in Pumping the pump does run.
abbrev pub IsDriven : Topup → Type 0
IsDriven t = t.state ≡ pumping → t.pump.is_on ≡ true

pub begin-IsDriven : (t : Topup) (ms : ℕ) → IsDriven (begin t ms)
unfolding begin
begin-IsDriven t ms = ground arith

pub configure-IsDriven : (t : Topup) (a b : ℕ) → IsDriven t → IsDriven (configure t a b)
unfolding configure
configure-IsDriven t a b d = ground arith

pub update-IsDriven : (t : Topup) (r : Readings) → IsSafe t → IsDriven t → IsDriven (update t r)
unfolding update
update-IsDriven t r h d = ground arith

pub set_service_mode-IsDriven :
    (t : Topup) (b : Bool) (ms : ℕ) → IsDriven t → IsDriven (set_service_mode t b ms)
unfolding set_service_mode
set_service_mode-IsDriven t b ms d = ground arith

pub set_pump_allowed-IsDriven :
    (t : Topup) (b : Bool) (ms : ℕ) → IsDriven t → IsDriven (set_pump_allowed t b ms)
unfolding set_pump_allowed
set_pump_allowed-IsDriven t b ms d = ground arith

pub reset_lockout-IsDriven : (t : Topup) (ms : ℕ) → IsDriven (reset_lockout t ms)
unfolding reset_lockout
reset_lockout-IsDriven t ms = ground arith

pub set_pump_allowed_lem :
    (t : Topup) (b : Bool) (ms : ℕ) → (set_pump_allowed t b ms).pump_allowed ≡ b
unfolding set_pump_allowed
set_pump_allowed_lem t b ms = ground arith

pub pump_allowed-update : (t : Topup) (r : Readings) → (update t r).pump_allowed ≡ t.pump_allowed
unfolding update
pump_allowed-update t r = ground arith

pub pump_allowed-set_service_mode :
    (t : Topup) (b : Bool) (ms : ℕ) → (set_service_mode t b ms).pump_allowed ≡ t.pump_allowed
unfolding set_service_mode
pump_allowed-set_service_mode t b ms = ground arith

pub pump_allowed-reset_lockout :
    (t : Topup) (ms : ℕ) → (reset_lockout t ms).pump_allowed ≡ t.pump_allowed
unfolding reset_lockout
pump_allowed-reset_lockout t ms = ground arith
