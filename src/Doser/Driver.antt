-- ===== src/Doser/Driver.antt =====
-- aquaOneDoser/src/PumpDriver.h and aquaOneDoser/src/PumpDriver.cpp: the outputs of the eight pumps. A pump
-- is its index; `high` is the level that was last written to its pin, and -1 as an index is `none`.
pub mod Exclusive
pub mod Trace
use aqua_one.Base.{
  ℕ, zero, suc, Bool, true, false, not, ◌&&◌, ◌||◌, ltb, if◌then◌else◌, List, get_or, set,
  replicate, Option, none, some, elapsed,
}

abbrev pub pump_count : ℕ
pump_count = 8

-- MAX_PUMP_RUNTIME_SEC in milliseconds.
abbrev pub maximum_ms : ℕ
maximum_ms = 60000

pub data StopReason : Type 0 where
  no_reason normal safety_timeout emergency : StopReason

pub record Driver : Type 0 where
  pub initialized : Bool
  pub high : List Bool
  pub running : List Bool
  pub running_pump : Option ℕ
  pub last_stopped_pump : Option ℕ
  pub started_at : ℕ
  pub last_stop_reason : StopReason

abbrev pub any_running : Driver → Bool
any_running d = elim d.running_pump [ none ↦ false | some _ ↦ true ]

abbrev pub is_running : Driver → ℕ → Bool
is_running d index = ltb index pump_count && get_or d.running index false

unfoldable pub stop_internal : Driver → ℕ → StopReason → Driver
stop_internal d index reason = record d {
  high = set d.high index false;
  running = set d.running index false;
  running_pump = none;
  last_stopped_pump = some index;
  last_stop_reason = reason;
}

all_off : Driver → Driver
all_off d = record d {
  high = replicate pump_count false;
  running = replicate pump_count false;
  running_pump = none;
}

unfoldable pub stop_all : Driver → Driver
unfolding all_off
stop_all d =
    if any_running d
    then record (all_off d) { last_stopped_pump = d.running_pump; last_stop_reason = emergency }
    else all_off d

unfoldable pub begin : Driver → Driver
unfolding stop_all all_off
begin d = stop_all (record d {
  high = replicate pump_count false;
  running = replicate pump_count false;
  running_pump = none;
  last_stopped_pump = none;
  last_stop_reason = no_reason;
  initialized = true;
})

-- loop(); `now` is the reading of millis().
unfoldable pub driver_loop : Driver → ℕ → Driver
unfolding stop_internal
driver_loop d now = elim d.running_pump [
  | none ↦ d
  | some index ↦
      if ltb maximum_ms (elapsed now d.started_at) then stop_internal d index safety_timeout else d
]

unfoldable pub start_pump : Driver → ℕ → ℕ → Driver × Bool
start_pump d index now =
    if not d.initialized || not (ltb index pump_count) || any_running d then (d, false) else (
      record d {
        high = set d.high index true;
        running = set d.running index true;
        running_pump = some index;
        started_at = now;
        last_stop_reason = no_reason;
        last_stopped_pump = none;
      },
      true,
    )

unfoldable pub stop_pump : Driver → ℕ → Driver × Bool
unfolding stop_internal
stop_pump d index =
    if not d.initialized || not (ltb index pump_count) || not (get_or d.running index false)
    then (d, false)
    else (stop_internal d index normal, true)
