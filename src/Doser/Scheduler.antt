-- ===== src/Doser/Scheduler.antt =====
-- aquaOneDoser/src/SchedulerManager.h and aquaOneDoser/src/SchedulerManager.cpp, as built without
-- SCHEDULER_TEST_MODE. mktime and localtime_r are parameters, a time_t is a number of seconds from 1970 on,
-- and -1 is `none`, as an index and as a result of mktime. `writes` holds the records that savePump is
-- called with, the last first; its result is only logged. Messages, their marks and getSuspensionReason
-- are left out.
pub mod Loop
pub mod Safety
pub mod Passes
pub mod Booking
use Prim.Native.Nat.{bit_and}
use aqua_one.Base.{
  ℕ, zero, suc, ◌+◌, ◌-◌, ◌*◌, ◌^◌, ◌%◌, Bool, true, false, not, ◌&&◌, ◌||◌, ltb, leb, ◌==◌,
  if◌then◌else◌, List, [], ◌∷◌, set, Option, none, some, word,
}
use aqua_one.Doser.Driver.{Driver}
use aqua_one.Doser.Pumps.{Doses, PumpConfig, get_pump}

-- The fields of struct tm that the code reads or writes; tm_isdst is `none` for -1.
pub record Tm : Type 0 where
  pub tm_year : ℕ
  pub tm_mon : ℕ
  pub tm_mday : ℕ
  pub tm_hour : ℕ
  pub tm_min : ℕ
  pub tm_sec : ℕ
  pub tm_wday : ℕ
  pub tm_isdst : Option Bool

pub record Calendar : Type 0 where
  pub mktime : Tm → Option ℕ
  pub localtime : ℕ → Tm

pub data State : Type 0 where
  idle running_pump waiting_gap : State

-- The scheduler with the objects that its pointers name; `has_driver` is `driver != nullptr`, and so on.
pub record World (F : Type 0) : Type 0 where
  pub has_pumps : Bool
  pub has_time : Bool
  pub has_driver : Bool
  pub state : State
  pub gap_started_at : ℕ
  pub pump_started_at : ℕ
  pub planned_runtime_ms : ℕ
  pub active_pump : Option ℕ
  pub active_event_date : ℕ
  pub automatic_dosing_active : Bool
  pub ota_in_progress : Bool
  pub driver : Driver
  pub pumps : List (PumpConfig F)
  pub writes : List (ℕ × PumpConfig F)

-- What a pass of loop() reads: the TimeManager, and millis() at the end of a dose, on entering the gap,
-- in the gap, in the driver and at the start of a dose.
pub record Inputs : Type 0 where
  pub time_valid : Bool
  pub timestamp : ℕ
  pub local : Tm
  pub service_ms : ℕ
  pub enter_ms : ℕ
  pub gap_ms : ℕ
  pub driver_ms : ℕ
  pub start_ms : ℕ

abbrev pub window_seconds : ℕ
window_seconds = 300

abbrev pub gap_ms : ℕ
gap_ms = 2000

-- weekdayBitFromTmWday: Monday is bit 0.
unfoldable pub weekday_bit : ℕ → ℕ
weekday_bit wday = if ltb 6 wday then 0 else 2 ^ ((wday + 6) % 7)

abbrev pub date_key : Tm → ℕ
date_key t = ((t.tm_year + 1900) * 10000 + (t.tm_mon + 1) * 100 + t.tm_mday) % word

-- getReliableLocalTime.
abbrev pub is_reliable : Inputs → Bool
is_reliable n = n.time_valid && leb 1700000000 n.timestamp && leb 2023 (n.local.tm_year + 1900)

abbrev pub or_else : Option ℕ → Option ℕ → Option ℕ
or_else none o = o
or_else (some d) o = some d

module _ {F : Type 0} where
  unfoldable pub scheduled_on : PumpConfig F → Tm → Bool
  unfolding weekday_bit
  scheduled_on p t = not (bit_and p.days_mask (weekday_bit t.tm_wday) == 0)

  -- The candidate at the pump's hour on the day of the month that is given.
  abbrev pub candidate : PumpConfig F → Tm → ℕ → Tm
  candidate p t mday = record t {
    tm_mday = mday;
    tm_hour = p.hour;
    tm_min = p.minute;
    tm_sec = 0;
    tm_isdst = none;
  }

  unfoldable pub enter_gap : World F → ℕ → World F
  enter_gap w now = record w {
    active_pump = none;
    active_event_date = 0;
    planned_runtime_ms = 0;
    state = waiting_gap;
    gap_started_at = now;
  }

  -- A write to pump `index`, and savePump(index).
  unfoldable pub store_pump : World F → ℕ → PumpConfig F → World F
  store_pump w index p = record w { pumps = set w.pumps index p; writes = (index, p) ∷ w.writes }

module _ {F : Type 0} (c : Calendar) where
  unfoldable pub due_on : PumpConfig F → Tm → ℕ → Option ℕ
  due_on p t now = elim (c.mktime t) [
    | none ↦ none
    | some scheduled ↦
        if scheduled_on p (c.localtime scheduled)
          && leb scheduled now
          && ltb (now - scheduled) window_seconds
        then some (date_key (c.localtime scheduled))
        else none
  ]

  -- findDueEvent: today's event, or else yesterday's; tm_mday is at least 1.
  unfoldable pub find_due_event : PumpConfig F → Tm → ℕ → Option ℕ
  find_due_event p t now =
      or_else (due_on p (candidate p t t.tm_mday) now)
        (due_on p (candidate p t (t.tm_mday - 1)) now)

module _ {F : Type 0} (k : Doses F) where
  abbrev pub dosed : PumpConfig F → ℕ → PumpConfig F
  dosed p event_date =
      let left = k.sub p.remaining p.dose in
      record p {
        remaining = if k.lt left k.zero_f then k.zero_f else left;
        last_dose_date = event_date;
      }

  unfoldable pub finish_successful_dose : World F → ℕ → ℕ → World F
  unfolding store_pump
  finish_successful_dose w index event_date =
      store_pump w index (dosed (get_pump k w.pumps index) event_date)
