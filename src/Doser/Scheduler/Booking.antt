-- ===== src/Doser/Scheduler/Booking.antt =====
-- When a dose of aquaOneDoser/src/SchedulerManager.cpp is booked.
use aqua_one.Base.{
  get_or, ℕ, ◌≡◌, Bool, true, false, ◌&&◌, ltb, if◌then◌else◌, set, Option, none, some, elapsed,
  ◌⊎◌, ◌∷◌,
}
use aqua_one.Doser.Driver.{Driver, is_running, stop_pump, any_running}
use aqua_one.Doser.Pumps.{Doses, PumpConfig, get_pump}
use aqua_one.Doser.Scheduler.{Calendar, World, Inputs, running_pump, waiting_gap}
use aqua_one.Doser.Scheduler.Loop.{is_in}

-- The pump that is noted runs, and the driver takes a stop of it.
abbrev pub can_finish : Driver → Option ℕ → Bool
can_finish d none = false
can_finish d (some index) = is_running d index && (stop_pump d index).1

module _ {F : Type 0} (k : Doses F) (c : Calendar) where
  -- The settings after a dose: less liquid by the dose, but not less than none, and the date of the event.
  abbrev pub after_dose : PumpConfig F → ℕ → PumpConfig F
  after_dose p date = record p {
    remaining =
        if k.lt (k.sub p.remaining p.dose) k.zero_f then k.zero_f else k.sub p.remaining p.dose;
    last_dose_date = date;
  }

  -- The dose of a world is booked in another one.
  pub record IsBooked (w : World F) (n : Inputs) (v : World F) (index : ℕ) : Type 0 where
    pub active : w.active_pump ≡ some index
    pub ran : is_running w.driver index ≡ true
    pub long_enough : ltb (elapsed n.service_ms w.pump_started_at) w.planned_runtime_ms ≡ false
    pub stopped : v.driver ≡ (stop_pump w.driver index).0
    pub rests : any_running v.driver ≡ false
    pub output_low : get_or v.driver.high index false ≡ false
    pub waits : (v.state ≡ waiting_gap) × (v.gap_started_at ≡ n.enter_ms) × (v.active_pump ≡ none)
    pub settings :
        v.pumps ≡ set w.pumps index (after_dose (get_pump k w.pumps index) w.active_event_date)
    pub written :
        v.writes ≡ (index, after_dose (get_pump k w.pumps index) w.active_event_date) ∷ w.writes

  -- A pass over a running dose leaves it, gives it up or books it.
  abbrev pub Ends : World F → Inputs → World F → Type 0
  Ends w n v =
      (v ≡ w) × (ltb (elapsed n.service_ms w.pump_started_at) w.planned_runtime_ms ≡ true)
      ⊎ ((is_in v.state running_pump ≡ false)
            × (can_finish w.driver w.active_pump ≡ false)
            × (v.pumps ≡ w.pumps)
            × (v.writes ≡ w.writes)
          ⊎ (is_in v.state running_pump ≡ false) × (index : ℕ) × IsBooked w n v index)
