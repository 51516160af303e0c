-- ===== src/Doser/Scheduler/Safety.antt =====
-- Which doses loop() of aquaOneDoser/src/SchedulerManager.cpp starts.
use aqua_one.Base.{
  ℕ, zero, suc, ◌+◌, ◌≡◌, refl, subst, ◌∙◌, ap, Bool, true, false, not, ◌||◌, ◌==◌, some, arith,
  Bool-cases, Option-cases, inl, inr, List,
}
use aqua_one.Doser.Driver.{Driver, start_pump}
use aqua_one.Doser.Pumps.{Doses, PumpConfig, get_pump}
use aqua_one.Doser.Scheduler.{Calendar, running_pump, World, Inputs, find_due_event}
use aqua_one.Doser.Scheduler.Loop.{
  is_in, is_dosable, runtime_of, start_dose, process_pump, process_pumps,
}

-- What holds of the world when a dose of pump `index`, with the settings `p`, has just been started.
pub record IsStarted {F : Type 0} (k : Doses F) (c : Calendar) (w : World F) (n : Inputs)
    (index : ℕ) (p : PumpConfig F) : Type 0 where
  pub noted : w.active_pump ≡ some index
  pub on : w.driver.running_pump ≡ some index
  pub enabled : p.enabled ≡ true
  pub due : find_due_event c p n.local n.timestamp ≡ some w.active_event_date
  pub not_done : (p.last_dose_date == w.active_event_date) ≡ false
  pub dosable : is_dosable k c p ≡ true
  pub planned : w.planned_runtime_ms ≡ runtime_of k c p
  pub takes_time : (w.planned_runtime_ms == 0) ≡ false

start_pump-on :
    (d : Driver) (i now : ℕ)
    → (start_pump d i now).1 ≡ true
    → (start_pump d i now).0.running_pump ≡ some i
unfolding start_pump
start_pump-on d i now h = ground arith

none_of : (a b z : Bool) → (a || not b || z) ≡ false → (a ≡ false) × (b ≡ true) × (z ≡ false)
none_of a b z h = ground arith

enabled_of : (a y z : Bool) → (not a || y || z) ≡ false → a ≡ true
enabled_of a y z h = ground arith

pub same_pumps :
    {F : Type 0} {k : Doses F} {c : Calendar} {v : World F} {n : Inputs}
    {xs ys : List (PumpConfig F)}
    → xs ≡ ys
    → (i : ℕ) × IsStarted k c v n i (get_pump k xs i)
    → (i : ℕ) × IsStarted k c v n i (get_pump k ys i)
same_pumps {k = k} {c = c} {v = v} {n = n} e h =
    subst (λ zs. (i : ℕ) × IsStarted k c v n i (get_pump k zs i)) e h

-- What one pump of the loop over the pumps does to the world.
record IsStep {F : Type 0} (k : Doses F) (c : Calendar) (w : World F) (n : Inputs) (index : ℕ)
    (p : PumpConfig F) (r : World F × Bool) : Type 0 where
  kept : r.0.pumps ≡ w.pumps
  starts : r.1 ≡ true → IsStarted k c r.0 n index p
  waits : r.1 ≡ false → r.0.state ≡ w.state

module _ {F : Type 0} (k : Doses F) (c : Calendar) where
  no-IsStep :
      (w : World F) (n : Inputs) (index : ℕ) (p : PumpConfig F) → IsStep k c w n index p (w, false)
  no-IsStep w n index p = record { kept = refl; starts = λ h. cc; waits = λ h. refl }

  start_dose-IsStep :
      (w : World F) (index event_date : ℕ) (p : PumpConfig F) (n : Inputs)
      → p.enabled ≡ true
      → find_due_event c p n.local n.timestamp ≡ some event_date
      → IsStep k c w n index p (start_dose k c w index p event_date n)
  unfolding start_dose
  start_dose-IsStep w index event_date p n e due =
      elim (Bool-cases
        (p.last_dose_date == event_date || not (is_dosable k c p) || runtime_of k c p == 0)) [
          | inl refused ↦ rw refused (no-IsStep w n index p)
          | inr fine ↦ elim (Bool-cases (start_pump w.driver index n.driver_ms).1) [
            | inl started ↦
                let o = none_of _ _ _ fine in
                rw (fine, started)
                  (record {
                    kept = refl;
                    starts = λ _. record {
                      noted = refl;
                      on = start_pump-on w.driver index n.driver_ms started;
                      enabled = e;
                      due = due;
                      not_done = o.0;
                      dosable = o.1;
                      planned = refl;
                      takes_time = o.2;
                    };
                    waits = λ h. cc;
                  })
            | inr busy ↦
                rw (fine, busy) (record { kept = refl; starts = λ h. cc; waits = λ h. refl })
          ]
        ]

  process_pump-IsStep :
      (w : World F) (index : ℕ) (n : Inputs)
      → IsStep k c w n index (get_pump k w.pumps index) (process_pump k c w index n)
  unfolding process_pump
  process_pump-IsStep w index n =
      let p = get_pump k w.pumps index in
      elim (Bool-cases (not p.enabled || k.le p.dose k.zero_f || p.days_mask == 0)) [
        | inl off ↦ rw off (no-IsStep w n index p)
        | inr on ↦ elim (Option-cases (find_due_event c p n.local n.timestamp)) [
          | inl e ↦ rw (on, e) (no-IsStep w n index p)
          | inr (d, e) ↦
              rw (on, e) (start_dose-IsStep w index d p n (enabled_of p.enabled _ _ on) e)
        ]
      ]

  -- The loop over the pumps leaves the settings, and a dose that runs after it has just been started.
  pub process_pumps-IsStarted :
      (count index : ℕ) (w : World F) (n : Inputs)
      → is_in w.state running_pump ≡ false
      → ((process_pumps k c count index w n).pumps ≡ w.pumps)
        × (is_in (process_pumps k c count index w n).state running_pump ≡ true
            → (i : ℕ) × IsStarted k c
                (process_pumps k c count index w n)
                n
                i
                (get_pump k w.pumps i))
  unfolding process_pumps
  process_pumps-IsStarted zero index w n h = (refl, λ g. cc)
  process_pumps-IsStarted (suc count) index w n h =
      let x = process_pump-IsStep w index n in
      elim (Bool-cases (process_pump k c w index n).1) [
        | inl started ↦ rw started (x.kept, λ _. (index, x.starts started))
        | inr not_yet ↦
            let v = (process_pump k c w index n).0 in
            let y =
              process_pumps-IsStarted count (index + 1) v n
                (ap (λ s. is_in s running_pump) (x.waits not_yet) ∙ h) in
            rw not_yet (y.0 ∙ x.kept, λ g. same_pumps (x.kept) (y.1 g))
      ]
