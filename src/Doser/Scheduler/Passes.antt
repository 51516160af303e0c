-- ===== src/Doser/Scheduler/Passes.antt =====
-- What a pass of loop() of aquaOneDoser/src/SchedulerManager.cpp does with the pumps.
use aqua_one.Base.{
  ℕ, zero, suc, ◌+◌, ◌≡◌, refl, sym, subst, ◌∙◌, ap, Bool, true, false, not, ◌&&◌, ◌||◌, ltb,
  if◌then◌else◌, elapsed, arith, Bool-cases, inl, inr, List, [], ◌∷◌,
}
use aqua_one.Doser.Driver.{pump_count, any_running}
use aqua_one.Doser.Driver.Exclusive.{stop_all-off}
use aqua_one.Doser.Pumps.{Doses, get_pump}
use aqua_one.Doser.Scheduler.{
  Tm, Calendar, State, idle, running_pump, waiting_gap, World, Inputs, gap_ms, is_reliable,
  store_pump, date_key,
}
use aqua_one.Doser.Scheduler.Loop.{
  is_in, is_missed, process_pumps, detect_missed_doses, detect_from, stopped_all, dose_if_due,
  supervise, loop, begin,
}
use aqua_one.Doser.Scheduler.Safety.{IsStarted, process_pumps-IsStarted, same_pumps}

-- The part of the world that detectMissedDoses leaves.
record IsKept {F : Type 0} (w v : World F) : Type 0 where
  state_kept : v.state ≡ w.state
  gap_kept : v.gap_started_at ≡ w.gap_started_at
  driver_kept : v.driver ≡ w.driver

waits_gap : (b l : Bool) → (b && l) ≡ false → b ≡ true → l ≡ false
waits_gap b l h g = ground arith

not_running :
    (s : State)
    → is_in s running_pump ≡ false
    → is_in (if is_in s waiting_gap then idle else s) running_pump ≡ false
not_running idle h = refl
not_running running_pump h = cc
not_running waiting_gap h = refl

or_false : (a b : Bool) {d : Bool} → d ≡ false → (not a || not b || not d) ≡ true
or_false a b h = ground arith

IsKept-trans :
    {F : Type 0} {w u v : World F}
    → u.state ≡ w.state
    → u.gap_started_at ≡ w.gap_started_at
    → u.driver ≡ w.driver
    → IsKept u v
    → IsKept w v
IsKept-trans s g d x = record {
  state_kept = x.state_kept ∙ s;
  gap_kept = x.gap_kept ∙ g;
  driver_kept = x.driver_kept ∙ d;
}

absurd_or : {A : Type 0} {a b : Bool} → a ≡ false → b ≡ false → (a || b) ≡ true → A
absurd_or e f h = cc

gap_of :
    {F : Type 0} {w v : World F} (n : Inputs)
    → IsKept w v
    → (is_in v.state waiting_gap ≡ true → ltb (elapsed n.gap_ms v.gap_started_at) gap_ms ≡ false)
    → is_in w.state waiting_gap ≡ true
    → ltb (elapsed n.gap_ms w.gap_started_at) gap_ms ≡ false
gap_of n m f e =
    subst (λ t. ltb (elapsed n.gap_ms t) gap_ms ≡ false) m.gap_kept
      (f (ap (λ s. is_in s waiting_gap) m.state_kept ∙ e))

clash :
    {A : Type 0} {s t : State}
    → s ≡ t
    → is_in t running_pump ≡ false
    → is_in s running_pump ≡ true
    → A
clash e h g = cc

module _ {F : Type 0} (k : Doses F) (c : Calendar) where
  detect_from-IsKept :
      (count index : ℕ) (w : World F) (t : Tm) (now : ℕ)
      → IsKept w (detect_from k c count index w t now)
  unfolding detect_from store_pump
  detect_from-IsKept zero index w t now = record {
    state_kept = refl;
    gap_kept = refl;
    driver_kept = refl;
  }
  detect_from-IsKept (suc count) index w t now =
      elim (Bool-cases (is_missed k c (get_pump k w.pumps index) t now)) [
        | inl e ↦
            let u =
              store_pump w index
                (record (get_pump k w.pumps index) { last_missed_dose_date = date_key t }) in
            rw e (IsKept-trans refl refl refl (detect_from-IsKept count (index + 1) u t now))
        | inr e ↦ rw e (detect_from-IsKept count (index + 1) w t now)
      ]

  detect-IsKept : (w : World F) (t : Tm) (now : ℕ) → IsKept w (detect_missed_doses k c w t now)
  unfolding detect_missed_doses
  detect-IsKept w t now = elim (Bool-cases (ltb (date_key t) 20230101)) [
    | inl e ↦ rw e (record { state_kept = refl; gap_kept = refl; driver_kept = refl })
    | inr e ↦ rw e (detect_from-IsKept _ _ w t now)
  ]

  dose_if_due-IsStarted :
      (w : World F) (n : Inputs)
      → is_in w.state running_pump ≡ false
      → is_in (dose_if_due k c w n).state running_pump ≡ true
      → (is_in w.state waiting_gap ≡ true → ltb (elapsed n.gap_ms w.gap_started_at) gap_ms ≡ false)
        × (i : ℕ) × IsStarted k c
            (dose_if_due k c w n)
            n
            i
            (get_pump k (dose_if_due k c w n).pumps i)
  unfolding dose_if_due
  dose_if_due-IsStarted w n h =
      elim (Bool-cases
        (is_in w.state waiting_gap && ltb (elapsed n.gap_ms w.gap_started_at) gap_ms)) [
          | inl gap ↦ rw gap (λ g. cc)
          | inr free ↦
              let y =
                process_pumps-IsStarted k c pump_count 0
                  (record w { state = if is_in w.state waiting_gap then idle else w.state }) n
                  (not_running w.state h) in
              let after =
                process_pumps k c pump_count 0
                  (record w { state = if is_in w.state waiting_gap then idle else w.state }) n in
              rw free (λ g. let (i, x) = same_pumps (sym y.0) (y.1 g) in (waits_gap _ _ free, i, x))
        ]

  stopped_all-off : (w : World F) → any_running (stopped_all k c w).driver ≡ false
  unfolding stopped_all
  stopped_all-off w = elim (Bool-cases (any_running w.driver)) [
    | inl e ↦ rw e (stop_all-off w.driver)
    | inr e ↦ rw e e
  ]

  stopped_all-state : (w : World F) → (stopped_all k c w).state ≡ w.state
  unfolding stopped_all
  stopped_all-state w = elim (Bool-cases (any_running w.driver)) [
    | inl e ↦ rw e refl
    | inr e ↦ rw e refl
  ]

  supervise-off :
      (w : World F) (n : Inputs)
      → (w.ota_in_progress || not (is_reliable n)) ≡ true
      → any_running (supervise k c w n).driver ≡ false
  unfolding supervise
  supervise-off w n h = elim (Bool-cases w.ota_in_progress) [
    | inl ota ↦
        rw ota
          (stopped_all-off (record w { automatic_dosing_active = false; ota_in_progress = true }))
    | inr no_ota ↦ elim (Bool-cases (not (is_reliable n))) [
      | inl lost ↦ rw (no_ota, lost) (stopped_all-off (record w { ota_in_progress = false }))
      | inr fine ↦ absurd_or no_ota fine h
    ]
  ]

  supervise-IsStarted :
      (w : World F) (n : Inputs)
      → is_in w.state running_pump ≡ false
      → is_in (supervise k c w n).state running_pump ≡ true
      → (w.ota_in_progress ≡ false)
        × (is_reliable n ≡ true)
        × (is_in w.state waiting_gap ≡ true
            → ltb (elapsed n.gap_ms w.gap_started_at) gap_ms ≡ false)
        × (i : ℕ) × IsStarted k c (supervise k c w n) n i (get_pump k (supervise k c w n).pumps i)
  unfolding supervise
  supervise-IsStarted w n h = elim (Bool-cases w.ota_in_progress) [
    | inl ota ↦ rw ota (λ g.
        clash
          (stopped_all-state (record w { automatic_dosing_active = false; ota_in_progress = true }))
          h g)
    | inr no_ota ↦ elim (Bool-cases (is_reliable n)) [
      | inl fine ↦
          rw (no_ota, fine)
            (λ g.
              let u = record w { automatic_dosing_active = true; ota_in_progress = false } in
              let m = detect-IsKept u n.local n.timestamp in
              let v = detect_missed_doses k c u n.local n.timestamp in
              let (gap, i, x) =
                dose_if_due-IsStarted v n (ap (λ s. is_in s running_pump) m.state_kept ∙ h) g in
              (refl, refl, gap_of n m gap, i, x))
      | inr lost ↦
          rw (no_ota, lost)
            (λ g. clash (stopped_all-state (record w { ota_in_progress = false })) h g)
    ]
  ]

  -- A pass of loop() that starts a dose does so with no update in progress, on a reliable time and, after
  -- another dose, at least PUMP_GAP_MS later. The pump that it starts is enabled, has an event that is due
  -- and for which it has not dosed yet, settings within their limits, enough liquid and a runtime within
  -- the limit, and it is the one that the driver runs.
  pub loop_starts_due :
      (w : World F) (n : Inputs)
      → is_in w.state running_pump ≡ false
      → is_in (loop k c w n).state running_pump ≡ true
      → (w.ota_in_progress ≡ false)
        × (is_reliable n ≡ true)
        × (is_in w.state waiting_gap ≡ true
            → ltb (elapsed n.gap_ms w.gap_started_at) gap_ms ≡ false)
        × (i : ℕ) × IsStarted k c (loop k c w n) n i (get_pump k (loop k c w n).pumps i)
  unfolding loop
  loop_starts_due w n h =
      elim (Bool-cases (not w.has_pumps || not w.has_time || not w.has_driver)) [
        | inl absent ↦ rw absent (λ g. clash refl h g)
        | inr there ↦ rw (there, h, h) (supervise-IsStarted w n h)
      ]

  -- With no dose of its own running, a pass of loop() during an update or without a reliable time leaves
  -- every pump off, whoever started it.
  pub loop_stops :
      (w : World F) (n : Inputs)
      → (not w.has_pumps || not w.has_time || not w.has_driver) ≡ false
      → is_in w.state running_pump ≡ false
      → (w.ota_in_progress || not (is_reliable n)) ≡ true
      → any_running (loop k c w n).driver ≡ false
  unfolding loop
  loop_stops w n there h g = rw (there, h, h) (supervise-off w n g)

  -- The passes of loop() one after the other.
  unfoldable pub passes : World F → List Inputs → World F
  passes w [] = w
  passes w (n ∷ ns) = passes (loop k c w n) ns

  loop_idle : (w : World F) (n : Inputs) → w.has_driver ≡ false → loop k c w n ≡ w
  unfolding loop
  loop_idle w n h = rw (or_false w.has_pumps w.has_time h) refl

  passes_idle : (w : World F) (ns : List Inputs) → w.has_driver ≡ false → passes w ns ≡ w
  unfolding passes
  passes_idle w [] h = refl
  passes_idle w (n ∷ ns) h = rw (loop_idle w n h) (passes_idle w ns h)

  -- begin() leaves the pointer to the driver as the constructor set it: after it no number of passes of
  -- loop() changes anything, so that no dose is ever started, whatever is due.
  pub passes-begin_idle :
      (w : World F) (n : Inputs) (ns : List Inputs)
      → w.has_driver ≡ false
      → passes (begin k c w n) ns ≡ begin k c w n
  unfolding begin
  passes-begin_idle w n ns h = passes_idle (begin k c w n) ns h
