-- ===== src/Doser/Driver/Trace.antt =====
-- The driver of aquaOneDoser/src/PumpDriver.cpp through any sequence of calls.
use aqua_one.Base.{
  ℕ, ◌<◌, ◌≤◌, ◌≡◌, refl, subst, if◌then◌else◌, sym, ◌∙◌, ap, Bool, true, false, ◌&&◌, lt→ltb, List,
  [], ◌∷◌, get_or, none, some, arith, elapsed,
}
use aqua_one.Doser.Driver.{
  pump_count, maximum_ms, Driver, is_running, stop_internal, all_off, stop_all, begin, driver_loop,
  start_pump, stop_pump,
}
use aqua_one.Doser.Driver.Exclusive.{
  IsExclusive, driver_loop-IsExclusive, driver_loop-early, is_noted, none_on, noted_of,
  start_pump-IsExclusive, stop_all-IsExclusive, stop_pump-IsExclusive,
}

-- The calls that are made of the driver, loop() with its reading of millis().
pub data Call : Type 0 where
  starts : ℕ → ℕ → Call
  stops : ℕ → Call
  stops_all : Call
  loops : ℕ → Call

unfoldable pub call : Driver → Call → Driver
call d (starts index now) = (start_pump d index now).0
call d (stops index) = (stop_pump d index).0
call d stops_all = stop_all d
call d (loops now) = driver_loop d now

unfoldable pub run : Driver → List Call → Driver
run d [] = d
run d (c ∷ cs) = run (call d c) cs

call-IsExclusive : (d : Driver) (c : Call) → IsExclusive d → IsExclusive (call d c)
unfolding call
call-IsExclusive d (starts index now) x = start_pump-IsExclusive d index now x
call-IsExclusive d (stops index) x = stop_pump-IsExclusive d index x
call-IsExclusive d stops_all x = stop_all-IsExclusive d
call-IsExclusive d (loops now) x = driver_loop-IsExclusive d now x

run-IsExclusive : (d : Driver) (cs : List Call) → IsExclusive d → IsExclusive (run d cs)
unfolding run
run-IsExclusive d [] x = x
run-IsExclusive d (c ∷ cs) x = run-IsExclusive (call d c) cs (call-IsExclusive d c x)

begin-IsExclusive : (d : Driver) → IsExclusive (begin d)
unfolding begin stop_all all_off
begin-IsExclusive d = record { outputs = none_on; flags = none_on; in_range = λ i h. ground arith }

and_true : {a b : Bool} → a ≡ true → b ≡ true → (a && b) ≡ true
and_true h k = ground arith

some_same : {i j : ℕ} → some i ≡ some j → i ≡ j
some_same h = ground arith

IsExclusive-only :
    (d : Driver) (i j : ℕ)
    → IsExclusive d
    → get_or d.high i false ≡ true
    → (d.running_pump ≡ some i) × (is_running d i ≡ true) × (get_or d.high j false ≡ true → i ≡ j)
IsExclusive-only d i j x h =
    let e = noted_of d.running_pump i (sym (x.outputs.flag i) ∙ h) in
    (
      e,
      and_true (lt→ltb i pump_count (x.in_range i e)) (x.flags.flag i ∙ sym (x.outputs.flag i) ∙ h),
      λ k. some_same (sym e ∙ noted_of d.running_pump j (sym (x.outputs.flag j) ∙ k)),
    )

-- After begin() and any calls, no two outputs are high, and the one that is high is that of the pump
-- that the driver notes and reports as running.
pub run-begin_exclusive :
    (d : Driver) (cs : List Call) (i j : ℕ)
    → get_or (run (begin d) cs).high i false ≡ true
    → ((run (begin d) cs).running_pump ≡ some i)
      × (is_running (run (begin d) cs) i ≡ true)
      × (get_or (run (begin d) cs).high j false ≡ true → i ≡ j)
run-begin_exclusive d cs i j h =
    IsExclusive-only (run (begin d) cs) i j (run-IsExclusive _ cs (begin-IsExclusive d)) h

driver_loop-late :
    (d : Driver) (now : ℕ)
    → maximum_ms < elapsed now d.started_at
    → (driver_loop d now).running_pump ≡ none
unfolding driver_loop stop_internal
driver_loop-late d now h = ground arith

off_at :
    (d : Driver) (now i : ℕ)
    → IsExclusive d
    → maximum_ms < elapsed now d.started_at
    → get_or (driver_loop d now).high i false ≡ false
off_at d now i x h =
    (driver_loop-IsExclusive d now x).outputs.flag i
    ∙ ap (λ o. is_noted o i) (driver_loop-late d now h)

-- When the last call of start_pump that succeeded was made, by the reading of millis() in it; `before` for
-- none at all.
unfoldable pub last_start : Driver → List Call → ℕ → ℕ
last_start d [] before = before
last_start d (starts index now ∷ cs) before =
    last_start (call d (starts index now)) cs (if (start_pump d index now).1 then now else before)
last_start d (stops index ∷ cs) before = last_start (call d (stops index)) cs before
last_start d (stops_all ∷ cs) before = last_start (call d stops_all) cs before
last_start d (loops now ∷ cs) before = last_start (call d (loops now)) cs before

start_pump_time :
    (d : Driver) (index now before : ℕ)
    → d.started_at ≡ before
    → (start_pump d index now).0.started_at ≡ (if (start_pump d index now).1 then now else before)
unfolding start_pump
start_pump_time d index now before h = ground arith

stop_pump_time : (d : Driver) (index : ℕ) → (stop_pump d index).0.started_at ≡ d.started_at
unfolding stop_pump stop_internal
stop_pump_time d index = ground arith

stop_all_time : (d : Driver) → (stop_all d).started_at ≡ d.started_at
unfolding stop_all all_off
stop_all_time d = ground arith

driver_loop_time : (d : Driver) (now : ℕ) → (driver_loop d now).started_at ≡ d.started_at
unfolding driver_loop stop_internal
driver_loop_time d now = ground arith

run_time :
    (d : Driver) (cs : List Call) (before : ℕ)
    → d.started_at ≡ before
    → (run d cs).started_at ≡ last_start d cs before
unfolding run last_start call
run_time d [] before h = h
run_time d (starts index now ∷ cs) before h =
    run_time (start_pump d index now).0 cs _ (start_pump_time d index now before h)
run_time d (stops index ∷ cs) before h =
    run_time (stop_pump d index).0 cs before (stop_pump_time d index ∙ h)
run_time d (stops_all ∷ cs) before h = run_time (stop_all d) cs before (stop_all_time d ∙ h)
run_time d (loops now ∷ cs) before h =
    run_time (driver_loop d now) cs before (driver_loop_time d now ∙ h)

-- After begin() and any calls, a loop() pass that comes more than the longest runtime after the last call of
-- start_pump that succeeded, wrap-around of the clock included, leaves no output high; one before that leaves
-- the driver as it is.
pub driver_loop_limit :
    (d : Driver) (cs : List Call) (now : ℕ)
    → let r = run (begin d) cs in
      let passed = elapsed now (last_start (begin d) cs (begin d).started_at) in
      (maximum_ms < passed → (i : ℕ) → get_or (driver_loop r now).high i false ≡ false)
      × (passed ≤ maximum_ms → driver_loop r now ≡ r)
driver_loop_limit d cs now =
    let x = run-IsExclusive _ cs (begin-IsExclusive d) in
    let r = run (begin d) cs in
    let e = run_time (begin d) cs (begin d).started_at refl in
    (
      (λ late i. off_at r now i x (subst (λ t. maximum_ms < elapsed now t) (sym e) late)),
      (λ early. driver_loop-early r now (subst (λ t. elapsed now t ≤ maximum_ms) (sym e) early)),
    )
