-- ===== src/Core/Alarms/Examples.antt =====
-- A latched alarm through a restart.
use aqua_one.Base.{◌≡◌, refl, true, false, [], ◌∷◌}
use aqua_one.Core.Alarms.{AlarmState, fresh, persistent_state}
use aqua_one.Core.Alarms.Trace.{
  restores, sets, acknowledges, clears, run, IsSound, run-IsSound, latch_persists,
}

run-IsSound_example :
    IsSound (run (fresh true) (sets true ∷ acknowledges ∷ sets false ∷ clears ∷ []))
run-IsSound_example = run-IsSound true (sets true ∷ acknowledges ∷ sets false ∷ clears ∷ [])

-- The alarm of a condition that has come.
abbrev raised : AlarmState
raised = record (fresh true) {
  condition_active = true;
  alarm_active = true;
  condition_known = true;
  live_started = true;
}

raised-IsSound : IsSound raised
raised-IsSound = record {
  acknowledged_active = refl;
  condition_raises = refl;
  only_latched_stays = refl;
  nothing_early = refl;
  known_is_live = refl;
}

latch_persists_example :
    persistent_state (run raised (acknowledges ∷ sets false ∷ restores false ∷ [])) ≡ true
latch_persists_example =
    latch_persists raised (acknowledges ∷ sets false ∷ restores false ∷ []) raised-IsSound tt refl
