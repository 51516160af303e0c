-- ===== src/Core/Runtime/Examples.antt =====
-- The theorem on the state of the system at three providers.
use aqua_one.Base.{◌≡◌, refl, true, false, [], ◌∷◌}
use aqua_one.Core.Runtime.{
  ok, degraded, clear, locked, Coordinator, refreshed, severity, is_locked, array, compose,
  activate, refresh,
}
use aqua_one.Core.Runtime.Worst.{refresh_lem}

abbrev running : Coordinator
running = record {
  lists_valid = true;
  active = true;
  failure_latched = false;
  status = record { health = ok; safety = clear };
}

activated :
    (activate
      (ok ∷ ok ∷ [])
      (clear ∷ [])
      (record { health = ok; safety = clear })
      (compose (array (true ∷ true ∷ [])) (array (true ∷ [])))).0
    ≡ running
unfolding activate compose
activated = refl

refresh_lem_example :
    ((refresh (ok ∷ degraded ∷ []) (locked ∷ []) running).1 ≡ refreshed)
    × (severity (refresh (ok ∷ degraded ∷ []) (locked ∷ []) running).0.status.health ≡ 1)
    × (is_locked (refresh (ok ∷ degraded ∷ []) (locked ∷ []) running).0.status.safety ≡ true)
refresh_lem_example = refresh_lem (ok ∷ degraded ∷ []) (locked ∷ []) running refl
