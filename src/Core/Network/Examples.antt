-- ===== src/Core/Network/Examples.antt =====
-- The theorem on the attempts to connect at a station that is lost twice.
use aqua_one.Base.{ℕ, ◌≡◌, refl, true, false, List, [], ◌∷◌, arith}
use aqua_one.Core.Network.{
  Config, no_config, BeginAnswers, begin, begin_station, validate_config, initial, Observation,
  sta_disconnected, connection_failed, update, observe_clock, expanded,
}
use aqua_one.Core.Network.Attempt.{AreSpaced, IsInterval}
use aqua_one.Core.Network.Retry.{attempts-AreSpaced, updates}

abbrev station : Config
station = record no_config { sta_enabled = true; ssid = 97 ∷ []; reconnect_interval_ms = 100 }

abbrev answers : BeginAnswers
answers = record {
  applies = true;
  starts_point = true;
  point_ip = 0;
  sets_hostname = true;
  begins = true;
}

abbrev lost_at : ℕ → Observation
lost_at now = record {
  now = now;
  sta = sta_disconnected;
  local_ip = 0;
  rssi = 0;
  reason = connection_failed;
  reconnects = true;
}

abbrev losses : List Observation
losses = lost_at 10 ∷ lost_at 150 ∷ lost_at 200 ∷ lost_at 299 ∷ lost_at 350 ∷ []

begun : (begin answers station initial).1 ≡ true
unfolding begin begin_station validate_config
begun = refl

station-IsInterval : IsInterval station 100
station-IsInterval = record { plain = omega arith; fast = refl }

attempt_times : (updates losses (begin answers station initial).0 []).1 ≡ 350 ∷ 150 ∷ []
unfolding begin begin_station validate_config update
attempt_times = refl

attempts-AreSpaced_example : AreSpaced 100 (updates losses (begin answers station initial).0 []).1
attempts-AreSpaced_example =
    attempts-AreSpaced answers station initial 100 0 losses begun station-IsInterval (omega arith)

-- The counter wraps between the two observations.
expanded_wraps :
    expanded 4
      (observe_clock 4294967290 (record { now_ms = 0; last_ms = 0; has_observation = false }))
    ≡ 4294967300
unfolding expanded observe_clock
expanded_wraps = refl
