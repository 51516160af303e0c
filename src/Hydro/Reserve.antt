-- ===== src/Hydro/Reserve.antt =====
-- aquaOneHydro/src/hydrosense/WaterReserve.cpp: the reserve in the tank, with hysteresis.
use aqua_one.Base.{Bool, true, false, not, ◌&&◌, if◌then◌else◌, ◌≡◌, arith, Bool-cases, inl, inr}
use aqua_one.Hydro.Floats.{Floats}
use aqua_one.Hydro.Tank.{Tank}

pub data ReserveState : Type 0 where
  unknown ok low critical : ReserveState

pub record Reserve (F : Type 0) : Type 0 where
  pub low_level : F
  pub critical_level : F
  pub hysteresis : F
  pub state : ReserveState

unfoldable pub reserve_begin : {F : Type 0} → Reserve F → Reserve F
reserve_begin r = record r { state = unknown }

abbrev allows : ReserveState → Bool
allows ok = true
allows low = true
allows _ = false

unfoldable pub allows_pump : {F : Type 0} → Reserve F → Bool
allows_pump r = allows r.state

abbrev pub is_low : ReserveState → Bool
is_low low = true
is_low _ = false

abbrev pub is_critical : ReserveState → Bool
is_critical critical = true
is_critical _ = false

module _ {F : Type 0} (𝓕 : Floats F) where
  open 𝓕 use {le, add}

  -- The switch of update(), at a valid level; `>=` is `<=` the other way round.
  next_state : Reserve F → F → ReserveState → ReserveState
  next_state r level unknown =
      if le level r.critical_level then critical else if le level r.low_level then low else ok
  next_state r level ok =
      if le level r.critical_level then critical else if le level r.low_level then low else ok
  next_state r level low =
      if le level r.critical_level
      then critical
      else if le (add r.low_level r.hysteresis) level
      then ok
      else low
  next_state r level critical =
      if le (add r.critical_level r.hysteresis) level
      then (if le level r.low_level then low else ok)
      else critical

  unfoldable pub reserve_update : Reserve F → Tank F → Reserve F
  unfolding next_state
  reserve_update r t =
      if not t.valid
      then record r { state = unknown }
      else record r { state = next_state r t.level_percent r.state }

  -- Whether a level permits pumping: a reserve that was critical must have risen by the hysteresis,
  -- any other must not be critical.
  unfoldable pub permits : Reserve F → F → Bool
  permits r level =
      if is_critical r.state
      then le (add r.critical_level r.hysteresis) level
      else not (le level r.critical_level)

  allows-next_state :
      (r : Reserve F) (level : F) (s : ReserveState)
      → allows (next_state r level s) ≡ (
          if is_critical s
          then le (add r.critical_level r.hysteresis) level
          else not (le level r.critical_level))
  unfolding next_state
  allows-next_state r level unknown = ground arith
  allows-next_state r level ok = ground arith
  allows-next_state r level low = ground arith
  allows-next_state r level critical = ground arith

  -- After an update the pump is permitted just when the measurement is valid and its level permits it.
  pub allows_pump-reserve_update :
      (r : Reserve F) (t : Tank F)
      → allows_pump (reserve_update r t) ≡ (t.valid && permits r t.level_percent)
  unfolding reserve_update allows_pump permits
  allows_pump-reserve_update r t = elim (Bool-cases t.valid) [
    | inl v ↦ rw v (allows-next_state r t.level_percent r.state)
    | inr v ↦ rw v
  ]
