-- ===== src/Luma/Levels.antt =====
-- The levels that reach the outputs, by aquaOneLuma/src/core/LightEngine.cpp.
pub mod Limits
use aqua_one.Base.{ℕ, Bool, true, false, not, ◌&&◌, ◌||◌, if◌then◌else◌, List, [], ◌∷◌}
use aqua_one.Luma.Floats.{Floats, clamp, min}

-- ChannelConfig, as far as it is read.
pub record ChannelConfig (F : Type 0) : Type 0 where
  pub enabled : Bool
  pub hard_max : F
  pub calibration_min : F
  pub calibration_max : F
  pub gamma : F

module _ {F : Type 0} (f : Floats F) where
  open f use {lt, le, is_finite, add, sub, mul, div, pow, zero_f, hundred_f}

  -- isFinitePercent(value).
  unfoldable pub is_finite_percent : F → Bool
  is_finite_percent v = is_finite v && le zero_f v && le v hundred_f

  -- clampPercent(value).
  unfoldable pub clamp_percent : F → F
  clamp_percent v = if not (is_finite v) then zero_f else clamp f v zero_f hundred_f

  -- The guard of processChannel on malformed data.
  unfoldable pub is_malformed : F → ChannelConfig F → F → Bool
  is_malformed requested c limit =
      not (is_finite requested)
      || not (is_finite_percent limit)
      || not (is_finite_percent c.hard_max)
      || not (is_finite_percent c.calibration_min)
      || not (is_finite_percent c.calibration_max)
      || lt c.calibration_max c.calibration_min
      || not (is_finite c.gamma)
      || le c.gamma zero_f

  -- processChannel from the gamma curve on.
  unfoldable pub calibrate : ChannelConfig F → F → F
  calibrate c v =
      let x_gamma = pow (div v hundred_f) c.gamma in
      let calibrated =
        add c.calibration_min (mul x_gamma (sub c.calibration_max c.calibration_min)) in
      if not (is_finite x_gamma)
      then zero_f
      else if not (is_finite calibrated)
      then zero_f
      else clamp_percent (min f calibrated c.hard_max)

  -- processChannel(requestedPercent, channelConfig, globalPowerLimitPercent).
  unfoldable pub process_channel : F → ChannelConfig F → F → F
  process_channel requested c limit =
      let value = clamp_percent requested in
      let scaled = mul value (div limit hundred_f) in
      if not c.enabled
      then zero_f
      else if is_malformed requested c limit
      then zero_f
      else if le value zero_f
      then zero_f
      else if not (is_finite scaled) || le scaled zero_f
      then zero_f
      else calibrate c scaled

  -- process(requested, config).
  unfoldable pub process : List F → List (ChannelConfig F) → F → List F
  process [] cs limit = []
  process (r ∷ rs) [] limit = []
  process (r ∷ rs) (c ∷ cs) limit = process_channel r c limit ∷ process rs cs limit
