-- ===== src/Doser/Pumps.antt =====
-- aquaOneDoser/src/PumpConfig.h and aquaOneDoser/src/PumpManager.cpp: the settings of the eight pumps. The
-- float is a type with the operations that the code uses of it, and a name is the list of its characters.
pub mod Within
pub mod Limits
use Prim.Native.Nat.{bit_and}
use aqua_one.Base.{
  ℕ, ◌+◌, Bool, true, false, not, ◌&&◌, ◌||◌, ltb, leb, ◌==◌, if◌then◌else◌, List, [], ◌∷◌, length,
  get_or, set,
}
use aqua_one.Doser.Driver.{pump_count}

-- `runtime_ms` is static_cast<unsigned long>(ceil(seconds * 1000.0F)); the last three are the limits of
-- aquaOneDoser/include/app_config.h.
pub record Doses (F : Type 0) : Type 0 where
  pub lt : F → F → Bool
  pub le : F → F → Bool
  pub sub : F → F → F
  pub div : F → F → F
  pub is_finite : F → Bool
  pub runtime_ms : F → ℕ
  pub zero_f : F
  pub max_single_dose : F
  pub max_remaining : F
  pub max_runtime_sec : F

pub record PumpConfig (F : Type 0) : Type 0 where
  pub enabled : Bool
  pub name : List ℕ
  pub calibration : F
  pub dose : F
  pub hour : ℕ
  pub minute : ℕ
  pub days_mask : ℕ
  pub remaining : F
  pub reservoir_set_timestamp : ℕ
  pub last_dose_date : ℕ
  pub last_missed_dose_date : ℕ

module _ {F : Type 0} (k : Doses F) where
  -- The static invalidPump, all of it zero.
  abbrev pub invalid_pump : PumpConfig F
  invalid_pump = record {
    enabled = false;
    name = [];
    calibration = k.zero_f;
    dose = k.zero_f;
    hour = 0;
    minute = 0;
    days_mask = 0;
    remaining = k.zero_f;
    reservoir_set_timestamp = 0;
    last_dose_date = 0;
    last_missed_dose_date = 0;
  }

  abbrev pub get_pump : List (PumpConfig F) → ℕ → PumpConfig F
  get_pump pumps index = get_or pumps index invalid_pump

  unfoldable pub valid_non_negative : F → Bool
  valid_non_negative value = k.is_finite value && k.le k.zero_f value

  unfoldable pub set_enabled : List (PumpConfig F) → ℕ → Bool → List (PumpConfig F) × Bool
  set_enabled pumps index enabled =
      if not (ltb index pump_count)
      then (pumps, false)
      else (set pumps index (record (get_pump pumps index) { enabled = enabled }), true)

  -- setName of a name with at least one character.
  unfoldable pub set_name : List (PumpConfig F) → ℕ → List ℕ → List (PumpConfig F) × Bool
  set_name pumps index name =
      if not (ltb index pump_count) || length name == 0 || leb 32 (length name)
      then (pumps, false)
      else (set pumps index (record (get_pump pumps index) { name = name }), true)

  unfoldable pub set_calibration : List (PumpConfig F) → ℕ → F → List (PumpConfig F) × Bool
  set_calibration pumps index value =
      if not (ltb index pump_count) || not (valid_non_negative value)
      then (pumps, false)
      else (set pumps index (record (get_pump pumps index) { calibration = value }), true)

  unfoldable pub set_dose : List (PumpConfig F) → ℕ → F → List (PumpConfig F) × Bool
  set_dose pumps index value =
      if not (ltb index pump_count)
        || not (valid_non_negative value)
        || k.lt k.max_single_dose value
      then (pumps, false)
      else (set pumps index (record (get_pump pumps index) { dose = value }), true)

  unfoldable pub set_schedule : List (PumpConfig F) → ℕ → ℕ → ℕ → ℕ → List (PumpConfig F) × Bool
  set_schedule pumps index hour minute days_mask =
      if not (ltb index pump_count)
        || ltb 23 hour
        || ltb 59 minute
        || not (bit_and days_mask 0x80 == 0)
      then (pumps, false)
      else (
        set pumps index
            (record (get_pump pumps index) { hour = hour; minute = minute; days_mask = days_mask }),
        true,
      )

  unfoldable pub set_remaining : List (PumpConfig F) → ℕ → F → ℕ → List (PumpConfig F) × Bool
  set_remaining pumps index value timestamp =
      if not (ltb index pump_count) || not (valid_non_negative value) || k.lt k.max_remaining value
      then (pumps, false)
      else (
        set pumps index (record (get_pump pumps index) {
          remaining = value;
          reservoir_set_timestamp = timestamp;
        }),
        true,
      )
