-- ===== src/Hydro/Devices.antt =====
-- aquaOneHydro/src/hardware/{Pump,FloatSensor,Button}.cpp. The pin level that digitalRead returns and
-- each reading of millis() are arguments. pinMode and the constructors' pin numbers are left out.
use aqua_one.Base.{ℕ, Bool, true, false, not, ◌&&◌, leb, same, if◌then◌else◌, elapsed}

-- `pin_high` is the level of the output, `is_on` the driver's own record of it.
pub record Pump : Type 0 where
  pub pin_high : Bool
  pub is_on : Bool

unfoldable pub pump_begin : Pump → Pump
pump_begin p = record { pin_high = false; is_on = false }

unfoldable pub pump_on : Pump → Pump
pump_on p = record { pin_high = true; is_on = true }

unfoldable pub pump_off : Pump → Pump
pump_off p = record { pin_high = false; is_on = false }

-- readActive() and readPressed(): the pin's level, inverted for an active-low input.
unfoldable pub read_active : Bool → Bool → Bool
read_active active_low pin_high = if active_low then not pin_high else pin_high

pub record FloatSensor : Type 0 where
  pub active_low : Bool
  pub debounce_ms : ℕ
  pub raw_state : Bool
  pub stable_state : Bool
  pub last_change_ms : ℕ

unfoldable pub float_configure : FloatSensor → Bool → ℕ → FloatSensor
float_configure s active_low debounce_ms = record s {
  active_low = active_low;
  debounce_ms = debounce_ms;
}

unfoldable pub float_begin : FloatSensor → Bool → ℕ → FloatSensor
unfolding read_active
float_begin s pin_high now =
    let raw = read_active s.active_low pin_high in
    record s { raw_state = raw; stable_state = raw; last_change_ms = now }

float_note : FloatSensor → Bool → ℕ → FloatSensor
float_note s current now =
    if same current s.raw_state then s else record s { raw_state = current; last_change_ms = now }

float_settle : FloatSensor → ℕ → FloatSensor
float_settle s now =
    if not (same s.stable_state s.raw_state) && leb s.debounce_ms (elapsed now s.last_change_ms)
    then record s { stable_state = s.raw_state }
    else s

unfoldable pub float_update : FloatSensor → Bool → ℕ → FloatSensor
unfolding read_active float_note float_settle
float_update s pin_high now =
    float_settle (float_note s (read_active s.active_low pin_high) now) now

pub record Button : Type 0 where
  pub active_low : Bool
  pub debounce_ms : ℕ
  pub long_press_ms : ℕ
  pub raw_pressed : Bool
  pub stable_pressed : Bool
  pub long_press_reported : Bool
  pub short_press_event : Bool
  pub long_press_event : Bool
  pub raw_change_ms : ℕ
  pub press_start_ms : ℕ

-- `changed` and `pressed` are the two readings of millis() in begin().
unfoldable pub button_begin : Button → Bool → ℕ → ℕ → Button
unfolding read_active
button_begin b pin_high changed pressed =
    let raw = read_active b.active_low pin_high in
    record b {
      raw_pressed = raw;
      stable_pressed = raw;
      long_press_reported = false;
      short_press_event = false;
      long_press_event = false;
      raw_change_ms = changed;
      press_start_ms = if raw then pressed else 0;
    }

button_note : Button → Bool → ℕ → Button
button_note b current now =
    if same current b.raw_pressed
    then b
    else record b { raw_pressed = current; raw_change_ms = now }

-- A stable change: a press starts the long-press clock, a release reports a short press unless the
-- press was already reported as long.
button_settle : Button → ℕ → Button
button_settle b now =
    if not (same b.stable_pressed b.raw_pressed) && leb b.debounce_ms (elapsed now b.raw_change_ms)
    then (if b.raw_pressed
        then record b { stable_pressed = true; press_start_ms = now; long_press_reported = false }
        else record b {
          stable_pressed = false;
          short_press_event = if b.long_press_reported then b.short_press_event else true;
          press_start_ms = 0;
        })
    else b

button_hold : Button → ℕ → Button
button_hold b now =
    if b.stable_pressed
      && (not b.long_press_reported && leb b.long_press_ms (elapsed now b.press_start_ms))
    then record b { long_press_reported = true; long_press_event = true }
    else b

unfoldable pub button_update : Button → Bool → ℕ → Button
unfolding read_active button_note button_settle button_hold
button_update b pin_high now =
    button_hold (button_settle (button_note b (read_active b.active_low pin_high) now) now) now

-- shortPress() and longPress() consume their event.
unfoldable pub short_press : Button → Button × Bool
short_press b =
    if b.short_press_event then (record b { short_press_event = false }, true) else (b, false)

unfoldable pub long_press : Button → Button × Bool
long_press b =
    if b.long_press_event then (record b { long_press_event = false }, true) else (b, false)
