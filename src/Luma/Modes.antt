-- ===== src/Luma/Modes.antt =====
-- The modes of the light, by aquaOneLuma/src/core/ModeManager.cpp and .h. What each operation leaves in the
-- object and returns.
pub mod Stack
use aqua_one.Base.{ℕ, ◌+◌, Bool, true, false, not, ◌&&◌, ◌||◌, ltb, if◌then◌else◌}

-- OperatingMode.
pub data Mode : Type 0 where
  normal : Mode
  service : Mode
  manual : Mode
  channel_test : Mode
  preview : Mode
  simulation : Mode
  off : Mode

pub record Manager : Type 0 where
  pub mode : Mode
  pub base_mode : Mode
  pub return_mode : Mode
  pub manual_active : Bool
  pub channel_test_active : Bool
  pub preview_active : Bool
  pub simulation_active : Bool

-- resetToNormal(), and the initial values.
abbrev pub reset_to_normal : Manager
reset_to_normal = record {
  mode = normal;
  base_mode = normal;
  return_mode = normal;
  manual_active = false;
  channel_test_active = false;
  preview_active = false;
  simulation_active = false;
}

abbrev pub is_off : Mode → Bool
is_off off = true
is_off _ = false

abbrev pub is_service : Mode → Bool
is_service service = true
is_service _ = false

abbrev pub is_manual : Mode → Bool
is_manual manual = true
is_manual _ = false

abbrev pub is_channel_test : Mode → Bool
is_channel_test channel_test = true
is_channel_test _ = false

abbrev pub is_preview : Mode → Bool
is_preview preview = true
is_preview _ = false

abbrev pub is_simulation : Mode → Bool
is_simulation simulation = true
is_simulation _ = false

-- priorityOf(mode).
abbrev pub priority_of : Mode → ℕ
priority_of off = 7
priority_of channel_test = 6
priority_of manual = 5
priority_of preview = 4
priority_of simulation = 3
priority_of service = 2
priority_of normal = 1

-- canEnterOverride(requestedMode).
unfoldable pub can_enter_override : Manager → Mode → Bool
can_enter_override m requested =
    not (is_off m.mode) && ltb (priority_of m.mode) (priority_of requested)

-- The first switch of refreshModes(): the mode.
unfoldable pub mode_of : Manager → Mode
mode_of m =
    if m.channel_test_active
    then channel_test
    else if m.manual_active
    then manual
    else if m.preview_active
    then preview
    else if m.simulation_active
    then simulation
    else m.base_mode

-- The second switch of refreshModes(): where the mode returns to.
unfoldable pub return_of : Mode → Manager → Mode
return_of channel_test m =
    if m.manual_active
    then manual
    else if m.preview_active
    then preview
    else if m.simulation_active
    then simulation
    else m.base_mode
return_of manual m =
    if m.preview_active then preview else if m.simulation_active then simulation else m.base_mode
return_of preview m = if m.simulation_active then simulation else m.base_mode
return_of _ m = m.base_mode

-- refreshModes().
unfoldable pub refresh_modes : Manager → Manager
unfolding mode_of return_of
refresh_modes m =
    if is_off m.mode
    then record m { return_mode = normal }
    else record m { mode = mode_of m; return_mode = return_of (mode_of m) m }

-- enterService() and exitService().
unfoldable pub enter_service : Manager → Manager × Bool
unfolding refresh_modes
enter_service m =
    if is_off m.mode || is_service m.base_mode
    then (m, false)
    else (refresh_modes (record m { base_mode = service }), true)

unfoldable pub exit_service : Manager → Manager × Bool
unfolding refresh_modes
exit_service m =
    if is_off m.mode || not (is_service m.base_mode)
    then (m, false)
    else (refresh_modes (record m { base_mode = normal }), true)

-- enterManual() and exitManual().
unfoldable pub enter_manual : Manager → Manager × Bool
unfolding refresh_modes can_enter_override
enter_manual m =
    if m.manual_active || not (can_enter_override m manual)
    then (m, false)
    else (refresh_modes (record m { manual_active = true }), true)

unfoldable pub exit_manual : Manager → Manager × Bool
unfolding refresh_modes
exit_manual m =
    if not (is_manual m.mode) || not m.manual_active
    then (m, false)
    else (refresh_modes (record m { manual_active = false }), true)

-- enterChannelTest() and exitChannelTest().
unfoldable pub enter_channel_test : Manager → Manager × Bool
unfolding refresh_modes can_enter_override
enter_channel_test m =
    if m.channel_test_active || not (can_enter_override m channel_test)
    then (m, false)
    else (refresh_modes (record m { channel_test_active = true }), true)

unfoldable pub exit_channel_test : Manager → Manager × Bool
unfolding refresh_modes
exit_channel_test m =
    if not (is_channel_test m.mode) || not m.channel_test_active
    then (m, false)
    else (refresh_modes (record m { channel_test_active = false }), true)

-- enterPreview() and exitPreview().
unfoldable pub enter_preview : Manager → Manager × Bool
unfolding refresh_modes can_enter_override
enter_preview m =
    if m.preview_active || not (can_enter_override m preview)
    then (m, false)
    else (refresh_modes (record m { preview_active = true }), true)

unfoldable pub exit_preview : Manager → Manager × Bool
unfolding refresh_modes
exit_preview m =
    if not (is_preview m.mode) || not m.preview_active
    then (m, false)
    else (refresh_modes (record m { preview_active = false }), true)

-- enterSimulation() and exitSimulation().
unfoldable pub enter_simulation : Manager → Manager × Bool
unfolding refresh_modes can_enter_override
enter_simulation m =
    if m.simulation_active || not (can_enter_override m simulation)
    then (m, false)
    else (refresh_modes (record m { simulation_active = true }), true)

unfoldable pub exit_simulation : Manager → Manager × Bool
unfolding refresh_modes
exit_simulation m =
    if not (is_simulation m.mode) || not m.simulation_active
    then (m, false)
    else (refresh_modes (record m { simulation_active = false }), true)

-- enterOff() and exitOff().
unfoldable pub enter_off : Manager → Manager × Bool
enter_off m = if is_off m.mode then (m, false) else (record reset_to_normal { mode = off }, true)

unfoldable pub exit_off : Manager → Manager × Bool
unfolding refresh_modes
exit_off m =
    if not (is_off m.mode)
    then (m, false)
    else (refresh_modes (record m { mode = normal; base_mode = normal }), true)

-- A call of an operation.
pub data Operation : Type 0 where
  enter : Mode → Operation
  exit : Mode → Operation

unfoldable pub call : Operation → Manager → Manager × Bool
unfolding enter_service exit_service enter_manual exit_manual enter_channel_test exit_channel_test
    enter_preview exit_preview enter_simulation exit_simulation enter_off exit_off
call (enter normal) m = (m, false)
call (enter service) m = enter_service m
call (enter manual) m = enter_manual m
call (enter channel_test) m = enter_channel_test m
call (enter preview) m = enter_preview m
call (enter simulation) m = enter_simulation m
call (enter off) m = enter_off m
call (exit normal) m = (m, false)
call (exit service) m = exit_service m
call (exit manual) m = exit_manual m
call (exit channel_test) m = exit_channel_test m
call (exit preview) m = exit_preview m
call (exit simulation) m = exit_simulation m
call (exit off) m = exit_off m
