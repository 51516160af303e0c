-- ===== src/Core/Alarms.antt =====
-- aquaOneCore/include/AquaCore/Alarms/AlarmState.h: one alarm, which may be latched. Its id, which no
-- operation reads, is left out.
pub mod Trace
mod Examples
use aqua_one.Base.{Bool, true, false, not, ◌&&◌, ◌||◌, same, if◌then◌else◌}

pub data TransitionResult : Type 0 where
  no_change activated cleared condition_recovered acknowledged_now latch_cleared reoccurred
        condition_confirmed :
      TransitionResult

pub data RestoreResult : Type 0 where
  restored already_attempted live_started_before incompatible_state : RestoreResult

pub record AlarmState : Type 0 where
  pub latched : Bool
  pub condition_active : Bool
  pub alarm_active : Bool
  pub acknowledged : Bool
  pub condition_known : Bool
  pub restore_attempted : Bool
  pub live_started : Bool

-- The constructor.
abbrev pub fresh : Bool → AlarmState
fresh l = record {
  latched = l;
  condition_active = false;
  alarm_active = false;
  acknowledged = false;
  condition_known = false;
  restore_attempted = false;
  live_started = false;
}

-- persistentState().latchedPending.
abbrev pub persistent_state : AlarmState → Bool
persistent_state s = s.latched && s.alarm_active

unfoldable pub restore : AlarmState → Bool → AlarmState × RestoreResult
restore s pending =
    if s.restore_attempted
    then (s, already_attempted)
    else (let t = record s { restore_attempted = true } in
        if t.live_started
        then (t, live_started_before)
        else if not t.latched && pending
        then (t, incompatible_state)
        else (record t { alarm_active = pending; acknowledged = false }, restored))

unfoldable pub set_condition : AlarmState → Bool → AlarmState × TransitionResult
set_condition s active =
    let t = record s { live_started = true; condition_known = true } in
    if same active s.condition_active
    then (t, no_change)
    else if active
    then (
      record t { condition_active = active; alarm_active = true; acknowledged = false },
      if s.alarm_active && not s.condition_known
          then condition_confirmed
          else if s.alarm_active
          then reoccurred
          else activated,
    )
    else if s.latched
    then (record t { condition_active = active }, condition_recovered)
    else (
      record t { condition_active = active; alarm_active = false; acknowledged = false },
      cleared,
    )

unfoldable pub acknowledge : AlarmState → AlarmState × TransitionResult
acknowledge s =
    let t = record s { live_started = true } in
    if not t.alarm_active || t.acknowledged
    then (t, no_change)
    else (record t { acknowledged = true }, acknowledged_now)

unfoldable pub clear_latched : AlarmState → AlarmState × TransitionResult
clear_latched s =
    let t = record s { live_started = true } in
    if not t.latched || not t.condition_known || t.condition_active || not t.alarm_active
    then (t, no_change)
    else (record t { alarm_active = false; acknowledged = false }, latch_cleared)
