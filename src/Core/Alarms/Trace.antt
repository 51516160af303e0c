-- ===== src/Core/Alarms/Trace.antt =====
-- What holds of aquaOneCore/include/AquaCore/Alarms/AlarmState.h through any sequence of its operations.
use aqua_one.Base.{◌≡◌, Bool, true, false, not, ◌&&◌, ◌||◌, List, [], ◌∷◌, arith}
use aqua_one.Core.Alarms.{
  AlarmState, fresh, persistent_state, restore, set_condition, acknowledge, clear_latched,
}

pub data Call : Type 0 where
  restores : Bool → Call
  sets : Bool → Call
  acknowledges : Call
  clears : Call

unfoldable pub call : AlarmState → Call → AlarmState
call s (restores pending) = (restore s pending).0
call s (sets active) = (set_condition s active).0
call s acknowledges = (acknowledge s).0
call s clears = (clear_latched s).0

unfoldable pub run : AlarmState → List Call → AlarmState
run s [] = s
run s (c ∷ cs) = run (call s c) cs

-- Only an active alarm is acknowledged; an active condition is known and has its alarm; an alarm without
-- a condition is latched, and none is there before the restore or the first live call.
pub record IsSound (s : AlarmState) : Type 0 where
  pub acknowledged_active : (s.acknowledged && not s.alarm_active) ≡ false
  pub condition_raises : (s.condition_active && not (s.alarm_active && s.condition_known)) ≡ false
  pub only_latched_stays : (s.alarm_active && not s.condition_active && not s.latched) ≡ false
  pub nothing_early : (s.alarm_active && not (s.restore_attempted || s.live_started)) ≡ false
  pub known_is_live : (s.condition_known && not s.live_started) ≡ false

restore-IsSound : (s : AlarmState) (p : Bool) → IsSound s → IsSound (restore s p).0
unfolding restore
restore-IsSound s p x = ground arith

set_condition-IsSound : (s : AlarmState) (a : Bool) → IsSound s → IsSound (set_condition s a).0
unfolding set_condition
set_condition-IsSound s a x = ground arith

acknowledge-IsSound : (s : AlarmState) → IsSound s → IsSound (acknowledge s).0
unfolding acknowledge
acknowledge-IsSound s x = ground arith

clear_latched-IsSound : (s : AlarmState) → IsSound s → IsSound (clear_latched s).0
unfolding clear_latched
clear_latched-IsSound s x = ground arith

call-IsSound : (s : AlarmState) (c : Call) → IsSound s → IsSound (call s c)
unfolding call
call-IsSound s (restores p) x = restore-IsSound s p x
call-IsSound s (sets a) x = set_condition-IsSound s a x
call-IsSound s acknowledges x = acknowledge-IsSound s x
call-IsSound s clears x = clear_latched-IsSound s x

run_from-IsSound : (s : AlarmState) (cs : List Call) → IsSound s → IsSound (run s cs)
unfolding run
run_from-IsSound s [] x = x
run_from-IsSound s (c ∷ cs) x = run_from-IsSound (call s c) cs (call-IsSound s c x)

-- After any calls of a new alarm's operations, in any order: only an active alarm is acknowledged, an
-- active condition has its alarm, and an alarm outlasts its condition only if it is latched.
pub run-IsSound : (l : Bool) (cs : List Call) → IsSound (run (fresh l) cs)
run-IsSound l cs = run_from-IsSound (fresh l) cs (ground arith)

-- No call but a clearing of the latch.
abbrev pub KeepsLatch : List Call → Type 0
KeepsLatch [] = Unit
KeepsLatch (restores p ∷ cs) = KeepsLatch cs
KeepsLatch (sets a ∷ cs) = KeepsLatch cs
KeepsLatch (acknowledges ∷ cs) = KeepsLatch cs
KeepsLatch (clears ∷ cs) = ⊥

restore_keeps :
    (s : AlarmState) (p : Bool)
    → IsSound s
    → (s.latched && s.alarm_active) ≡ true
    → ((restore s p).0.latched && (restore s p).0.alarm_active) ≡ true
unfolding restore
restore_keeps s p x h = ground arith

set_condition_keeps :
    (s : AlarmState) (a : Bool)
    → (s.latched && s.alarm_active) ≡ true
    → ((set_condition s a).0.latched && (set_condition s a).0.alarm_active) ≡ true
unfolding set_condition
set_condition_keeps s a h = ground arith

acknowledge_keeps :
    (s : AlarmState)
    → (s.latched && s.alarm_active) ≡ true
    → ((acknowledge s).0.latched && (acknowledge s).0.alarm_active) ≡ true
unfolding acknowledge
acknowledge_keeps s h = ground arith

-- A sound, latched alarm that is active is still to be restored after a restart, whatever is called, up to
-- clearLatched(): neither the end of its condition nor an acknowledgement ends it.
pub latch_persists :
    (s : AlarmState) (cs : List Call)
    → IsSound s
    → KeepsLatch cs
    → persistent_state s ≡ true
    → persistent_state (run s cs) ≡ true
unfolding run call
latch_persists s [] x k h = h
latch_persists s (restores p ∷ cs) x k h =
    latch_persists (restore s p).0 cs (restore-IsSound s p x) k (restore_keeps s p x h)
latch_persists s (sets a ∷ cs) x k h =
    latch_persists (set_condition s a).0 cs (set_condition-IsSound s a x) k
      (set_condition_keeps s a h)
latch_persists s (acknowledges ∷ cs) x k h =
    latch_persists (acknowledge s).0 cs (acknowledge-IsSound s x) k (acknowledge_keeps s h)
latch_persists s (clears ∷ cs) x k h = absurd k

-- What an alarm persists, restored into a new alarm of its kind, is active just when it was to be, is not
-- acknowledged, persists as the same again, and is cleared only once its condition is known to be over.
pub restore-persistent_state :
    (s : AlarmState)
    → let t = (restore (fresh s.latched) (persistent_state s)).0 in
      (t.alarm_active ≡ persistent_state s)
      × (t.acknowledged ≡ false)
      × (persistent_state t ≡ persistent_state s)
      × (persistent_state (clear_latched t).0 ≡ persistent_state s)
      × (persistent_state (clear_latched (set_condition t false).0).0 ≡ false)
unfolding restore clear_latched set_condition
restore-persistent_state s = ground arith
