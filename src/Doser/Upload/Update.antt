-- ===== src/Doser/Upload/Update.antt =====
-- The update of the firmware that the application task executes, by aquaOneDoser/src/DoserOtaApplication.cpp
-- and .h. The calls of the authority over the flash and the pumps and of the restart scheduler are kept in
-- order; what they and the bridge answer is an argument. The texts of a result are left out.
pub mod Image
pub mod Sound
pub mod Session
pub mod Replies
mod Examples
use aqua_one.Base.{
  ℕ, zero, suc, ◌+◌, ◌-◌, Bool, true, false, not, ◌&&◌, ◌||◌, ◌==◌, ltb, leb, if◌then◌else◌, List,
  [], ◌∷◌, ◌++◌, length, take, Option, none, some, word, elapsed, add32,
}
use aqua_one.Doser.Upload.Bridge.{
  Operation, start, chunk, end, arm_restart, is_arm_restart, OtaError, fine, invalid, busy,
  too_large, update_failure, unavailable, Command,
}

-- State.
pub data State : Type 0 where
  idle : State
  starting : State
  receiving : State
  finalizing : State
  succeeded_awaiting_restart : State
  aborting : State
  failed : State

-- What DoserOtaAuthority and DoserOtaRestartScheduler are asked to do, with what came of it.
pub data Call : Type 0 where
  stop_pumps : Call
  set_ota_in_progress : Bool → Call
  begin_update : ℕ → Bool → Call
  write_firmware : List ℕ → ℕ → Call
  end_update : Bool → Call
  abort_update : Call
  schedule_restart : Bool → Call

pub record Updater : Type 0 where
  pub state : State
  pub generation : ℕ
  pub expected : ℕ
  pub received : ℕ
  pub finalized_at : ℕ
  pub update_begun : Bool
  pub ota_guard : Bool
  pub restart_armed : Bool
  -- The last call first.
  pub calls : List Call

-- The answers that one command may read.
pub record Answers : Type 0 where
  pub restart_pending : Bool
  pub available_space : ℕ
  pub begins : Bool
  pub written : ℕ
  pub ends : Bool
  pub now : ℕ
  pub scheduled : Bool
  pub canceled : Bool

abbrev pub fresh_updater : Updater
fresh_updater = record {
  state = idle;
  generation = 0;
  expected = 0;
  received = 0;
  finalized_at = 0;
  update_begun = false;
  ota_guard = false;
  restart_armed = false;
  calls = [];
}

abbrev pub is_idle : State → Bool
is_idle idle = true
is_idle _ = false

abbrev pub is_receiving : State → Bool
is_receiving receiving = true
is_receiving _ = false

abbrev pub is_succeeded : State → Bool
is_succeeded succeeded_awaiting_restart = true
is_succeeded _ = false

abbrev call_if : Bool → Call → List Call → List Call
call_if true c cs = c ∷ cs
call_if false c cs = cs

-- cleanup().
unfoldable pub cleanup : Updater → Updater
cleanup u = record u {
  state = idle;
  generation = 0;
  expected = 0;
  received = 0;
  update_begun = false;
  ota_guard = false;
  restart_armed = false;
  calls =
      call_if u.ota_guard (set_ota_in_progress false) (call_if u.update_begun abort_update u.calls);
}

-- fail(error, diagnostic).
unfoldable pub fail : OtaError → Updater → Updater × OtaError
unfolding cleanup
fail e u = (cleanup u, e)

-- execute of a Start.
unfoldable pub execute_start : Answers → Command → Updater → Updater × OtaError
unfolding cleanup fail
execute_start a c u =
    let begun = record u {
      state = starting;
      generation = c.generation;
      expected = c.expected_size;
      received = 0;
      ota_guard = true;
      calls =
          begin_update c.expected_size a.begins ∷ set_ota_in_progress true ∷ stop_pumps ∷ u.calls;
    } in
    if not (is_idle u.state) || c.generation == 0 || c.expected_size == 0
    then (u, invalid)
    else if a.restart_pending
    then (u, busy)
    else if ltb a.available_space c.expected_size
    then (u, too_large)
    else if not a.begins
    then (cleanup begun, update_failure)
    else if a.canceled
    then fail unavailable (record begun { update_begun = true })
    else (record begun { update_begun = true; state = receiving }, fine)

-- execute of an ArmRestart.
unfoldable pub execute_arm_restart : Answers → Updater → Updater × OtaError
execute_arm_restart a u =
    let armed = record u {
      restart_armed = a.scheduled;
      calls = schedule_restart a.scheduled ∷ u.calls;
    } in
    if not (is_succeeded u.state)
    then (u, invalid)
    else if u.restart_armed
    then (u, fine)
    else (armed, if a.scheduled then fine else unavailable)

-- execute of a Chunk.
unfoldable pub execute_chunk : Answers → Command → Option (List ℕ) → Updater → Updater × OtaError
unfolding cleanup fail
execute_chunk a c none u = (u, invalid)
execute_chunk a c (some bytes) u =
    let wrote = record u { calls = write_firmware (take c.size bytes) a.written ∷ u.calls } in
    let counted = record wrote { received = add32 u.received c.size } in
    if c.size == 0 || ltb 1024 c.size
    then (u, invalid)
    else if ltb (elapsed u.expected u.received) c.size
    then fail invalid u
    else if not (a.written == c.size)
    then (cleanup wrote, update_failure)
    else if a.canceled
    then fail unavailable counted
    else (counted, fine)

-- execute of an End.
unfoldable pub execute_end : Answers → Updater → Updater × OtaError
unfolding cleanup fail
execute_end a u =
    let ended = record u { state = finalizing; calls = end_update a.ends ∷ u.calls } in
    if not (u.received == u.expected)
    then fail invalid u
    else if not a.ends
    then (cleanup ended, update_failure)
    else (
      record ended {
        update_begun = false;
        finalized_at = a.now;
        state = succeeded_awaiting_restart;
      },
      fine,
    )

abbrev pub execute_kind :
    Operation → Answers → Command → Option (List ℕ) → Updater → Updater × OtaError
execute_kind start a c bytes u = execute_start a c u
execute_kind arm_restart a c bytes u = execute_arm_restart a u
execute_kind chunk a c bytes u =
    if is_receiving u.state then execute_chunk a c bytes u else (u, invalid)
execute_kind end a c bytes u = if is_receiving u.state then execute_end a u else (u, invalid)

abbrev pub is_start : Operation → Bool
is_start start = true
is_start _ = false

-- execute(command, bytes).
unfoldable pub execute : Answers → Command → Option (List ℕ) → Updater → Updater × OtaError
execute a c bytes u =
    if not (is_start c.kind) && (c.generation == 0 || not (c.generation == u.generation))
    then (u, invalid)
    else execute_kind c.kind a c bytes u

-- What processOne asks of the bridge: complete with a result, and releaseSession.
pub record Requests : Type 0 where
  pub completes : Option OtaError
  pub releases : Option ℕ
  pub busy_turn : Bool

-- processOne() on a command that take gave; `canceled` is what cancellationRequested says before.
unfoldable pub process_command :
    Answers → Bool → Command → Option (List ℕ) → Updater → Updater × Requests
unfolding fail
process_command a canceled c bytes u =
    let (v, e) =
      if canceled && not (is_arm_restart c.kind) then fail unavailable u else execute a c bytes u in
    (
      v,
      record {
        completes = some e;
        releases = if is_idle v.state then some c.generation else none;
        busy_turn = true;
      },
    )

-- processOne() where take gave no command: `canceled` is the cancellation of the generation in use, and
-- `active` the generation that the bridge has, with its cancellation.
unfoldable pub process_none : Bool → ℕ → Bool → Updater → Updater × Requests
unfolding cleanup
process_none canceled active active_canceled u =
    if not (u.generation == 0) && not (is_succeeded u.state) && canceled
    then (cleanup u, record { completes = none; releases = some u.generation; busy_turn = true })
    else if not (active == 0) && is_idle u.state && active_canceled
    then (u, record { completes = none; releases = some active; busy_turn = true })
    else (u, record { completes = none; releases = none; busy_turn = false })

-- serviceRestartWatchdog().
unfoldable pub service_restart_watchdog : ℕ → Bool → Updater → Updater
service_restart_watchdog now scheduled u =
    if is_succeeded u.state && not u.restart_armed && leb 30000 (elapsed now u.finalized_at)
    then record u { restart_armed = scheduled; calls = schedule_restart scheduled ∷ u.calls }
    else u

-- The capacity that publishCapacity() publishes: the bytes, and whether there are any.
unfoldable pub capacity : ℕ → ℕ × Bool
capacity available =
    (if ltb (word - 1) available then word - 1 else available, not (available == 0))

-- blocksMqttService(); `uploading` is uploadActive() of the bridge.
unfoldable pub blocks_mqtt_service : Bool → Updater → Bool
blocks_mqtt_service uploading u = uploading || is_succeeded u.state
