-- ===== src/Doser/Upload/Bridge.antt =====
-- The slot between the web task, which brings the upload, and the application task, which executes it:
-- aquaOneDoser/src/StreamingUploadBridge.cpp and .h. A result is its error, without the text. Each operation is what happens under one hold of the
-- lock; `locked` says whether the lock was given, and the other answers of the synchronizer are arguments
-- too. wait holds the lock twice, and so it is two operations.
pub mod Safety
mod Examples
use aqua_one.Base.{
  ℕ, zero, suc, ◌+◌, ◌-◌, ◌^◌, Bool, true, false, not, ◌&&◌, ◌||◌, ◌==◌, ltb, leb, if◌then◌else◌,
  List, [], ◌∷◌, ◌++◌, length, take, drop, replicate, Option, none, some,
}

-- DoserOtaError.
pub data OtaError : Type 0 where
  fine : OtaError
  invalid : OtaError
  busy : OtaError
  too_large : OtaError
  update_failure : OtaError
  unavailable : OtaError

-- UploadOperation.
pub data Operation : Type 0 where
  start : Operation
  chunk : Operation
  end : Operation
  arm_restart : Operation

-- UploadSlotState.
pub data SlotState : Type 0 where
  free : SlotState
  queued : SlotState
  processing : SlotState
  completed : SlotState

-- UploadWaitResult: Completed comes with the result.
pub data WaitResult : Type 0 where
  result : OtaError → WaitResult
  timed_out : WaitResult
  no_result : WaitResult

-- UploadAdmission: Accepted comes with the generation.
pub data Admission : Type 0 where
  accepted : ℕ → Admission
  refused : Admission
  unlocked : Admission
  exhausted : Admission

-- UploadCommand.
pub record Command : Type 0 where
  pub kind : Operation
  pub generation : ℕ
  pub expected_size : ℕ
  pub size : ℕ

-- StreamingUploadBridge.
pub record Bridge : Type 0 where
  pub buffer : List ℕ
  pub command : Command
  pub outcome : OtaError
  pub last_generation : ℕ
  pub active_generation : ℕ
  pub slot : SlotState
  pub cancel_requested : Bool
  pub waiter_attached : Bool

abbrev pub is_free : SlotState → Bool
is_free free = true
is_free _ = false

abbrev pub is_queued : SlotState → Bool
is_queued queued = true
is_queued _ = false

abbrev pub is_processing : SlotState → Bool
is_processing processing = true
is_processing _ = false

abbrev pub is_completed : SlotState → Bool
is_completed completed = true
is_completed _ = false

abbrev pub is_chunk : Operation → Bool
is_chunk chunk = true
is_chunk _ = false

abbrev pub is_arm_restart : Operation → Bool
is_arm_restart arm_restart = true
is_arm_restart _ = false

abbrev pub same_kind : Operation → Operation → Bool
same_kind start start = true
same_kind chunk chunk = true
same_kind end end = true
same_kind arm_restart arm_restart = true
same_kind _ _ = false

-- StreamingUploadBridge(sync, lastGeneration).
abbrev pub fresh : ℕ → Bridge
fresh last = record {
  buffer = replicate 1024 0;
  command = record { kind = start; generation = 0; expected_size = 0; size = 0 };
  outcome = fine;
  last_generation = last;
  active_generation = 0;
  slot = free;
  cancel_requested = false;
  waiter_attached = false;
}

-- admitSession(generation).
unfoldable pub admit_session : Bool → Bridge → Bridge × Admission
admit_session locked b =
    let next = b.last_generation + 1 in
    if not locked
    then (b, unlocked)
    else if not (b.active_generation == 0 && is_free b.slot)
    then (b, refused)
    else if b.last_generation == 2 ^ 64 - 1
    then (b, exhausted)
    else (
      record b { last_generation = next; active_generation = next; cancel_requested = false },
      accepted next,
    )

-- requestCancel(generation).
unfoldable pub request_cancel : Bool → ℕ → Bridge → Bridge × Bool
request_cancel locked generation b =
    let matches = b.active_generation == generation in
    if generation == 0 || not locked
    then (b, false)
    else if matches
    then (record b { cancel_requested = true }, true)
    else (b, false)

-- cancellationRequested(generation).
unfoldable pub cancellation_requested : Bool → ℕ → Bridge → Bool
cancellation_requested locked generation b =
    not locked || (b.active_generation == generation && b.cancel_requested)

-- releaseSession(generation).
unfoldable pub release_session : Bool → ℕ → Bridge → Bridge × Bool
release_session locked generation b =
    let released =
      not (generation == 0)
      && b.active_generation == generation
      && not (is_processing b.slot)
      && not (is_queued b.slot) in
    if not locked
    then (b, false)
    else if released
    then (record b { active_generation = 0; cancel_requested = false }, true)
    else (b, false)

abbrev has_bytes : Option (List ℕ) → Bool
has_bytes none = false
has_bytes (some l) = true

-- memcpy of the bytes over the front of the buffer.
abbrev copy_into : ℕ → Option (List ℕ) → List ℕ → List ℕ
copy_into n none buffer = buffer
copy_into n (some l) buffer = take n l ++ drop n buffer

-- submit(command, bytes); `prepared` is that the synchronizer has a slot and has prepared it.
unfoldable pub submit : Bool → Bool → Command → Option (List ℕ) → Bridge → Bridge × Bool
submit locked prepared c bytes b =
    if c.generation == 0
      || ltb 1024 c.size
      || (is_chunk c.kind && (c.size == 0 || not (has_bytes bytes)))
      || (not (is_chunk c.kind) && not (c.size == 0))
      || not locked
    then (b, false)
    else if prepared
        && c.generation == b.active_generation
        && not b.cancel_requested
        && is_free b.slot
    then (
      record b {
        command = c;
        buffer = if is_chunk c.kind then copy_into c.size bytes b.buffer else b.buffer;
        slot = queued;
        waiter_attached = true;
      },
      true,
    )
    else (b, false)

-- wait(generation, timeoutMs, result) up to waitForCompletion: none if the wait is begun.
unfoldable pub wait_begin : Bool → ℕ → Bridge → Bridge × Option WaitResult
wait_begin locked generation b =
    if not locked
    then (b, some no_result)
    else if generation == 0 || not (b.command.generation == generation) || not b.waiter_attached
    then (b, some no_result)
    else if is_completed b.slot
    then (record b { slot = free; waiter_attached = false }, some (result b.outcome))
    else (b, none)

-- The rest of wait; `elapsed` is that the wait timed out.
unfoldable pub wait_end : Bool → Bool → ℕ → Bridge → Bridge × WaitResult
wait_end locked elapsed generation b =
    if not locked
    then (b, no_result)
    else if not (b.command.generation == generation) || not b.waiter_attached
    then (b, no_result)
    else if is_completed b.slot
    then (record b { slot = free; waiter_attached = false }, result b.outcome)
    else (
      record b {
        waiter_attached = false;
        cancel_requested = if is_arm_restart b.command.kind then b.cancel_requested else true;
      },
      if elapsed then timed_out else no_result,
    )

-- take(command, bytes).
unfoldable pub take_command : Bool → Bridge → Bridge × Option (Command × Option (List ℕ))
take_command locked b =
    if not locked
    then (b, none)
    else if is_queued b.slot
    then (
      record b { slot = processing },
      some (b.command, if is_chunk b.command.kind then some b.buffer else none),
    )
    else (b, none)

-- complete(command, result).
unfoldable pub complete : Bool → Command → OtaError → Bridge → Bridge × Bool
complete locked c r b =
    if not locked
    then (b, false)
    else if is_processing b.slot
        && b.command.generation == c.generation
        && same_kind b.command.kind c.kind
    then (
      if b.waiter_attached
          then record b { outcome = r; slot = completed }
          else record b { slot = free },
      true,
    )
    else (b, false)

-- uploadActive(), activeGeneration() and slotState().
unfoldable pub upload_active : Bool → Bridge → Bool
upload_active locked b = not locked || not (b.active_generation == 0)

unfoldable pub active_generation : Bool → Bridge → ℕ
active_generation locked b = if locked then b.active_generation else 0

unfoldable pub slot_state : Bool → Bridge → SlotState
slot_state locked b = if locked then b.slot else processing
