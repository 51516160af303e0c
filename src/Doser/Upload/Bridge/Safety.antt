-- ===== src/Doser/Upload/Bridge/Safety.antt =====
-- The operations of aquaOneDoser/src/StreamingUploadBridge.cpp by the two tasks in any order.
use aqua_one.Base.{
  ℕ, ◌≤◌, ◌<◌, ◌≡◌, ◌⊎◌, inl, inr, Bool, true, not, ◌&&◌, ◌||◌, ◌==◌, if◌then◌else◌, List, [], ◌∷◌,
  Option, none, some, arith,
}
use aqua_one.Doser.Upload.Bridge.{
  Bridge, Command, OtaError, WaitResult, result, timed_out, no_result, accepted, fresh, is_free,
  is_queued, is_processing, is_completed, admit_session, request_cancel, release_session, submit,
  wait_begin, wait_end, take_command, complete,
}

-- What the tasks see of a step: a result that is stored for a generation, or given to its waiter.
pub data Event : Type 0 where
  stores : ℕ → OtaError → Event
  gives : ℕ → OtaError → Event
  silent : Event

abbrev pub given : ℕ → WaitResult → Event
given generation (result r) = gives generation r
given generation timed_out = silent
given generation no_result = silent

abbrev pub given_at_once : ℕ → Option WaitResult → Event
given_at_once generation none = silent
given_at_once generation (some w) = given generation w

-- An operation of either task, with any answers of the lock and the synchronizer.
pub data Step : Bridge → Event → Bridge → Type 0 where
  admits : (locked : Bool) (b : Bridge) → Step b silent (admit_session locked b).0
  cancels : (locked : Bool) (g : ℕ) (b : Bridge) → Step b silent (request_cancel locked g b).0
  releases : (locked : Bool) (g : ℕ) (b : Bridge) → Step b silent (release_session locked g b).0
  submits :
      (locked prepared : Bool) (c : Command) (bytes : Option (List ℕ)) (b : Bridge)
      → Step b silent (submit locked prepared c bytes b).0
  waits :
      (locked : Bool) (g : ℕ) (b : Bridge)
      → Step b (given_at_once g (wait_begin locked g b).1) (wait_begin locked g b).0
  waited :
      (locked elapsed : Bool) (g : ℕ) (b : Bridge)
      → Step b (given g (wait_end locked elapsed g b).1) (wait_end locked elapsed g b).0
  takes : (locked : Bool) (b : Bridge) → Step b silent (take_command locked b).0
  completes :
      (locked : Bool) (c : Command) (r : OtaError) (b : Bridge)
      → Step b
          (if (complete locked c r b).1 && b.waiter_attached then stores c.generation r else silent)
          (complete locked c r b).0

-- The events of a run, the last one first.
pub data Reach (last : ℕ) : List Event → Bridge → Type 0 where
  here : Reach last [] (fresh last)
  next :
      {es : List Event} {e : Event} {b b' : Bridge}
      → Reach last es b
      → Step b e b'
      → Reach last (e ∷ es) b'

-- The result that has been stored and not yet given.
abbrev pub waiting : List Event → Option (ℕ × OtaError)
waiting [] = none
waiting (stores g r ∷ es) = some (g, r)
waiting (gives g r ∷ es) = none
waiting (silent ∷ es) = waiting es

pub record IsSound (es : List Event) (b : Bridge) : Type 0 where
  pub attached : (not (is_completed b.slot) || b.waiter_attached) ≡ true
  pub unattached : (not (is_free b.slot) || not b.waiter_attached) ≡ true
  pub current :
      (not (is_queued b.slot || is_processing b.slot)
        || b.command.generation == b.active_generation)
      ≡ true
  pub active_le : b.active_generation ≤ b.last_generation
  pub command_le : b.command.generation ≤ b.last_generation
  pub held :
      (if is_completed b.slot then some (b.command.generation, b.outcome) else none) ≡ waiting es

Step-IsSound :
    {es : List Event} {e : Event} {b b' : Bridge} → Step b e b' → IsSound es b → IsSound (e ∷ es) b'
unfolding admit_session request_cancel release_session submit wait_begin wait_end take_command
    complete
Step-IsSound (admits locked b) s = ground arith
Step-IsSound (cancels locked g b) s = ground arith
Step-IsSound (releases locked g b) s = ground arith
Step-IsSound (submits locked prepared c bytes b) s = ground arith
Step-IsSound (waits locked g b) s = ground arith
Step-IsSound (waited locked elapsed g b) s = ground arith
Step-IsSound (takes locked b) s = ground arith
Step-IsSound (completes locked c r b) s = ground arith

fresh-IsSound : (last : ℕ) → IsSound [] (fresh last)
fresh-IsSound last = ground arith

pub Reach-IsSound : {last : ℕ} {es : List Event} {b : Bridge} → Reach last es b → IsSound es b
Reach-IsSound {last} here = fresh-IsSound last
Reach-IsSound (next r st) = Step-IsSound st (Reach-IsSound r)

begin_gives :
    {es : List Event} {b : Bridge} (locked : Bool) (g : ℕ) (r : OtaError)
    → IsSound es b
    → (wait_begin locked g b).1 ≡ some (result r)
    → waiting es ≡ some (g, r)
unfolding wait_begin
begin_gives locked g r s h = ground arith

end_gives :
    {es : List Event} {b : Bridge} (locked elapsed : Bool) (g : ℕ) (r : OtaError)
    → IsSound es b
    → (wait_end locked elapsed g b).1 ≡ result r
    → waiting es ≡ some (g, r)
unfolding wait_end
end_gives locked elapsed g r s h = ground arith

-- In every run of the two tasks, a result that a wait for a generation gets is the one that the last
-- complete has stored, for a command of that generation, and it has not been given to a wait before.
pub wait_gives_stored :
    {last : ℕ} {es : List Event} {b : Bridge} (locked elapsed : Bool) (g : ℕ) (r : OtaError)
    → Reach last es b
    → ((wait_begin locked g b).1 ≡ some (result r)) ⊎ ((wait_end locked elapsed g b).1 ≡ result r)
    → waiting es ≡ some (g, r)
wait_gives_stored locked elapsed g r run (inl h) = begin_gives locked g r (Reach-IsSound run) h
wait_gives_stored locked elapsed g r run (inr h) =
    end_gives locked elapsed g r (Reach-IsSound run) h

-- In every run of the two tasks, a session is admitted only when none is open and no command is in the
-- slot, and its generation is above that of every command before, so that no wait, completion or
-- cancellation of an earlier session takes it for its own.
pub admit_session-fresh :
    {last : ℕ} {es : List Event} {b : Bridge} (locked : Bool) (g : ℕ)
    → Reach last es b
    → (admit_session locked b).1 ≡ accepted g
    → (b.active_generation ≡ 0)
      × (is_free b.slot ≡ true)
      × (b.command.generation < g)
      × (b.last_generation < g)
unfolding admit_session
admit_session-fresh locked g run h = let s = Reach-IsSound run in ground arith
