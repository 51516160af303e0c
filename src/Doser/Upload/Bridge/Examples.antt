-- ===== src/Doser/Upload/Bridge/Examples.antt =====
-- The theorems on the slot at one command that is taken and completed.
use aqua_one.Base.{◌<◌, ◌≡◌, refl, inl, true, false, List, [], ◌∷◌, replicate, none, some}
use aqua_one.Doser.Upload.Bridge.{
  Bridge, Command, end, update_failure, result, accepted, completed, is_free, fresh, admit_session,
  submit, take_command, complete, wait_begin,
}
use aqua_one.Doser.Upload.Bridge.Safety.{
  Event, stores, silent, Reach, here, next, admits, submits, takes, completes, waiting,
  wait_gives_stored, admit_session-fresh,
}

abbrev finish : Command
finish = record { kind = end; generation = 5; expected_size = 0; size = 0 }

abbrev stored : Bridge
stored = record {
  buffer = replicate 1024 0;
  command = finish;
  outcome = update_failure;
  last_generation = 5;
  active_generation = 5;
  slot = completed;
  cancel_requested = false;
  waiter_attached = true;
}

abbrev events : List Event
events = stores 5 update_failure ∷ silent ∷ silent ∷ silent ∷ []

from_fresh : Reach 4 events stored
unfolding admit_session submit take_command complete
from_fresh =
    next
      (next
        (next (next here (admits true (fresh 4)))
          (submits true true finish none (admit_session true (fresh 4)).0))
        (takes true (submit true true finish none (admit_session true (fresh 4)).0).0))
      (completes true finish update_failure
        (take_command true (submit true true finish none (admit_session true (fresh 4)).0).0).0)

stored_given : (wait_begin true 5 stored).1 ≡ some (result update_failure)
unfolding wait_begin
stored_given = refl

wait_gives_stored_example : waiting events ≡ some (5, update_failure)
wait_gives_stored_example =
    wait_gives_stored true false 5 update_failure from_fresh (inl stored_given)

fresh_admits : (admit_session true (fresh 4)).1 ≡ accepted 5
unfolding admit_session
fresh_admits = refl

admit_session-fresh_example :
    ((fresh 4).active_generation ≡ 0)
    × (is_free (fresh 4).slot ≡ true)
    × ((fresh 4).command.generation < 5)
    × ((fresh 4).last_generation < 5)
admit_session-fresh_example = admit_session-fresh true 5 here fresh_admits
