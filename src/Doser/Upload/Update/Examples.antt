-- ===== src/Doser/Upload/Update/Examples.antt =====
-- The theorems on the update at an upload of three bytes.
use aqua_one.Base.{◌≡◌, refl, subst, true, false, [], ◌∷◌, none, some, arith}
use aqua_one.Doser.Upload.Bridge.{Command, start, chunk, fine}
use aqua_one.Doser.Upload.Update.{
  Updater, Answers, fresh_updater, process_command, execute, execute_start, execute_chunk,
  receiving, begin_update, set_ota_in_progress, stop_pumps,
}
use aqua_one.Doser.Upload.Update.Image.{IsSound, command, Run, here, next}
use aqua_one.Doser.Upload.Update.Sound.{Run-IsSound}
use aqua_one.Doser.Upload.Update.Session.{Move, session, takes, Turn-Move}
use aqua_one.Doser.Upload.Update.Replies.{process_command-fine}

abbrev answers : Answers
answers = record {
  restart_pending = false;
  available_space = 100;
  begins = true;
  written = 2;
  ends = true;
  now = 5;
  scheduled = true;
  canceled = false;
}

abbrev begin_three : Command
begin_three = record { kind = start; generation = 7; expected_size = 3; size = 0 }

abbrev two_bytes : Command
two_bytes = record { kind = chunk; generation = 7; expected_size = 0; size = 2 }

-- After the Start.
abbrev opened : Updater
opened = record {
  state = receiving;
  generation = 7;
  expected = 3;
  received = 0;
  finalized_at = 0;
  update_begun = true;
  ota_guard = true;
  restart_armed = false;
  calls = begin_update 3 true ∷ set_ota_in_progress true ∷ stop_pumps ∷ [];
}

started_eq : (process_command answers false begin_three none fresh_updater).0 ≡ opened
unfolding process_command execute execute_start
started_eq = refl

after_start : Run (process_command answers false begin_three none fresh_updater).0
after_start = next here (command answers false begin_three none fresh_updater (omega arith) tt)

from_start : Run opened
from_start = subst Run started_eq after_start

Run-IsSound_example : IsSound opened
Run-IsSound_example = Run-IsSound from_start

Turn-Move_example :
    Move
      (session opened)
      (session (process_command answers false two_bytes (some (8 ∷ 9 ∷ 4 ∷ [])) opened).0)
Turn-Move_example =
    Turn-Move from_start
      (command answers false two_bytes (some (8 ∷ 9 ∷ 4 ∷ [])) opened (omega arith) (omega arith))

chunk_answered :
    (process_command answers false two_bytes (some (8 ∷ 9 ∷ 4 ∷ [])) opened).1.completes ≡ some fine
unfolding process_command execute execute_chunk
chunk_answered = refl

process_command-fine_example :
    session (process_command answers false two_bytes (some (8 ∷ 9 ∷ 4 ∷ [])) opened).0
    ≡ takes 3 (8 ∷ 9 ∷ [])
process_command-fine_example =
    process_command-fine answers false two_bytes (some (8 ∷ 9 ∷ 4 ∷ [])) from_start (omega arith)
      chunk_answered
