-- ===== src/Doser/Upload/Update/Image.antt =====
-- The image that the calls of aquaOneDoser/src/DoserOtaApplication.cpp build up in the flash, what is kept
-- in every run, and the runs.
use aqua_one.Base.{
  ℕ, ◌+◌, ◌≤◌, ◌<◌, ◌≡◌, refl, Bool, true, false, not, ◌&&◌, ◌==◌, ltb, if◌then◌else◌, List, [],
  ◌∷◌, ◌++◌, length, Option, none, some, word, arith,
}
use aqua_one.Doser.Upload.Bridge.{Command}
use aqua_one.Doser.Upload.Update.{
  State, idle, receiving, succeeded_awaiting_restart, is_idle, is_receiving, Call, stop_pumps,
  set_ota_in_progress, begin_update, write_firmware, end_update, abort_update, schedule_restart,
  Updater, Answers, fresh_updater, process_command, process_none, service_restart_watchdog,
}

-- The flash as the updater leaves it: with no update open, with one of a size and the bytes written to it,
-- with one that a short write has spoiled, or with a whole image; or after a call out of order.
pub data Image : Type 0 where
  closed : Image
  written : ℕ → List ℕ → Image
  spoiled : Image
  whole : List ℕ → Image
  broken : Image

abbrev pub apply : Call → Image → Image
apply (begin_update n true) closed = written n []
apply (begin_update n true) (whole l) = written n []
apply (begin_update n false) closed = closed
apply (begin_update n false) (whole l) = whole l
apply (begin_update n b) i = broken
apply (write_firmware bytes w) (written n l) =
    if not (w == length bytes)
    then spoiled
    else if ltb n (length l + length bytes)
    then broken
    else written n (l ++ bytes)
apply (write_firmware bytes w) i = broken
apply (end_update true) (written n l) = if length l == n then whole l else broken
apply (end_update false) (written n l) = spoiled
apply (end_update b) i = broken
apply abort_update (written n l) = closed
apply abort_update spoiled = closed
apply abort_update i = broken
apply (schedule_restart b) (whole l) = whole l
apply (schedule_restart b) i = broken
apply stop_pumps i = i
apply (set_ota_in_progress b) i = i

abbrev pub image : List Call → Image
image [] = closed
image (c ∷ cs) = apply c (image cs)

-- The pumps are stopped and barred before every update.
abbrev pub stops_first : List Call → Bool
stops_first [] = true
stops_first (begin_update n b ∷ set_ota_in_progress true ∷ stop_pumps ∷ cs) = stops_first cs
stops_first (begin_update n b ∷ cs) = false
stops_first (_ ∷ cs) = stops_first cs

-- Whether the pumps are barred: by the last call that says so.
abbrev pub barred : List Call → Bool
barred [] = false
barred (set_ota_in_progress b ∷ cs) = b
barred (_ ∷ cs) = barred cs

abbrev pub matches : State → ℕ → ℕ → Image → Bool
matches idle n r closed = true
matches idle n r (whole l) = true
matches receiving n r (written m l) = m == n && length l == r
matches succeeded_awaiting_restart n r (whole l) = length l == n && r == n
matches _ n r i = false

pub record IsSound (u : Updater) : Type 0 where
  pub fits : matches u.state u.expected u.received (image u.calls) ≡ true
  pub begun : u.update_begun ≡ is_receiving u.state
  pub guarded : u.ota_guard ≡ not (is_idle u.state)
  pub bars : barred u.calls ≡ u.ota_guard
  pub stops : stops_first u.calls ≡ true
  pub room : u.received ≤ u.expected
  pub size : u.expected < word

-- The bytes that come with a command are at least as many as it says.
abbrev pub Enough : ℕ → Option (List ℕ) → Type 0
Enough n none = Unit
Enough n (some bytes) = n ≤ length bytes

-- A turn of the application: processOne with a command or without, and the restart watchdog.
pub data Turn : Updater → Updater → Type 0 where
  command :
      (a : Answers) (canceled : Bool) (c : Command) (bytes : Option (List ℕ)) (u : Updater)
      → c.expected_size < word
      → Enough c.size bytes
      → Turn u (process_command a canceled c bytes u).0
  nothing :
      (canceled : Bool) (active : ℕ) (active_canceled : Bool) (u : Updater)
      → Turn u (process_none canceled active active_canceled u).0
  watchdog :
      (now : ℕ) (scheduled : Bool) (u : Updater) → Turn u (service_restart_watchdog now scheduled u)

pub data Run : Updater → Type 0 where
  here : Run fresh_updater
  next : {u v : Updater} → Run u → Turn u v → Run v

pub receiving_image :
    (n r : ℕ) (i : Image)
    → matches receiving n r i ≡ true
    → (l : List ℕ) × (i ≡ written n l) × (length l ≡ r)
receiving_image n r closed h = cc
receiving_image n r (written m l) h = (l, ground arith, ground arith)
receiving_image n r spoiled h = cc
receiving_image n r (whole l) h = cc
receiving_image n r broken h = cc

pub idle_image :
    (n r : ℕ) (i : Image)
    → matches idle n r i ≡ true
    → (m : ℕ) → apply (begin_update m true) i ≡ written m []
idle_image n r closed h m = refl
idle_image n r (written k l) h m = cc
idle_image n r spoiled h m = cc
idle_image n r (whole l) h m = refl
idle_image n r broken h m = cc

pub succeeded_image :
    (n r : ℕ) (i : Image)
    → matches succeeded_awaiting_restart n r i ≡ true
    → (l : List ℕ) × (i ≡ whole l) × (length l ≡ n)
succeeded_image n r closed h = cc
succeeded_image n r (written m l) h = cc
succeeded_image n r spoiled h = cc
succeeded_image n r (whole l) h = (l, refl, ground arith)
succeeded_image n r broken h = cc
