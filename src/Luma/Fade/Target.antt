-- ===== src/Luma/Fade/Target.antt =====
-- Where a fade ends, aquaOneLuma/src/core/TransitionEngine.cpp.
use aqua_one.Base.{
  ℕ, ◌≡◌, ◌≢◌, refl, true, false, leb, List, [], ◌∷◌, Option, none, some, elapsed, arith,
}
use aqua_one.Luma.Floats.{Floats}
use aqua_one.Luma.Fade.{Transition, start, update, update_target}

-- The calls of update, each with its time and perhaps a new target.
abbrev pub Calls : Type 0 → Type 0
Calls F = List (ℕ × Option (List F))

module _ {F : Type 0} (f : Floats F) where
  abbrev pub update_one : ℕ × Option (List F) → Transition F → Transition F
  update_one (now, none) t = update f now t
  update_one (now, some target) t = update_target f now target t

  abbrev pub updates : Calls F → Transition F → Transition F
  updates [] t = t
  updates (c ∷ cs) t = updates cs (update_one c t)

  -- A fade that goes on: its start, its duration and its target.
  record IsRunning (duration now : ℕ) (target : List F) (t : Transition F) : Type 0 where
    started : t.start_ms ≡ now
    lasts : t.duration_ms ≡ duration
    runs : t.active ≡ true
    aims : t.to ≡ target

  update-IsRunning :
      (duration now n : ℕ) (target : List F) (t : Transition F)
      → leb duration (elapsed n now) ≡ false
      → IsRunning duration now target t
      → IsRunning duration now target (update f n t)
  unfolding update
  update-IsRunning duration now n target t h s = ground arith

  -- The last target that was given.
  abbrev pub aim : List F → Calls F → List F
  aim target [] = target
  aim target ((n, none) ∷ cs) = aim target cs
  aim target ((n, some next) ∷ cs) = aim next cs

  -- Every call comes before the duration has passed.
  abbrev pub AreBefore : ℕ → ℕ → Calls F → Type 0
  AreBefore duration now [] = Unit
  AreBefore duration now ((n, c) ∷ cs) =
      (leb duration (elapsed n now) ≡ false) × AreBefore duration now cs

  update_target-IsRunning :
      (duration now n : ℕ) (next target : List F) (t : Transition F)
      → leb duration (elapsed n now) ≡ false
      → IsRunning duration now target t
      → IsRunning duration now next (update_target f n next t)
  unfolding update_target
  update_target-IsRunning duration now n next target t h s = ground arith

  updates-IsRunning :
      (duration now : ℕ) (target : List F) (cs : Calls F) (t : Transition F)
      → AreBefore duration now cs
      → IsRunning duration now target t
      → IsRunning duration now (aim target cs) (updates cs t)
  updates-IsRunning duration now target [] t h s = s
  updates-IsRunning duration now target ((n, none) ∷ cs) t h s =
      updates-IsRunning duration now target cs (update f n t) h.1
        (update-IsRunning duration now n target t h.0 s)
  updates-IsRunning duration now target ((n, some next) ∷ cs) t h s =
      updates-IsRunning duration now next cs (update_target f n next t) h.1
        (update_target-IsRunning duration now n next target t h.0 s)

  record IsEnded (target : List F) (t : Transition F) : Type 0 where
    rests : t.active ≡ false
    arrived : t.current ≡ target

  update_ends :
      (duration now n : ℕ) (target : List F) (t : Transition F)
      → leb duration (elapsed n now) ≡ true
      → IsRunning duration now target t
      → IsEnded target (update f n t)
  unfolding update
  update_ends duration now n target t h s = ground arith

  updates_after :
      (target : List F) (cs : Calls F) (t : Transition F)
      → IsEnded target t
      → IsEnded target (updates cs t)
  unfolding update update_target
  updates_after target [] t s = s
  updates_after target ((n, none) ∷ cs) t s = updates_after target cs (update f n t) (ground arith)
  updates_after target ((n, some next) ∷ cs) t s =
      updates_after target cs (update_target f n next t) (ground arith)

  -- A fade of some duration that is updated in its time, and then once when its time has passed, wrap-around
  -- of the clock included, has ended exactly at the last target that it was given in its time, and it stays
  -- there through any later updates, whatever their targets.
  pub fade_ends :
      (from to : List F) (duration now n : ℕ) (before later : Calls F)
      → duration ≢ 0
      → AreBefore duration now before
      → leb duration (elapsed n now) ≡ true
      → ((updates later (update f n (updates before (start f from to duration now)))).current
          ≡ aim to before)
        × ((updates later (update f n (updates before (start f from to duration now)))).active
            ≡ false)
  unfolding start
  fade_ends from to duration now n before later d b h =
      let running =
        updates-IsRunning duration now to before (start f from to duration now) b
          (record { started = refl; lasts = refl; runs = ground arith; aims = refl }) in
      let ended =
        updates_after (aim to before) later _
          (update_ends duration now n (aim to before) _ h running) in
      (ended.arrived, ended.rests)
