-- ===== src/Doser/Upload/Update/Sound.antt =====
-- What is kept by every turn of aquaOneDoser/src/DoserOtaApplication.cpp.
use aqua_one.Base.{
  ℕ, zero, suc, ◌+◌, ◌≤◌, ◌<◌, ◌≡◌, refl, Bool, true, false, not, ◌&&◌, ◌||◌, ◌==◌, ltb, leb, List,
  [], ◌∷◌, length, take, Option, none, some, word, elapsed, add32, length-append, Bool-cases, inl,
  inr, arith,
}
use aqua_one.Doser.Upload.Bridge.{
  Command, Operation, start, chunk, end, arm_restart, is_arm_restart,
}
use aqua_one.Doser.Upload.Update.{
  State, starting, receiving, finalizing, succeeded_awaiting_restart, is_idle, is_receiving,
  is_succeeded, stop_pumps, set_ota_in_progress, begin_update, write_firmware, end_update,
  schedule_restart, Updater, Answers, fresh_updater, process_command, process_none,
  service_restart_watchdog, execute, execute_start, execute_arm_restart, execute_chunk, execute_end,
  execute_kind, is_start, cleanup,
}
use aqua_one.Doser.Upload.Update.Image.{
  written, apply, image, matches, IsSound, Enough, Turn, command, nothing, watchdog, Run, here,
  next, receiving_image,
}

pub idle_of : (a b c : Bool) → (not a || b || c) ≡ false → a ≡ true
idle_of a b c h = ground arith

pub eq_of : (a b : ℕ) → (a == b) ≡ true → a ≡ b
eq_of a b h = ground arith

pub receiving_of : (st : State) → is_receiving st ≡ true → st ≡ receiving
receiving_of st h = ground arith

pub length-take : (n : ℕ) (l : List ℕ) → n ≤ length l → length (take n l) ≡ n
length-take zero l h = refl
length-take (suc n) [] h = absurd (omega arith)
length-take (suc n) (x ∷ l) h = omega (arith, length-take n l)

cleanup-IsSound : (u : Updater) → IsSound u → IsSound (cleanup u)
unfolding cleanup
cleanup-IsSound u s = ground arith

module _ (u : Updater) (s : IsSound u) (rests : is_idle u.state ≡ true) (n g : ℕ)
    (small : n < word) where
  abbrev begun_with : Bool → Updater
  begun_with begins = record u {
    state = receiving;
    generation = g;
    expected = n;
    received = 0;
    update_begun = true;
    ota_guard = true;
    calls = begin_update n begins ∷ set_ota_in_progress true ∷ stop_pumps ∷ u.calls;
  }

  begins-IsSound : IsSound (begun_with true)
  begins-IsSound = ground arith

  refused-IsSound :
      IsSound
        (cleanup (record (begun_with false) { state = starting; update_begun = u.update_begun }))
  unfolding cleanup
  refused-IsSound = ground arith

execute_start-IsSound :
    (a : Answers) (c : Command) (u : Updater)
    → c.expected_size < word
    → IsSound u
    → IsSound (execute_start a c u).0
unfolding execute_start cleanup
execute_start-IsSound a c u h s =
    elim (Bool-cases (not (is_idle u.state) || c.generation == 0 || c.expected_size == 0)) [
      | inl e ↦ rw e s
      | inr e ↦ elim (Bool-cases a.restart_pending) [
        | inl p ↦ rw (e, p) s
        | inr p ↦ elim (Bool-cases (ltb a.available_space c.expected_size)) [
          | inl l ↦ rw (e, p, l) s
          | inr l ↦ elim (Bool-cases a.begins) [
            | inl b ↦ elim (Bool-cases a.canceled) [
              | inl x ↦
                  rw (e, p, l, b, x)
                    (cleanup-IsSound _
                      (begins-IsSound u s (idle_of _ _ _ e) c.expected_size c.generation h))
              | inr x ↦
                  rw (e, p, l, b, x)
                    (begins-IsSound u s (idle_of _ _ _ e) c.expected_size c.generation h)
            ]
            | inr b ↦
                rw (e, p, l, b)
                  (refused-IsSound u s (idle_of _ _ _ e) c.expected_size c.generation h)
          ]
        ]
      ]
    ]

execute_arm_restart-IsSound :
    (a : Answers) (u : Updater) → IsSound u → IsSound (execute_arm_restart a u).0
unfolding execute_arm_restart
execute_arm_restart-IsSound a u s = ground arith

pub fits_left :
    (expected received n : ℕ)
    → received ≤ expected
    → expected < word
    → ltb (elapsed expected received) n ≡ false
    → received + n ≤ expected
fits_left expected received n r e h = ground arith

still_room :
    (expected received n : ℕ)
    → received ≤ expected
    → expected < word
    → ltb (elapsed expected received) n ≡ false
    → add32 received n ≤ expected
still_room expected received n r e h = omega (arith, fits_left expected received n r e h)

written_fits :
    (expected received n w : ℕ) (l bytes : List ℕ)
    → length l ≡ received
    → length bytes ≡ n
    → (w == n) ≡ true
    → received + n ≤ expected
    → expected < word
    → matches receiving expected
        (add32 received n)
        (apply (write_firmware bytes w) (written expected l))
      ≡ true
written_fits expected received n w l bytes r e k m b = ground (arith, length-append {0} l bytes)

module _ (u : Updater) (s : IsSound u) (receives : u.state ≡ receiving) where
  held : (l : List ℕ) × (image u.calls ≡ written u.expected l) × (length l ≡ u.received)
  held = receiving_image u.expected u.received (image u.calls) (ground arith)

  ends-IsSound :
      (now : ℕ)
      → u.received ≡ u.expected
      → IsSound (record u {
        state = succeeded_awaiting_restart;
        finalized_at = now;
        update_begun = false;
        calls = end_update true ∷ u.calls;
      })
  ends-IsSound now e = let h = held in ground arith

  unended-IsSound :
      IsSound (cleanup (record u { state = finalizing; calls = end_update false ∷ u.calls }))
  unfolding cleanup
  unended-IsSound = let h = held in ground arith

  wrote-IsSound :
      (bytes : List ℕ) (n w : ℕ)
      → length bytes ≡ n
      → (w == n) ≡ true
      → ltb (elapsed u.expected u.received) n ≡ false
      → IsSound
          (record u { calls = write_firmware bytes w ∷ u.calls; received = add32 u.received n })
  wrote-IsSound bytes n w e k l = record {
    fits =
        let h = held in
        rw (h.1, receives)
          (written_fits u.expected u.received n w h.0 bytes h.2 e k
            (fits_left u.expected u.received n s.room s.size l) s.size);
    begun = s.begun;
    guarded = s.guarded;
    bars = s.bars;
    stops = s.stops;
    room = still_room u.expected u.received n s.room s.size l;
    size = s.size;
  }

  unwritten-IsSound :
      (bytes : List ℕ) (n w : ℕ)
      → length bytes ≡ n
      → (w == n) ≡ false
      → IsSound (cleanup (record u { calls = write_firmware bytes w ∷ u.calls }))
  unfolding cleanup
  unwritten-IsSound bytes n w e k = let h = held in ground arith

  execute_end-IsSound : (a : Answers) → IsSound (execute_end a u).0
  unfolding execute_end cleanup
  execute_end-IsSound a = elim (Bool-cases (u.received == u.expected)) [
    | inl e ↦ elim (Bool-cases a.ends) [
      | inl b ↦ rw (e, b) (ends-IsSound a.now (eq_of u.received u.expected e))
      | inr b ↦ rw (e, b) unended-IsSound
    ]
    | inr e ↦ rw e (cleanup-IsSound u s)
  ]

  execute_chunk-IsSound :
      (a : Answers) (c : Command) (bytes : List ℕ)
      → c.size ≤ length bytes
      → IsSound (execute_chunk a c (some bytes) u).0
  unfolding execute_chunk cleanup
  execute_chunk-IsSound a c bytes n =
      let t = take c.size bytes in
      let e = length-take c.size bytes n in
      elim (Bool-cases (c.size == 0 || ltb 1024 c.size)) [
        | inl x ↦ rw x s
        | inr x ↦ elim (Bool-cases (ltb (elapsed u.expected u.received) c.size)) [
          | inl l ↦ rw (x, l) (cleanup-IsSound u s)
          | inr l ↦ elim (Bool-cases (a.written == c.size)) [
            | inl w ↦ elim (Bool-cases a.canceled) [
              | inl y ↦ rw (x, l, w, y) (cleanup-IsSound _ (wrote-IsSound t c.size a.written e w l))
              | inr y ↦ rw (x, l, w, y) (wrote-IsSound t c.size a.written e w l)
            ]
            | inr w ↦ rw (x, l, w) (unwritten-IsSound t c.size a.written e w)
          ]
        ]
      ]

execute_kind-IsSound :
    (kind : Operation) (a : Answers) (c : Command) (bytes : Option (List ℕ)) (u : Updater)
    → c.expected_size < word
    → Enough c.size bytes
    → IsSound u
    → IsSound (execute_kind kind a c bytes u).0
unfolding execute_chunk
execute_kind-IsSound start a c bytes u n m s = execute_start-IsSound a c u n s
execute_kind-IsSound arm_restart a c bytes u n m s = execute_arm_restart-IsSound a u s
execute_kind-IsSound end a c bytes u n m s = elim (Bool-cases (is_receiving u.state)) [
  | inl e ↦ rw e (execute_end-IsSound u s (receiving_of u.state e) a)
  | inr e ↦ rw e s
]
execute_kind-IsSound chunk a c none u n m s = elim (Bool-cases (is_receiving u.state)) [
  | inl e ↦ rw e s
  | inr e ↦ rw e s
]
execute_kind-IsSound chunk a c (some bytes) u n m s = elim (Bool-cases (is_receiving u.state)) [
  | inl e ↦ rw e (execute_chunk-IsSound u s (receiving_of u.state e) a c bytes m)
  | inr e ↦ rw e s
]

execute-IsSound :
    (a : Answers) (c : Command) (bytes : Option (List ℕ)) (u : Updater)
    → c.expected_size < word
    → Enough c.size bytes
    → IsSound u
    → IsSound (execute a c bytes u).0
unfolding execute
execute-IsSound a c bytes u n m s =
    elim (Bool-cases
      (not (is_start c.kind) && (c.generation == 0 || not (c.generation == u.generation)))) [
        | inl e ↦ rw e s
        | inr e ↦ rw e (execute_kind-IsSound c.kind a c bytes u n m s)
      ]

pub both_of : (a b c : Bool) → (a && b && c) ≡ true → a ≡ true
both_of a b c h = ground arith

armed-IsSound :
    (scheduled : Bool) (u : Updater)
    → IsSound u
    → is_succeeded u.state ≡ true
    → IsSound (record u { restart_armed = scheduled; calls = schedule_restart scheduled ∷ u.calls })
armed-IsSound scheduled u s h = ground arith

Turn-IsSound : {u v : Updater} → Turn u v → IsSound u → IsSound v
unfolding process_command process_none service_restart_watchdog
Turn-IsSound (command a canceled c bytes u n m) s =
    elim (Bool-cases (canceled && not (is_arm_restart c.kind))) [
      | inl e ↦ rw e (cleanup-IsSound u s)
      | inr e ↦ rw e (execute-IsSound a c bytes u n m s)
    ]
Turn-IsSound (nothing canceled active active_canceled u) s =
    elim (Bool-cases (not (u.generation == 0) && not (is_succeeded u.state) && canceled)) [
      | inl e ↦ rw e (cleanup-IsSound u s)
      | inr e ↦ elim (Bool-cases (not (active == 0) && is_idle u.state && active_canceled)) [
        | inl f ↦ rw (e, f) s
        | inr f ↦ rw (e, f) s
      ]
    ]
Turn-IsSound (watchdog now scheduled u) s =
    elim (Bool-cases
      (is_succeeded u.state && not u.restart_armed && leb 30000 (elapsed now u.finalized_at))) [
        | inl e ↦ rw e (armed-IsSound scheduled u s (both_of _ _ _ e))
        | inr e ↦ rw e s
      ]

fresh-IsSound : IsSound fresh_updater
fresh-IsSound = ground arith

-- In every run, whatever the authority, the scheduler and the bridge answer: no call comes out of order (an
-- update is begun only with the pumps stopped and barred and none open, bytes are written only to an open
-- update and within its size, it is ended only with exactly its size, and a restart is scheduled only for a
-- whole image); the pumps stay barred while an update is open or an image waits for the restart, and only
-- then; and the counters agree with what has been written.
pub Run-IsSound : {u : Updater} → Run u → IsSound u
Run-IsSound here = fresh-IsSound
Run-IsSound (next r t) = Turn-IsSound t (Run-IsSound r)
