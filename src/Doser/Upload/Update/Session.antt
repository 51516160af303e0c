-- ===== src/Doser/Upload/Update/Session.antt =====
-- The update of aquaOneDoser/src/DoserOtaApplication.cpp as a session that takes bytes up to a size.
use aqua_one.Base.{
  ℕ, ◌+◌, ◌≤◌, ◌≡◌, subst, ◌∙◌, Bool, true, false, not, ◌&&◌, ◌||◌, ◌==◌, ltb, leb, List, [], ◌++◌,
  length, take, Option, none, some, elapsed, Bool-cases, inl, inr, arith,
}
use aqua_one.Doser.Upload.Bridge.{
  Command, Operation, start, chunk, end, arm_restart, is_arm_restart,
}
use aqua_one.Doser.Upload.Update.{
  State, idle, starting, receiving, finalizing, succeeded_awaiting_restart, aborting, failed,
  is_idle, is_receiving, is_succeeded, begin_update, write_firmware, end_update, schedule_restart,
  Updater, Answers, process_command, process_none, service_restart_watchdog, execute, execute_start,
  execute_arm_restart, execute_chunk, execute_end, execute_kind, is_start, cleanup,
}
use aqua_one.Doser.Upload.Update.Image.{
  Image, closed, written, spoiled, whole, broken, apply, image, matches, IsSound, Enough, Turn,
  command, nothing, watchdog, Run, receiving_image,
}
use aqua_one.Doser.Upload.Update.Sound.{
  Run-IsSound, idle_of, receiving_of, eq_of, both_of, fits_left, length-take,
}

-- What an update is to its user: none, one of a size with the bytes so far, or a whole one.
pub data Session : Type 0 where
  off : Session
  takes : ℕ → List ℕ → Session
  ready : List ℕ → Session

-- What may become of a session.
pub data Move : Session → Session → Type 0 where
  stays : (s : Session) → Move s s
  opens : (n : ℕ) → Move off (takes n [])
  adds :
      (n : ℕ) (l bytes : List ℕ)
      → length l + length bytes ≤ n
      → Move (takes n l) (takes n (l ++ bytes))
  closes : (l : List ℕ) → Move (takes (length l) l) (ready l)
  drops : (s : Session) → Move s off

abbrev pub view : State → ℕ → Image → Session
view receiving n (written m l) = takes n l
view succeeded_awaiting_restart n (whole l) = ready l
view _ n i = off

abbrev pub session : Updater → Session
session u = view u.state u.expected (image u.calls)

cleanup_moves : (u : Updater) (s : Session) → Move s (session (cleanup u))
unfolding cleanup
cleanup_moves u s = drops s

begin_moves :
    (st : State) (k r : ℕ) (i : Image) (n : ℕ)
    → matches st k r i ≡ true
    → is_idle st ≡ true
    → Move (view st k i) (view receiving n (apply (begin_update n true) i))
begin_moves idle k r closed n h e = opens n
begin_moves idle k r (whole l) n h e = opens n
begin_moves idle k r (written m l) n h e = cc
begin_moves idle k r spoiled n h e = cc
begin_moves idle k r broken n h e = cc
begin_moves receiving k r i n h e = cc
begin_moves starting k r i n h e = cc
begin_moves finalizing k r i n h e = cc
begin_moves succeeded_awaiting_restart k r i n h e = cc
begin_moves aborting k r i n h e = cc
begin_moves failed k r i n h e = cc

pub write_eq :
    (k r w : ℕ) (l bytes : List ℕ)
    → length l ≡ r
    → (w == length bytes) ≡ true
    → r + length bytes ≤ k
    → apply (write_firmware bytes w) (written k l) ≡ written k (l ++ bytes)
write_eq k r w l bytes h e m = ground arith

write_moves :
    (u : Updater) (bytes : List ℕ) (n w : ℕ)
    → IsSound u
    → u.state ≡ receiving
    → length bytes ≡ n
    → (w == n) ≡ true
    → ltb (elapsed u.expected u.received) n ≡ false
    → Move (session u) (view u.state u.expected (apply (write_firmware bytes w) (image u.calls)))
write_moves u bytes n w s e b k h =
    let i = receiving_image u.expected u.received (image u.calls) (ground arith) in
    let room = fits_left u.expected u.received n s.room s.size h in
    rw (e, i.1, write_eq u.expected u.received w i.0 bytes i.2 (rw b k) (omega arith))
      (adds u.expected i.0 bytes (omega (arith, i.2)))

pub end_eq : (k : ℕ) (l : List ℕ) → length l ≡ k → apply (end_update true) (written k l) ≡ whole l
end_eq k l h = ground arith

closes_at : (k : ℕ) (l : List ℕ) → length l ≡ k → Move (takes k l) (ready l)
closes_at k l h = subst (λ n. Move (takes n l) (ready l)) h (closes l)

end_moves :
    (u : Updater)
    → IsSound u
    → u.state ≡ receiving
    → u.received ≡ u.expected
    → Move
        (session u)
        (view succeeded_awaiting_restart u.expected (apply (end_update true) (image u.calls)))
end_moves u s e k =
    let i = receiving_image u.expected u.received (image u.calls) (ground arith) in
    let full : length i.0 ≡ u.expected = i.2 ∙ k in
    rw (e, i.1, end_eq u.expected i.0 full) (closes_at u.expected i.0 full)

arm_moves :
    (st : State) (k r : ℕ) (i : Image) (b : Bool)
    → matches st k r i ≡ true
    → is_succeeded st ≡ true
    → Move (view st k i) (view st k (apply (schedule_restart b) i))
arm_moves idle k r i b h e = cc
arm_moves receiving k r i b h e = cc
arm_moves starting k r i b h e = cc
arm_moves finalizing k r i b h e = cc
arm_moves aborting k r i b h e = cc
arm_moves failed k r i b h e = cc
arm_moves succeeded_awaiting_restart k r closed b h e = cc
arm_moves succeeded_awaiting_restart k r (written m l) b h e = cc
arm_moves succeeded_awaiting_restart k r spoiled b h e = cc
arm_moves succeeded_awaiting_restart k r broken b h e = cc
arm_moves succeeded_awaiting_restart k r (whole l) b h e = stays (ready l)

execute_start-Move :
    (a : Answers) (c : Command) (u : Updater)
    → IsSound u
    → Move (session u) (session (execute_start a c u).0)
unfolding execute_start cleanup
execute_start-Move a c u s =
    elim (Bool-cases (not (is_idle u.state) || c.generation == 0 || c.expected_size == 0)) [
      | inl e ↦ rw e (stays (session u))
      | inr e ↦ elim (Bool-cases a.restart_pending) [
        | inl p ↦ rw (e, p) (stays (session u))
        | inr p ↦ elim (Bool-cases (ltb a.available_space c.expected_size)) [
          | inl l ↦ rw (e, p, l) (stays (session u))
          | inr l ↦ elim (Bool-cases a.begins) [
            | inl b ↦ elim (Bool-cases a.canceled) [
              | inl x ↦ rw (e, p, l, b, x) (drops (session u))
              | inr x ↦
                  rw (e, p, l, b, x)
                    (begin_moves u.state u.expected u.received (image u.calls) c.expected_size
                      s.fits (idle_of _ _ _ e))
            ]
            | inr b ↦ rw (e, p, l, b) (drops (session u))
          ]
        ]
      ]
    ]

execute_arm_restart-Move :
    (a : Answers) (u : Updater) → IsSound u → Move (session u) (session (execute_arm_restart a u).0)
unfolding execute_arm_restart
execute_arm_restart-Move a u s = elim (Bool-cases (is_succeeded u.state)) [
  | inl e ↦ elim (Bool-cases u.restart_armed) [
    | inl x ↦ rw (e, x) (stays (session u))
    | inr x ↦
        rw (e, x) (arm_moves u.state u.expected u.received (image u.calls) a.scheduled s.fits e)
  ]
  | inr e ↦ rw e (stays (session u))
]

execute_end-Move :
    (a : Answers) (u : Updater)
    → IsSound u
    → u.state ≡ receiving
    → Move (session u) (session (execute_end a u).0)
unfolding execute_end cleanup
execute_end-Move a u s r = elim (Bool-cases (u.received == u.expected)) [
  | inl e ↦ elim (Bool-cases a.ends) [
    | inl b ↦ rw (e, b) (end_moves u s r (eq_of u.received u.expected e))
    | inr b ↦ rw (e, b) (drops (session u))
  ]
  | inr e ↦ rw e (drops (session u))
]

execute_chunk-Move :
    (a : Answers) (c : Command) (bytes : Option (List ℕ)) (u : Updater)
    → Enough c.size bytes
    → IsSound u
    → u.state ≡ receiving
    → Move (session u) (session (execute_chunk a c bytes u).0)
unfolding execute_chunk cleanup
execute_chunk-Move a c none u n s r = stays (session u)
execute_chunk-Move a c (some bytes) u n s r = elim (Bool-cases (c.size == 0 || ltb 1024 c.size)) [
  | inl x ↦ rw x (stays (session u))
  | inr x ↦ elim (Bool-cases (ltb (elapsed u.expected u.received) c.size)) [
    | inl l ↦ rw (x, l) (drops (session u))
    | inr l ↦ elim (Bool-cases (a.written == c.size)) [
      | inl w ↦ elim (Bool-cases a.canceled) [
        | inl y ↦ rw (x, l, w, y) (drops (session u))
        | inr y ↦
            rw (x, l, w, y)
              (write_moves u (take c.size bytes) c.size a.written s r (length-take c.size bytes n) w
                l)
      ]
      | inr w ↦ rw (x, l, w) (drops (session u))
    ]
  ]
]

execute_kind-Move :
    (kind : Operation) (a : Answers) (c : Command) (bytes : Option (List ℕ)) (u : Updater)
    → Enough c.size bytes
    → IsSound u
    → Move (session u) (session (execute_kind kind a c bytes u).0)
execute_kind-Move start a c bytes u m s = execute_start-Move a c u s
execute_kind-Move arm_restart a c bytes u m s = execute_arm_restart-Move a u s
execute_kind-Move end a c bytes u m s = elim (Bool-cases (is_receiving u.state)) [
  | inl e ↦ rw e (execute_end-Move a u s (receiving_of u.state e))
  | inr e ↦ rw e (stays (session u))
]
execute_kind-Move chunk a c bytes u m s = elim (Bool-cases (is_receiving u.state)) [
  | inl e ↦ rw e (execute_chunk-Move a c bytes u m s (receiving_of u.state e))
  | inr e ↦ rw e (stays (session u))
]

execute-Move :
    (a : Answers) (c : Command) (bytes : Option (List ℕ)) (u : Updater)
    → Enough c.size bytes
    → IsSound u
    → Move (session u) (session (execute a c bytes u).0)
unfolding execute
execute-Move a c bytes u m s =
    elim (Bool-cases
      (not (is_start c.kind) && (c.generation == 0 || not (c.generation == u.generation)))) [
        | inl e ↦ rw e (stays (session u))
        | inr e ↦ rw e (execute_kind-Move c.kind a c bytes u m s)
      ]

-- Every turn of a run is a move of the session that a user sees: it opens a session with no bytes, or adds
-- the bytes of a chunk within the size, or makes the image whole when it has exactly the size, or drops the
-- session, or changes nothing.
pub Turn-Move : {u v : Updater} → Run u → Turn u v → Move (session u) (session v)
unfolding process_command process_none service_restart_watchdog cleanup
Turn-Move run (command a canceled c bytes u n m) =
    elim (Bool-cases (canceled && not (is_arm_restart c.kind))) [
      | inl e ↦ rw e (drops (session u))
      | inr e ↦ rw e (execute-Move a c bytes u m (Run-IsSound run))
    ]
Turn-Move run (nothing canceled active active_canceled u) =
    elim (Bool-cases (not (u.generation == 0) && not (is_succeeded u.state) && canceled)) [
      | inl e ↦ rw e (drops (session u))
      | inr e ↦ elim (Bool-cases (not (active == 0) && is_idle u.state && active_canceled)) [
        | inl f ↦ rw (e, f) (stays (session u))
        | inr f ↦ rw (e, f) (stays (session u))
      ]
    ]
Turn-Move run (watchdog now scheduled u) =
    let s = Run-IsSound run in
    elim (Bool-cases
      (is_succeeded u.state && not u.restart_armed && leb 30000 (elapsed now u.finalized_at))) [
        | inl e ↦ rw e (
            arm_moves u.state u.expected u.received (image u.calls) scheduled s.fits
              (both_of _ _ _ e))
        | inr e ↦ rw e (stays (session u))
      ]
