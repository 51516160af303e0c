-- ===== src/Doser/Upload/Update/Replies.antt =====
-- What a positive answer to a command says, by aquaOneDoser/src/DoserOtaApplication.cpp.
use aqua_one.Base.{
  ℕ, ◌≤◌, ◌≡◌, refl, ◌∙◌, Bool, true, false, not, ◌&&◌, ◌||◌, ◌==◌, ltb, List, [], ◌++◌, length,
  take, Option, none, some, elapsed, Bool-cases, inl, inr, arith,
}
use aqua_one.Doser.Upload.Bridge.{
  Command, OtaError, Operation, start, chunk, end, arm_restart, is_arm_restart,
}
use aqua_one.Doser.Upload.Update.{
  State, idle, starting, receiving, finalizing, succeeded_awaiting_restart, aborting, failed,
  is_idle, is_receiving, is_succeeded, begin_update, write_firmware, schedule_restart, Updater,
  Answers, process_command, execute, execute_start, execute_arm_restart, execute_chunk, execute_end,
  execute_kind, is_start, cleanup,
}
use aqua_one.Doser.Upload.Update.Image.{
  Image, written, apply, image, matches, IsSound, Enough, Run, receiving_image, idle_image,
  succeeded_image,
}
use aqua_one.Doser.Upload.Update.Sound.{
  Run-IsSound, idle_of, receiving_of, eq_of, fits_left, length-take,
}
use aqua_one.Doser.Upload.Bridge.{fine}
use aqua_one.Doser.Upload.Update.{fail}
use aqua_one.Doser.Upload.Update.Session.{
  Session, off, takes, ready, view, session, write_eq, end_eq,
}

-- What a session is after a command that has been answered with no error.
abbrev pub after : Command → Option (List ℕ) → Operation → Session → Session
after c bytes start s = takes c.expected_size []
after c (some bytes) chunk (takes n l) = takes n (l ++ take c.size bytes)
after c bytes chunk s = off
after c bytes end (takes n l) = ready l
after c bytes end s = off
after c bytes arm_restart s = s

some_eq : {a b : OtaError} → some a ≡ some b → a ≡ b
some_eq h = cc

begin_after :
    (st : State) (k r : ℕ) (i : Image) (n : ℕ)
    → matches st k r i ≡ true
    → is_idle st ≡ true
    → view receiving n (apply (begin_update n true) i) ≡ takes n []
begin_after idle k r i n h e = rw (idle_image k r i h n) refl
begin_after receiving k r i n h e = cc
begin_after starting k r i n h e = cc
begin_after finalizing k r i n h e = cc
begin_after succeeded_awaiting_restart k r i n h e = cc
begin_after aborting k r i n h e = cc
begin_after failed k r i n h e = cc

execute_start-fine :
    (a : Answers) (c : Command) (u : Updater)
    → IsSound u
    → (execute_start a c u).1 ≡ fine
    → session (execute_start a c u).0 ≡ takes c.expected_size []
unfolding execute_start cleanup fail
execute_start-fine a c u s =
    elim (Bool-cases (not (is_idle u.state) || c.generation == 0 || c.expected_size == 0)) [
      | inl e ↦ rw e (λ h. cc)
      | inr e ↦ elim (Bool-cases a.restart_pending) [
        | inl p ↦ rw (e, p) (λ h. cc)
        | inr p ↦ elim (Bool-cases (ltb a.available_space c.expected_size)) [
          | inl l ↦ rw (e, p, l) (λ h. cc)
          | inr l ↦ elim (Bool-cases a.begins) [
            | inl b ↦ elim (Bool-cases a.canceled) [
              | inl x ↦ rw (e, p, l, b, x) (λ h. cc)
              | inr x ↦
                  rw (e, p, l, b, x)
                    (λ h.
                      begin_after u.state u.expected u.received (image u.calls) c.expected_size
                        s.fits (idle_of _ _ _ e))
            ]
            | inr b ↦ rw (e, p, l, b) (λ h. cc)
          ]
        ]
      ]
    ]

arm_after :
    (st : State) (k r : ℕ) (i : Image) (b : Bool)
    → matches st k r i ≡ true
    → is_succeeded st ≡ true
    → view st k (apply (schedule_restart b) i) ≡ view st k i
arm_after succeeded_awaiting_restart k r i b h e = let w = succeeded_image k r i h in rw w.1 refl
arm_after idle k r i b h e = cc
arm_after receiving k r i b h e = cc
arm_after starting k r i b h e = cc
arm_after finalizing k r i b h e = cc
arm_after aborting k r i b h e = cc
arm_after failed k r i b h e = cc

execute_arm_restart-fine :
    (a : Answers) (u : Updater) → IsSound u → session (execute_arm_restart a u).0 ≡ session u
unfolding execute_arm_restart
execute_arm_restart-fine a u s = elim (Bool-cases (is_succeeded u.state)) [
  | inl e ↦ elim (Bool-cases u.restart_armed) [
    | inl x ↦ rw (e, x) refl
    | inr x ↦
        rw (e, x) (arm_after u.state u.expected u.received (image u.calls) a.scheduled s.fits e)
  ]
  | inr e ↦ rw e refl
]

module _ (u : Updater) (s : IsSound u) (r : u.state ≡ receiving) where
  held : (l : List ℕ) × (image u.calls ≡ written u.expected l) × (length l ≡ u.received)
  held = receiving_image u.expected u.received (image u.calls) (ground arith)

  execute_end-fine :
      (a : Answers) (c : Command) (bytes : Option (List ℕ))
      → (execute_end a u).1 ≡ fine
      → session (execute_end a u).0 ≡ after c bytes end (session u)
  unfolding execute_end cleanup fail
  execute_end-fine a c bytes = elim (Bool-cases (u.received == u.expected)) [
    | inl e ↦ elim (Bool-cases a.ends) [
      | inl b ↦
          rw (e, b)
            (λ h.
              rw (r, held.1, end_eq u.expected held.0 (held.2 ∙ eq_of u.received u.expected e))
                refl)
      | inr b ↦ rw (e, b) (λ h. cc)
    ]
    | inr e ↦ rw e (λ h. cc)
  ]

  chunk_after :
      (n w : ℕ) (bytes : List ℕ)
      → n ≤ length bytes
      → (w == n) ≡ true
      → ltb (elapsed u.expected u.received) n ≡ false
      → view u.state u.expected (apply (write_firmware (take n bytes) w) (image u.calls))
        ≡ after
            (record { kind = chunk; generation = 0; expected_size = 0; size = n })
            (some bytes)
            chunk
            (session u)
  chunk_after n w bytes m k l =
      let e = length-take n bytes m in
      let room = fits_left u.expected u.received n s.room s.size l in
      rw
        (
          r,
          held.1,
          write_eq u.expected u.received w held.0 (take n bytes) held.2 (rw e k) (omega arith),
        )
        refl

  execute_chunk-fine :
      (a : Answers) (c : Command) (bytes : Option (List ℕ))
      → Enough c.size bytes
      → (execute_chunk a c bytes u).1 ≡ fine
      → session (execute_chunk a c bytes u).0 ≡ after c bytes chunk (session u)
  unfolding execute_chunk cleanup fail
  execute_chunk-fine a c none n = λ h. cc
  execute_chunk-fine a c (some bytes) n = elim (Bool-cases (c.size == 0 || ltb 1024 c.size)) [
    | inl x ↦ rw x (λ h. cc)
    | inr x ↦ elim (Bool-cases (ltb (elapsed u.expected u.received) c.size)) [
      | inl l ↦ rw (x, l) (λ h. cc)
      | inr l ↦ elim (Bool-cases (a.written == c.size)) [
        | inl w ↦ elim (Bool-cases a.canceled) [
          | inl y ↦ rw (x, l, w, y) (λ h. cc)
          | inr y ↦ rw (x, l, w, y) (λ h. chunk_after c.size a.written bytes n w l)
        ]
        | inr w ↦ rw (x, l, w) (λ h. cc)
      ]
    ]
  ]

execute_kind-fine :
    (kind : Operation) (a : Answers) (c : Command) (bytes : Option (List ℕ)) (u : Updater)
    → Enough c.size bytes
    → IsSound u
    → (execute_kind kind a c bytes u).1 ≡ fine
    → session (execute_kind kind a c bytes u).0 ≡ after c bytes kind (session u)
execute_kind-fine start a c bytes u m s = execute_start-fine a c u s
execute_kind-fine arm_restart a c bytes u m s = λ h. execute_arm_restart-fine a u s
execute_kind-fine end a c bytes u m s = elim (Bool-cases (is_receiving u.state)) [
  | inl e ↦ rw e (execute_end-fine u s (receiving_of u.state e) a c bytes)
  | inr e ↦ rw e (λ h. cc)
]
execute_kind-fine chunk a c bytes u m s = elim (Bool-cases (is_receiving u.state)) [
  | inl e ↦ rw e (execute_chunk-fine u s (receiving_of u.state e) a c bytes m)
  | inr e ↦ rw e (λ h. cc)
]

-- In every run, a command that is answered with no error has done what it asks for: a Start has opened a
-- session of its size, a Chunk has added exactly its bytes, an End has made whole the image of the bytes that
-- were added, and an ArmRestart has left the image as it is.
pub process_command-fine :
    {u : Updater} (a : Answers) (canceled : Bool) (c : Command) (bytes : Option (List ℕ))
    → Run u
    → Enough c.size bytes
    → (process_command a canceled c bytes u).1.completes ≡ some fine
    → session (process_command a canceled c bytes u).0 ≡ after c bytes c.kind (session u)
unfolding process_command execute cleanup fail
process_command-fine {u} a canceled c bytes run m =
    elim (Bool-cases (canceled && not (is_arm_restart c.kind))) [
      | inl e ↦ rw e (λ h. cc)
      | inr e ↦
          elim (Bool-cases
            (not (is_start c.kind) && (c.generation == 0 || not (c.generation == u.generation)))) [
              | inl f ↦ rw (e, f) (λ h. cc)
              | inr f ↦
                  rw (e, f)
                    (λ h. execute_kind-fine c.kind a c bytes u m (Run-IsSound run) (some_eq h))
            ]
    ]
