-- ===== src/Luma/Modes/Stack.antt =====
-- What aquaOneLuma/src/core/ModeManager.cpp promises: a light that is off, or that is on with a base mode and a
-- stack of overrides, of which the one on top holds.
use aqua_one.Base.{
  ◌≡◌, refl, ap, ◌∙◌, Bool, true, false, not, ◌||◌, ltb, if◌then◌else◌, List, [], ◌∷◌, arith,
}
use aqua_one.Luma.Modes.{
  Mode, normal, service, manual, channel_test, preview, simulation, off, Manager, reset_to_normal,
  is_off, is_service, priority_of, Operation, enter, exit, call,
}

pub data Light : Type 0 where
  dark : Light
  lit : Mode → List Mode → Light

abbrev pub top_of : Mode → List Mode → Mode
top_of base [] = base
top_of base (x ∷ xs) = x

-- The mode that holds, and the one that holds when it is left.
abbrev pub current : Light → Mode
current dark = off
current (lit base st) = top_of base st

abbrev pub next_mode : Light → Mode
next_mode dark = normal
next_mode (lit base []) = base
next_mode (lit base (x ∷ xs)) = top_of base xs

abbrev pub same_mode : Mode → Mode → Bool
same_mode normal normal = true
same_mode service service = true
same_mode manual manual = true
same_mode channel_test channel_test = true
same_mode preview preview = true
same_mode simulation simulation = true
same_mode off off = true
same_mode _ _ = false

-- An override goes on top of those of less priority only, and only the one on top can be taken off.
abbrev pub push : Mode → Mode → List Mode → Light × Bool
push x base st =
    if ltb (priority_of (top_of base st)) (priority_of x)
    then (lit base (x ∷ st), true)
    else (lit base st, false)

abbrev pub pop : Mode → Mode → List Mode → Light × Bool
pop x base [] = (lit base [], false)
pop x base (y ∷ st) = if same_mode x y then (lit base st, true) else (lit base (y ∷ st), false)

-- The operations; the base mode can be set under the overrides.
abbrev pub operate : Operation → Light → Light × Bool
operate (enter off) dark = (dark, false)
operate (enter off) (lit base st) = (dark, true)
operate (exit off) dark = (lit normal [], true)
operate (exit off) (lit base st) = (lit base st, false)
operate (enter service) (lit base st) =
    if is_service base then (lit base st, false) else (lit service st, true)
operate (exit service) (lit base st) =
    if is_service base then (lit normal st, true) else (lit base st, false)
operate (enter normal) (lit base st) = (lit base st, false)
operate (exit normal) (lit base st) = (lit base st, false)
operate (enter x) (lit base st) = push x base st
operate (exit x) (lit base st) = pop x base st
operate o dark = (dark, false)

abbrev pub put_if : Bool → Mode → List Mode → List Mode
put_if true x xs = x ∷ xs
put_if false x xs = xs

-- The overrides of a manager, and the light that it stands for.
abbrev pub overrides : Manager → List Mode
overrides m = put_if m.channel_test_active channel_test (
    put_if m.manual_active manual
      (put_if m.preview_active preview (put_if m.simulation_active simulation [])))

abbrev pub light : Manager → Light
light m = if is_off m.mode then dark else lit m.base_mode (overrides m)

abbrev is_base : Mode → Bool
is_base normal = true
is_base service = true
is_base _ = false

pub record IsSound (m : Manager) : Type 0 where
  pub holds : m.mode ≡ current (light m)
  pub returns : m.return_mode ≡ next_mode (light m)
  pub base : is_base m.base_mode ≡ true
  pub cleared :
      (not (is_off m.mode)
        || not
            (m.channel_test_active || m.manual_active || m.preview_active || m.simulation_active))
      ≡ true

pub record Agrees (o : Operation) (m : Manager) : Type 0 where
  pub sound : IsSound (call o m).0
  pub leaves : light (call o m).0 ≡ (operate o (light m)).0
  pub answers : (call o m).1 ≡ (operate o (light m)).1

call-Agrees : (o : Operation) (m : Manager) → IsSound m → Agrees o m
unfolding call
call-Agrees (enter normal) m s = ground arith
call-Agrees (enter service) m s = ground arith
call-Agrees (enter manual) m s = ground arith
call-Agrees (enter channel_test) m s = ground arith
call-Agrees (enter preview) m s = ground arith
call-Agrees (enter simulation) m s = ground arith
call-Agrees (enter off) m s = ground arith
call-Agrees (exit normal) m s = ground arith
call-Agrees (exit service) m s = ground arith
call-Agrees (exit manual) m s = ground arith
call-Agrees (exit channel_test) m s = ground arith
call-Agrees (exit preview) m s = ground arith
call-Agrees (exit simulation) m s = ground arith
call-Agrees (exit off) m s = ground arith

-- The manager after some calls, with what they returned.
abbrev pub calls : List Operation → Manager → Manager × List Bool
calls [] m = (m, [])
calls (o ∷ os) m = (let r = call o m in let rest = calls os r.0 in (rest.0, r.1 ∷ rest.1))

abbrev pub operations : List Operation → Light → Light × List Bool
operations [] l = (l, [])
operations (o ∷ os) l =
    (let r = operate o l in let rest = operations os r.0 in (rest.0, r.1 ∷ rest.1))

calls_agree :
    (os : List Operation) (m : Manager)
    → IsSound m
    → IsSound (calls os m).0
      × (light (calls os m).0 ≡ (operations os (light m)).0)
      × ((calls os m).1 ≡ (operations os (light m)).1)
calls_agree [] m s = (s, refl, refl)
calls_agree (o ∷ os) m s =
    let a = call-Agrees o m s in
    let rest = calls_agree os (call o m).0 a.sound in
    rw (← a.leaves, ← a.answers) (rest.0, rest.1, ap (λ t. (call o m).1 ∷ t) rest.2)

-- After any calls from the start, in any order, the manager answers as the stack of overrides does and
-- stands for its light: mode() is the override on top of the base mode, and returnMode() the one below it.
pub calls-operations :
    (os : List Operation)
    → ((calls os reset_to_normal).1 ≡ (operations os (lit normal [])).1)
      × (light (calls os reset_to_normal).0 ≡ (operations os (lit normal [])).0)
      × ((calls os reset_to_normal).0.mode ≡ current (operations os (lit normal [])).0)
      × ((calls os reset_to_normal).0.return_mode ≡ next_mode (operations os (lit normal [])).0)
calls-operations os =
    let a = calls_agree os reset_to_normal (ground arith) in
    (a.2, a.1, a.0.holds ∙ ap current a.1, a.0.returns ∙ ap next_mode a.1)
