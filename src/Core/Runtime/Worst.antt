-- ===== src/Core/Runtime/Worst.antt =====
-- What the status of aquaOneCore/src/System/RuntimeStateCoordinator.cpp says of the providers.
use aqua_one.Base.{
  ℕ, ◌≡◌, refl, ◌∙◌, Bool, true, false, not, ◌&&◌, ◌||◌, ltb, if◌then◌else◌, List, [], ◌∷◌, none,
  some, Bool-cases, inl, inr, arith,
}
use aqua_one.Core.Runtime.{
  Health, ok, Safety, clear, locked, is_valid_health, is_valid_safety, severity, is_locked,
  Coordinator, refreshed, invalid_provider, health_loop, safety_loop, refresh,
}

-- A level of health that at least one of some providers reports, and none exceeds; `ok` for none at all.
abbrev pub worst : List Health → ℕ
worst [] = 0
worst (h ∷ hs) = if ltb (worst hs) (severity h) then severity h else worst hs

abbrev pub any_locked : List Safety → Bool
any_locked [] = false
any_locked (s ∷ ss) = is_locked s || any_locked ss

abbrev pub all_known : List Health → Bool
all_known [] = true
all_known (h ∷ hs) = is_valid_health h && all_known hs

abbrev pub all_known_safety : List Safety → Bool
all_known_safety [] = true
all_known_safety (s ∷ ss) = is_valid_safety s && all_known_safety ss

abbrev max : ℕ → ℕ → ℕ
max a b = if ltb a b then b else a

-- The health that a pass over the providers ends with.
pick : Health → List Health → Health
pick h [] = h
pick h (x ∷ hs) = pick (if ltb (severity h) (severity x) then x else h) hs

health_loop_lem :
    (hs : List Health) (h : Health)
    → health_loop hs h ≡ (if all_known hs then some (pick h hs) else none)
unfolding health_loop pick
health_loop_lem [] h = refl
health_loop_lem (x ∷ hs) h =
    ground (arith, health_loop_lem hs (if ltb (severity h) (severity x) then x else h))

max_assoc : (a b c : ℕ) → max (max a b) c ≡ max a (if ltb c b then b else c)
max_assoc a b c = ground arith

max_zero : (a : ℕ) → a ≡ max a 0
max_zero a = ground arith

severity_if :
    (h x : Health)
    → severity (if ltb (severity h) (severity x) then x else h) ≡ max (severity h) (severity x)
severity_if h x = elim (Bool-cases (ltb (severity h) (severity x))) [
  | inl e ↦ rw e refl
  | inr e ↦ rw e refl
]

severity-pick : (hs : List Health) (h : Health) → severity (pick h hs) ≡ max (severity h) (worst hs)
unfolding pick
severity-pick [] h = max_zero (severity h)
severity-pick (x ∷ hs) h =
    severity-pick hs (if ltb (severity h) (severity x) then x else h)
    ∙ rw (severity_if h x) (max_assoc (severity h) (severity x) (worst hs))

safety_loop_lem :
    (ss : List Safety) (s : Safety)
    → safety_loop ss s
      ≡ (if all_known_safety ss then some (if any_locked ss then locked else s) else none)
unfolding safety_loop
safety_loop_lem [] s = refl
safety_loop_lem (x ∷ ss) s = ground (arith, safety_loop_lem ss (if is_locked x then locked else s))

-- A refresh of an active coordinator tells the worst that the providers report: the health of the worst one,
-- and locked if one of them locks; but fault and locked, which nothing exceeds, once a failure of the runtime
-- has been latched, or when the composition or a contribution is not valid, which the result says too.
pub refresh_lem :
    (hs : List Health) (ss : List Safety) (c : Coordinator)
    → c.active ≡ true
    → let known = c.lists_valid && all_known hs && all_known_safety ss in
      let failed = c.failure_latched || not known in
      let r = refresh hs ss c in
      (r.1 ≡ (if known then refreshed else invalid_provider))
      × (severity r.0.status.health ≡ (if failed then 2 else worst hs))
      × (is_locked r.0.status.safety ≡ (failed || any_locked ss))
unfolding refresh
refresh_lem hs ss c h =
    ground (arith, health_loop_lem hs ok, safety_loop_lem ss clear, severity-pick hs ok)
