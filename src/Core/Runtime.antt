-- ===== src/Core/Runtime.antt =====
-- The state of the system as its providers report it, by
-- aquaOneCore/src/System/RuntimeStateCoordinator.cpp. What the providers contribute at a call is an argument,
-- in their order; a null pointer is `none`, and a value of the enumeration that the code does not know is
-- `foreign`. The status that is published after activate is the coordinator's own.
pub mod Worst
mod Examples
use aqua_one.Base.{
  ℕ, Bool, true, false, not, ◌&&◌, ◌||◌, ◌==◌, ltb, if◌then◌else◌, List, [], ◌∷◌, Option, none,
  some,
}

pub data Health : Type 0 where
  ok : Health
  degraded : Health
  fault : Health
  foreign : Health

pub data Safety : Type 0 where
  clear : Safety
  locked : Safety
  foreign_safety : Safety

abbrev pub is_valid_health : Health → Bool
is_valid_health foreign = false
is_valid_health _ = true

abbrev pub is_valid_safety : Safety → Bool
is_valid_safety foreign_safety = false
is_valid_safety _ = true

-- healthSeverity(value).
abbrev pub severity : Health → ℕ
severity fault = 2
severity degraded = 1
severity _ = 0

abbrev pub is_locked : Safety → Bool
is_locked locked = true
is_locked _ = false

abbrev pub is_clear : Safety → Bool
is_clear clear = true
is_clear _ = false

pub data RefreshResult : Type 0 where
  refreshed : RefreshResult
  inactive : RefreshResult
  invalid_provider : RefreshResult

-- A list of pointers and the length that was given with it.
pub data Pointers : Type 0 where
  null_array : ℕ → Pointers
  array : List Bool → Pointers

-- The fields of RuntimeStatus that the coordinator writes.
pub record Status : Type 0 where
  pub health : Health
  pub safety : Safety

pub record Coordinator : Type 0 where
  pub lists_valid : Bool
  pub active : Bool
  pub failure_latched : Bool
  pub status : Status

abbrev all_given : List Bool → Bool
all_given [] = true
all_given (b ∷ bs) = b && all_given bs

abbrev is_given : Pointers → Bool
is_given (null_array count) = count == 0
is_given (array []) = false
is_given (array (b ∷ bs)) = b && all_given bs

abbrev failed_status : Status
failed_status = record { health = fault; safety = locked }

-- RuntimeStateCoordinator(healthProviders, healthProviderCount, safetyProviders, safetyProviderCount).
unfoldable pub compose : Pointers → Pointers → Coordinator
compose healths safeties = record {
  lists_valid = is_given healths && is_given safeties;
  active = false;
  failure_latched = false;
  status = failed_status;
}

-- The loop over the health providers: none where a contribution is not valid.
unfoldable pub health_loop : List Health → Health → Option Health
health_loop [] health = some health
health_loop (h ∷ hs) health =
    let rest = health_loop hs (if ltb (severity health) (severity h) then h else health) in
    if not (is_valid_health h) then none else rest

-- The loop over the safety providers.
unfoldable pub safety_loop : List Safety → Safety → Option Safety
safety_loop [] safety = some safety
safety_loop (s ∷ ss) safety =
    let rest = safety_loop ss (if is_locked s then locked else safety) in
    if not (is_valid_safety s) then none else rest

abbrev both : Option Health → Option Safety → Status × Bool
both none s = (failed_status, false)
both (some h) none = (failed_status, false)
both (some h) (some s) = (record { health = h; safety = s }, true)

-- aggregate(health, safety).
unfoldable pub aggregate : List Health → List Safety → Coordinator → Status × Bool
unfolding health_loop safety_loop
aggregate hs ss c =
    if not c.lists_valid
    then (failed_status, false)
    else both (health_loop hs ok) (safety_loop ss clear)

-- refresh().
unfoldable pub refresh : List Health → List Safety → Coordinator → Coordinator × RefreshResult
unfolding aggregate
refresh hs ss c =
    let (status, valid) = aggregate hs ss c in
    if not c.active then (c, inactive) else (
      record c { status = if c.failure_latched then failed_status else status },
      if valid then refreshed else invalid_provider,
    )

-- latchRuntimeFailure().
unfoldable pub latch_runtime_failure : Coordinator → Coordinator
latch_runtime_failure c = record c { failure_latched = true; status = failed_status }

-- activate(status).
unfoldable pub activate : List Health → List Safety → Status → Coordinator → Coordinator × Bool
unfolding aggregate
activate hs ss status c =
    let (found, valid) = aggregate hs ss c in
    if c.active
    then (c, false)
    else if not valid
        || ltb (severity found.health) (severity status.health)
        || (is_locked status.safety && is_clear found.safety)
    then (c, false)
    else (record c { status = found; active = true }, true)
