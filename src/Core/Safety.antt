-- ===== src/Core/Safety.antt =====
-- aquaOneCore/include/AquaCore/Safety/ActionLockCoordinator.h: whether an action is locked, by what its
-- providers contribute. A provider is a function of the action, a null pointer is `none`.
pub mod Query
mod Examples
use aqua_one.Base.{
  ℕ, ◌+◌, Bool, true, false, not, ◌&&◌, ◌==◌, if◌then◌else◌, List, [], ◌∷◌, Option, none, some,
}

pub record Contribution : Type 0 where
  pub locked : Bool
  pub safety_critical : Bool

pub record LockState : Type 0 where
  pub is_locked : Bool
  pub has_safety_critical_lock : Bool
  pub active_provider_count : ℕ
  pub composition_valid : Bool

-- The array of providers and its length; a null array has the length that was given with it.
pub data Providers (A : Type 0) : Type 0 where
  null_array : ℕ → Providers A
  array : List (Option (A → Contribution)) → Providers A

abbrev pub fail_closed : LockState
fail_closed = record {
  is_locked = true;
  has_safety_critical_lock = true;
  active_provider_count = 0;
  composition_valid = false;
}

abbrev pub open_state : LockState
open_state = record {
  is_locked = false;
  has_safety_critical_lock = false;
  active_provider_count = 0;
  composition_valid = true;
}

module _ {A : Type 0} where
  -- The loop of the constructor: no pointer is null.
  abbrev pub all_given : List (Option (A → Contribution)) → Bool
  all_given [] = true
  all_given (none ∷ ps) = false
  all_given (some p ∷ ps) = all_given ps

  abbrev is_empty : List (Option (A → Contribution)) → Bool
  is_empty [] = true
  is_empty (p ∷ ps) = false

  -- The constructor's compositionValid_.
  unfoldable pub is_composition_valid : Providers A → Bool
  is_composition_valid (null_array count) = count == 0
  is_composition_valid (array ps) = not (is_empty ps) && all_given ps

  -- The loop of query().
  unfoldable pub query_loop : List (Option (A → Contribution)) → A → LockState → LockState
  query_loop [] action result = result
  query_loop (none ∷ ps) action result = query_loop ps action result
  query_loop (some p ∷ ps) action result =
      let c = p action in
      let rest = query_loop ps action (
        if c.locked
        then record result {
          is_locked = true;
          active_provider_count = result.active_provider_count + 1;
          has_safety_critical_lock =
              if c.safety_critical then true else result.has_safety_critical_lock;
        }
        else result) in
      if c.safety_critical && not c.locked then fail_closed else rest

  -- The providers that query() asks.
  abbrev pub pointed_to : Providers A → List (Option (A → Contribution))
  pointed_to (null_array count) = []
  pointed_to (array ps) = ps

  unfoldable pub query : Providers A → A → LockState
  query ps action =
      if not (is_composition_valid ps)
      then fail_closed
      else query_loop (pointed_to ps) action open_state
