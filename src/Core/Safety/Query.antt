-- ===== src/Core/Safety/Query.antt =====
-- What the answer of aquaOneCore/include/AquaCore/Safety/ActionLockCoordinator.h says of the providers.
use aqua_one.Base.{
  ℕ, ◌+◌, ◌≡◌, refl, Bool, true, false, not, ◌&&◌, ◌||◌, if◌then◌else◌, List, [], ◌∷◌, Option, none,
  some, arith, Bool-cases, inl, inr, ◌⊎◌, ◌==◌,
}
use aqua_one.Core.Safety.{
  Contribution, LockState, Providers, null_array, array, fail_closed, all_given, open_state,
  is_composition_valid, query_loop, query, pointed_to,
}

module _ {A : Type 0} where
  -- Some provider's contribution to an action passes a test; and how many lock.
  abbrev pub some_provider : (Contribution → Bool) → List (Option (A → Contribution)) → A → Bool
  some_provider test [] action = false
  some_provider test (none ∷ ps) action = some_provider test ps action
  some_provider test (some p ∷ ps) action = test (p action) || some_provider test ps action

  abbrev pub lock_count : List (Option (A → Contribution)) → A → ℕ
  lock_count [] action = 0
  lock_count (none ∷ ps) action = lock_count ps action
  lock_count (some p ∷ ps) action = (if (p action).locked then 1 else 0) + lock_count ps action

abbrev pub blocks : Contribution → Bool
blocks c = c.locked || c.safety_critical

abbrev pub malformed : Contribution → Bool
malformed c = c.safety_critical && not c.locked

or_false : (b : Bool) → b ≡ (b || false)
or_false b = ground arith

-- The result of the loop with one provider that locks.
abbrev locked_by : LockState → Contribution → LockState
locked_by r c = record r {
  is_locked = true;
  active_provider_count = r.active_provider_count + 1;
  has_safety_critical_lock = if c.safety_critical then true else r.has_safety_critical_lock;
}

-- An answer that locks and says that the composition is not valid.
pub record IsClosed (v : LockState) : Type 0 where
  pub locks_all : v.is_locked ≡ true
  pub is_critical : v.has_safety_critical_lock ≡ true
  pub counts_none : v.active_provider_count ≡ 0
  pub says_so : v.composition_valid ≡ false

closed : IsClosed fail_closed
closed = record { locks_all = refl; is_critical = refl; counts_none = refl; says_so = refl }

module _ {A : Type 0} where
  -- The answer of the loop that has collected `r`.
  pub record IsAnswer (ps : List (Option (A → Contribution))) (action : A) (r v : LockState)
      : Type 0 where
    pub locks : v.is_locked ≡ (r.is_locked || some_provider blocks ps action)
    pub critical :
        v.has_safety_critical_lock
        ≡ (r.has_safety_critical_lock || some_provider (λ c. c.safety_critical) ps action)
    pub counts : v.active_provider_count ≡ (
        if some_provider malformed ps action
        then 0
        else r.active_provider_count + lock_count ps action)
    pub valid : v.composition_valid ≡ not (some_provider malformed ps action)

  query_loop-IsAnswer :
      (ps : List (Option (A → Contribution))) (action : A) (r : LockState)
      → r.composition_valid ≡ true
      → IsAnswer ps action r (query_loop ps action r)
  unfolding query_loop
  query_loop-IsAnswer [] action r h = record {
    locks = or_false r.is_locked;
    critical = or_false r.has_safety_critical_lock;
    counts = omega arith;
    valid = h;
  }
  query_loop-IsAnswer (none ∷ ps) action r h =
      let x = query_loop-IsAnswer ps action r h in
      record { locks = x.locks; critical = x.critical; counts = x.counts; valid = x.valid }
  query_loop-IsAnswer (some p ∷ ps) action r h = elim (Bool-cases (p action).locked) [
    | inl l ↦
        let x = query_loop-IsAnswer ps action (locked_by r (p action)) h in
        record {
          locks = rw l (ground (arith, x.locks));
          critical = rw l (ground (arith, x.critical));
          counts = rw l (ground (arith, x.counts));
          valid = rw l (ground (arith, x.valid));
        }
    | inr n ↦
        let x = query_loop-IsAnswer ps action r h in
        record {
          locks = rw n (ground (arith, x.locks));
          critical = rw n (ground (arith, x.critical));
          counts = rw n (ground (arith, x.counts));
          valid = rw n (ground (arith, x.valid));
        }
  ]

  abbrev pub AreGiven : List (Option (A → Contribution)) → Type 0
  AreGiven [] = Unit
  AreGiven (none ∷ ps) = ⊥
  AreGiven (some p ∷ ps) = AreGiven ps

  -- A valid composition: no providers and no array, or an array of some with no null pointer.
  abbrev pub IsComposed : Providers A → Type 0
  IsComposed (null_array count) = count ≡ 0
  IsComposed (array []) = ⊥
  IsComposed (array (p ∷ ps)) = AreGiven (p ∷ ps)

  all_given-AreGiven :
      (ps : List (Option (A → Contribution)))
      → (AreGiven ps × (all_given ps ≡ true)) ⊎ (¬ AreGiven ps × (all_given ps ≡ false))
  all_given-AreGiven [] = inl (tt, refl)
  all_given-AreGiven (none ∷ ps) = inr ((λ h. h), refl)
  all_given-AreGiven (some p ∷ ps) = all_given-AreGiven ps

  -- The answer of query() to a composition.
  abbrev pub Answers : Providers A → A → LockState → Type 0
  Answers ps action v =
      (IsComposed ps × IsAnswer (pointed_to ps) action open_state v)
      ⊎ (¬ IsComposed ps × IsClosed v)

  -- query() answers every composition. Of one that is valid, that is, of no providers at all or of some with
  -- no null pointer among them, it locks an action just when some provider locks it or claims a critical
  -- lock; the lock is critical just when some provider says so, also in a contradiction, by which the
  -- answer fails closed with no provider counted; otherwise the providers that lock are counted. Every
  -- other composition fails closed: locked, critical, no provider counted and not valid.
  pub query_lem : (ps : Providers A) (action : A) → Answers ps action (query ps action)
  unfolding query is_composition_valid query_loop
  query_lem (null_array count) action = elim (Bool-cases (count == 0)) [
    | inl e ↦ rw e (inl (ground arith, query_loop-IsAnswer [] action open_state refl))
    | inr e ↦ rw e (inr ((λ h. ground arith), closed))
  ]
  query_lem (array []) action = inr ((λ h. h), closed)
  query_lem (array (p ∷ ps)) action = elim (all_given-AreGiven (p ∷ ps)) [
    | inl (g, e) ↦ rw e (inl (g, query_loop-IsAnswer (p ∷ ps) action open_state refl))
    | inr (g, e) ↦ rw e (inr (g, closed))
  ]
