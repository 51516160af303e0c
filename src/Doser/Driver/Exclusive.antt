-- ===== src/Doser/Driver/Exclusive.antt =====
-- At most one pump of aquaOneDoser/src/PumpDriver.cpp runs, and not for longer than the limit.
use aqua_one.Base.{
  ==_eq, ==_ne, ℕ, ◌<◌, ◌≤◌, ◌≡◌, refl, sym, subst, ◌∙◌, ap, Bool, true, false, not, ◌||◌, ◌==◌,
  ltb, if◌then◌else◌, List, length, get_or, set, replicate, length-set, length-replicate,
  get_or-replicate, get_or-set_self, get_or-set_ne, Option, none, some, arith, elapsed, Bool-cases,
  Option-cases, inl, inr,
}
use aqua_one.Doser.Driver.{
  pump_count, maximum_ms, Driver, any_running, StopReason, normal, safety_timeout, stop_internal,
  all_off, stop_all, driver_loop, start_pump, stop_pump,
}

-- Whether the pump of an index is the one that is noted as running.
abbrev pub is_noted : Option ℕ → ℕ → Bool
is_noted none i = false
is_noted (some j) i = i == j

-- A list of flags, one for each pump, of which only that of the noted pump is set.
pub record IsOnly (flags : List Bool) (noted : Option ℕ) : Type 0 where
  pub whole_length : length flags ≡ pump_count
  pub flag : (i : ℕ) → get_or flags i false ≡ is_noted noted i

pub record IsExclusive (d : Driver) : Type 0 where
  pub outputs : IsOnly d.high d.running_pump
  pub flags : IsOnly d.running d.running_pump
  pub in_range : (i : ℕ) → d.running_pump ≡ some i → i < pump_count

pub none_on : IsOnly (replicate pump_count false) none
none_on = record {
  whole_length = length-replicate pump_count false;
  flag = λ i. get_or-replicate pump_count i false;
}

lt_length :
    {noted : Option ℕ} (flags : List Bool) (i : ℕ)
    → i < pump_count
    → IsOnly flags noted
    → i < length flags
lt_length flags i h o = subst (λ n. i < n) (sym o.whole_length) h

-- Reading a flag after a write within bounds.
get_or-set :
    (flags : List Bool) (i j : ℕ) (v : Bool)
    → i < length flags
    → get_or (set flags i v) j false ≡ (if j == i then v else get_or flags j false)
get_or-set flags i j v h = elim (Bool-cases (j == i)) [
  | inl e ↦ rw e (
      subst (λ k. get_or (set flags i v) k false ≡ v) (==_eq j i e)
        (get_or-set_self flags i v false h))
  | inr n ↦ rw n (get_or-set_ne flags i j v false (==_ne j i n))
]

flag_on : (b : Bool) {f : Bool} → f ≡ false → (if b then true else f) ≡ b
flag_on true e = refl
flag_on false e = e

flag_off : (b : Bool) {f : Bool} → f ≡ b → (if b then false else f) ≡ false
flag_off true e = refl
flag_off false e = e

set_on :
    (flags : List Bool) (i : ℕ)
    → i < pump_count
    → IsOnly flags none
    → IsOnly (set flags i true) (some i)
set_on flags i h o = record {
  whole_length = length-set flags i true ∙ o.whole_length;
  flag = λ j. get_or-set flags i j true (lt_length flags i h o) ∙ flag_on (j == i) (o.flag j);
}

set_off :
    (flags : List Bool) (i : ℕ)
    → i < pump_count
    → IsOnly flags (some i)
    → IsOnly (set flags i false) none
set_off flags i h o = record {
  whole_length = length-set flags i false ∙ o.whole_length;
  flag = λ j. get_or-set flags i j false (lt_length flags i h o) ∙ flag_off (j == i) (o.flag j);
}

pub stop_all-IsExclusive : (d : Driver) → IsExclusive (stop_all d)
unfolding stop_all all_off
stop_all-IsExclusive d = elim (Bool-cases (any_running d)) [
  | inl e ↦ rw e (record { outputs = none_on; flags = none_on; in_range = λ i h. ground arith })
  | inr e ↦ rw e (record { outputs = none_on; flags = none_on; in_range = λ i h. ground arith })
]

pub stop_all-off : (d : Driver) → any_running (stop_all d) ≡ false
unfolding stop_all all_off
stop_all-off d = elim (Bool-cases (any_running d)) [ inl e ↦ rw e refl | inr e ↦ rw e refl ]

stop_internal-IsExclusive :
    (d : Driver) (i : ℕ) (r : StopReason)
    → d.running_pump ≡ some i
    → IsExclusive d
    → IsExclusive (stop_internal d i r)
unfolding stop_internal
stop_internal-IsExclusive d i r e x = record {
  outputs = set_off d.high i (x.in_range i e) (subst (IsOnly d.high) e x.outputs);
  flags = set_off d.running i (x.in_range i e) (subst (IsOnly d.running) e x.flags);
  in_range = λ j h. ground arith;
}

idle_of :
    (d : Driver) (i : ℕ)
    → (not d.initialized || not (ltb i pump_count) || any_running d) ≡ false
    → d.running_pump ≡ none
idle_of d i free = ground arith

pub start_pump-IsExclusive :
    (d : Driver) (i now : ℕ) → IsExclusive d → IsExclusive (start_pump d i now).0
unfolding start_pump
start_pump-IsExclusive d i now x =
    elim (Bool-cases (not d.initialized || not (ltb i pump_count) || any_running d)) [
      | inl refused ↦ rw refused x
      | inr free ↦ rw free (record {
        outputs =
            set_on d.high i (ground arith) (subst (IsOnly d.high) (idle_of d i free) x.outputs);
        flags =
            set_on d.running i (ground arith) (subst (IsOnly d.running) (idle_of d i free) x.flags);
        in_range = λ j h. ground arith;
      })
    ]

pub noted_of : (o : Option ℕ) (i : ℕ) → is_noted o i ≡ true → o ≡ some i
noted_of none i h = cc
noted_of (some j) i h = ap some (==_eq i j h)

running_of : (a b : Bool) {r : Bool} → (not b || not a || not r) ≡ false → r ≡ true
running_of a b h = ground arith

pub stop_pump-IsExclusive : (d : Driver) (i : ℕ) → IsExclusive d → IsExclusive (stop_pump d i).0
unfolding stop_pump
stop_pump-IsExclusive d i x =
    elim (Bool-cases
      (not d.initialized || not (ltb i pump_count) || not (get_or d.running i false))) [
        | inl refused ↦ rw refused x
        | inr fine ↦ rw fine (
            stop_internal-IsExclusive d i normal
              (noted_of d.running_pump i
                (sym (x.flags.flag i) ∙ running_of (ltb i pump_count) d.initialized fine))
              x)
      ]

driver_loop-none : (d : Driver) (now : ℕ) → d.running_pump ≡ none → driver_loop d now ≡ d
unfolding driver_loop
driver_loop-none d now e = ground arith

pub driver_loop-early :
    (d : Driver) (now : ℕ) → elapsed now d.started_at ≤ maximum_ms → driver_loop d now ≡ d
unfolding driver_loop
driver_loop-early d now h = ground arith

driver_loop-stop :
    (d : Driver) (now i : ℕ)
    → d.running_pump ≡ some i
    → ltb maximum_ms (elapsed now d.started_at) ≡ true
    → driver_loop d now ≡ stop_internal d i safety_timeout
unfolding driver_loop
driver_loop-stop d now i e h = ground arith

pub driver_loop-IsExclusive :
    (d : Driver) (now : ℕ) → IsExclusive d → IsExclusive (driver_loop d now)
unfolding driver_loop
driver_loop-IsExclusive d now x = elim (Option-cases d.running_pump) [
  | inl e ↦ subst IsExclusive (sym (driver_loop-none d now e)) x
  | inr (i, e) ↦ elim (Bool-cases (ltb maximum_ms (elapsed now d.started_at))) [
    | inl late ↦
        subst IsExclusive (sym (driver_loop-stop d now i e late))
          (stop_internal-IsExclusive d i safety_timeout e x)
    | inr early ↦ subst IsExclusive (sym (driver_loop-early d now (ground arith))) x
  ]
]
