-- ===== src/Luma/Examples.antt =====
-- The theorems on the light at small inputs, with whole numbers in the place of the floats.
use aqua_one.Base.{
  ℕ, ◌+◌, ◌-◌, ◌*◌, ◌/◌, ◌^◌, ◌≤◌, ◌<◌, ◌≡◌, refl, Bool, true, false, ltb, leb, List, [], ◌∷◌,
  get_or, Option, none, some, arith,
}
use aqua_one.Luma.Modes.{Operation, enter, exit, manual, simulation, normal, reset_to_normal}
use aqua_one.Luma.Modes.Stack.{calls, calls-operations, light, lit}
use aqua_one.Luma.Floats.{Floats, IsOrdered}
use aqua_one.Luma.Levels.{ChannelConfig, process}
use aqua_one.Luma.Levels.Limits.{AreWithin, process-AreWithin}
use aqua_one.Luma.Fade.{start, update}
use aqua_one.Luma.Fade.Target.{fade_ends, updates, Calls}
use aqua_one.Luma.Day.{Profile, day, calculate_seconds, stage_seconds}
use aqua_one.Luma.Day.Segments.{calculate_seconds-current}

abbrev whole : Floats ℕ
whole = record {
  lt = ltb;
  le = leb;
  is_finite = λ n. true;
  add = ◌+◌;
  sub = ◌-◌;
  mul = ◌*◌;
  div = ◌/◌;
  pow = ◌^◌;
  of_word = λ n. n;
  to_word = λ n. n;
  zero_f = 0;
  one_f = 1;
  two_f = 2;
  three_f = 3;
  hundred_f = 100;
}

abbrev taps : List Operation
taps = enter simulation ∷ enter manual ∷ exit simulation ∷ exit manual ∷ []

calls-operations_example :
    ((calls taps reset_to_normal).1 ≡ true ∷ true ∷ false ∷ true ∷ [])
    × (light (calls taps reset_to_normal).0 ≡ lit normal (simulation ∷ []))
    × ((calls taps reset_to_normal).0.mode ≡ simulation)
    × ((calls taps reset_to_normal).0.return_mode ≡ normal)
calls-operations_example = calls-operations taps

-- Whole numbers with a NaN, which is `none`.
abbrev or_nan : (ℕ → ℕ → ℕ) → Option ℕ → Option ℕ → Option ℕ
or_nan op (some a) (some b) = some (op a b)
or_nan op (some a) none = none
or_nan op none b = none

abbrev compares : (ℕ → ℕ → Bool) → Option ℕ → Option ℕ → Bool
compares test (some a) (some b) = test a b
compares test (some a) none = false
compares test none b = false

abbrev is_number : Option ℕ → Bool
is_number (some a) = true
is_number none = false

abbrev with_nan : Floats (Option ℕ)
with_nan = record {
  lt = compares ltb;
  le = compares leb;
  is_finite = is_number;
  add = or_nan ◌+◌;
  sub = or_nan ◌-◌;
  mul = or_nan ◌*◌;
  div = or_nan ◌/◌;
  pow = or_nan ◌^◌;
  of_word = λ n. some n;
  to_word = λ x. elim x [ none ↦ 0 | some n ↦ n ];
  zero_f = some 0;
  one_f = some 1;
  two_f = some 2;
  three_f = some 3;
  hundred_f = some 100;
}

with_nan_asym : (a b : Option ℕ) → compares ltb a b ≡ true → compares ltb b a ≡ false
with_nan_asym (some a) (some b) h = ground arith
with_nan_asym (some a) none h = refl
with_nan_asym none (some b) h = refl
with_nan_asym none none h = refl

with_nan_at_most :
    (a b : Option ℕ)
    → is_number a ≡ true
    → is_number b ≡ true
    → compares ltb a b ≡ false
    → compares leb b a ≡ true
with_nan_at_most (some a) (some b) i j h = ground arith
with_nan_at_most (some a) none i j h = cc
with_nan_at_most none b i j h = cc

with_nan_below :
    (a b c : Option ℕ) → compares ltb a b ≡ true → compares leb b c ≡ true → compares leb a c ≡ true
with_nan_below (some a) (some b) (some c) h k = ground arith
with_nan_below (some a) (some b) none h k = cc
with_nan_below (some a) none c h k = cc
with_nan_below none b c h k = cc

with_nan-IsOrdered : IsOrdered with_nan
with_nan-IsOrdered = record {
  asym = with_nan_asym;
  at_most = with_nan_at_most;
  below = with_nan_below;
  zero_hundred = refl;
  zero_finite = refl;
  hundred_finite = refl;
}

abbrev channel : ChannelConfig (Option ℕ)
channel = record {
  enabled = true;
  hard_max = some 60;
  calibration_min = some 5;
  calibration_max = some 95;
  gamma = some 1;
}

-- One request is of 200 percent, the other one a NaN.
process-AreWithin_example :
    let cs = channel ∷ channel ∷ [] in
    AreWithin with_nan with_nan-IsOrdered cs (process with_nan (some 200 ∷ none ∷ []) cs (some 100))
process-AreWithin_example =
    process-AreWithin with_nan with_nan-IsOrdered (some 200 ∷ none ∷ []) (channel ∷ channel ∷ [])
      (some 100)

abbrev before : Calls ℕ
before = (4294967295, none) ∷ (3, some (70 ∷ [])) ∷ []

fade_ends_example :
    ((updates whole ((5000, some (1 ∷ [])) ∷ []) (
        update whole 999
          (updates whole before (start whole (10 ∷ []) (20 ∷ []) 1000 4294967290)))).current
      ≡ 70 ∷ [])
    × ((updates whole ((5000, some (1 ∷ [])) ∷ []) (
          update whole 999
            (updates whole before (start whole (10 ∷ []) (20 ∷ []) 1000 4294967290)))).active
        ≡ false)
fade_ends_example =
    fade_ends whole (10 ∷ []) (20 ∷ []) 1000 4294967290 999 before ((5000, some (1 ∷ [])) ∷ [])
      (omega arith) (refl, (refl, tt)) refl

abbrev profile : Profile ℕ
profile = record {
  day_start_minute = 480;
  day_end_minute = 1140;
  stages = [];
  night_enabled = false;
  night_levels = [];
}

abbrev stages : List ℕ
stages = stage_seconds whole (0 ∷ 0 ∷ 1 ∷ []) 28800 39600

calculate_seconds-current_example :
    ((calculate_seconds whole (0 ∷ 0 ∷ 1 ∷ []) profile 30000).day_state ≡ day)
    × ((calculate_seconds whole (0 ∷ 0 ∷ 1 ∷ []) profile 30000).next_stage
        ≡ (calculate_seconds whole (0 ∷ 0 ∷ 1 ∷ []) profile 30000).current_stage + 1)
    × (get_or stages (calculate_seconds whole (0 ∷ 0 ∷ 1 ∷ []) profile 30000).current_stage 0
        ≤ 30000)
    × (30000 < get_or stages (calculate_seconds whole (0 ∷ 0 ∷ 1 ∷ []) profile 30000).next_stage 0)
calculate_seconds-current_example =
    calculate_seconds-current whole 0 1 (0 ∷ []) profile 30000 (omega arith) (omega arith)
      (omega arith) refl refl
