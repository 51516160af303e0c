-- ===== src/Luma/Day.antt =====
-- The levels of a second of the day, by aquaOneLuma/src/profiles/DayEngine.cpp and .h. DAY_STAGE_POSITION of
-- include/Constants.h is the parameter `positions`, the place of each stage in the day from 0 to 1.
pub mod Segments
use aqua_one.Base.{
  ℕ, zero, suc, ◌+◌, ◌-◌, ◌*◌, ◌%◌, Bool, true, false, not, ◌&&◌, ◌||◌, ◌==◌, ltb, leb,
  if◌then◌else◌, List, [], ◌∷◌, get_or, replicate, Option, none, some, elapsed, add32,
}
use aqua_one.Luma.Floats.{Floats}

pub data DayState : Type 0 where
  day : DayState
  night : DayState

-- Profile, as far as it is read: the levels of each stage, and those of the night.
pub record Profile (F : Type 0) : Type 0 where
  pub day_start_minute : ℕ
  pub day_end_minute : ℕ
  pub stages : List (List F)
  pub night_enabled : Bool
  pub night_levels : List F

-- DayCalculation.
pub record DayCalculation (F : Type 0) : Type 0 where
  pub levels : List F
  pub day_state : DayState
  pub current_stage : ℕ
  pub next_stage : ℕ
  pub progress : F

-- The search for the segment: the first stage that has begun and whose next has not.
unfoldable pub search : ℕ → ℕ → List ℕ → Option ℕ
search s i [] = none
search s i (a ∷ []) = none
search s i (a ∷ b ∷ rest) =
    let more = search s (i + 1) (b ∷ rest) in if leb a s && ltb s b then some i else more

abbrev pub stage_or_first : Option ℕ → ℕ
stage_or_first none = 0
stage_or_first (some i) = i

module _ {F : Type 0} (f : Floats F) where
  open f use {lt, le, add, sub, mul, div, of_word, to_word, zero_f, one_f, two_f, three_f}

  -- smoothstep(value).
  unfoldable pub smoothstep : F → F
  smoothstep v =
      if le v zero_f
      then zero_f
      else if le one_f v
      then one_f
      else mul (mul v v) (sub three_f (mul two_f v))

  -- The loop over the channels.
  unfoldable pub interpolate : F → List F → List F → List F
  interpolate s [] ts = []
  interpolate s (a ∷ as') [] = []
  interpolate s (a ∷ as') (b ∷ bs) = add a (mul (sub b a) s) ∷ interpolate s as' bs

  -- stageSecond: the second at which each stage begins.
  unfoldable pub stage_seconds : List F → ℕ → ℕ → List ℕ
  stage_seconds [] start period = []
  stage_seconds (q ∷ qs) start period =
      add32 start (to_word (mul (of_word period) q)) ∷ stage_seconds qs start period

  -- The place between two stages, from 0 to 1.
  unfoldable pub progress_of : ℕ → ℕ → ℕ → F
  progress_of s start end =
      let long = elapsed end start in
      let p = if ltb 0 long then div (of_word (elapsed s start)) (of_word long) else zero_f in
      let q = if lt p zero_f then zero_f else p in if lt one_f q then one_f else q

  -- calculateSeconds in the day.
  unfoldable pub calculate_day : List F → Profile F → ℕ → ℕ → ℕ → DayCalculation F
  calculate_day positions profile s start end =
      let at = stage_seconds positions start (end - start) in
      let current = stage_or_first (search s 0 at) in
      let next = current + 1 in
      let p = progress_of s (get_or at current 0) (get_or at next 0) in
      record {
        levels =
            interpolate (smoothstep p) (get_or profile.stages current [])
              (get_or profile.stages next []);
        day_state = day;
        current_stage = current;
        next_stage = next;
        progress = p;
      }

  -- calculateSeconds in the night.
  unfoldable pub calculate_night : Profile F → DayCalculation F
  calculate_night profile = record {
    levels = if profile.night_enabled then profile.night_levels else replicate 8 zero_f;
    day_state = night;
    current_stage = 0;
    next_stage = 0;
    progress = zero_f;
  }

  -- calculateSeconds(profile, secondOfDay).
  unfoldable pub calculate_seconds : List F → Profile F → ℕ → DayCalculation F
  calculate_seconds positions profile second =
      let s = second % 86400 in
      let start = profile.day_start_minute * 60 in
      let end = profile.day_end_minute * 60 in
      if ltb s start || leb end s
      then calculate_night profile
      else calculate_day positions profile s start end

  -- calculate(profile, minuteOfDay).
  unfoldable pub calculate : List F → Profile F → ℕ → DayCalculation F
  unfolding calculate_seconds
  calculate positions profile minute = calculate_seconds positions profile (minute % 1440 * 60)
