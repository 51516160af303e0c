-- ===== src/Luma/Day/Segments.antt =====
-- The stages between which aquaOneLuma/src/profiles/DayEngine.cpp interpolates.
use aqua_one.Base.{
  ℕ, suc, ◌+◌, ◌-◌, ◌*◌, ◌%◌, ◌≤◌, ◌<◌, ◌≡◌, refl, ap, ◌∙◌, subst, false, ◌&&◌, ◌||◌, ltb, leb,
  List, [], ◌∷◌, ◌++◌, get_or, Option, some, add32, Bool-cases, inl, inr, arith,
}
use aqua_one.Luma.Floats.{Floats}
use aqua_one.Luma.Day.{
  Profile, day, search, stage_or_first, stage_seconds, calculate_day, calculate_seconds,
}

-- A stage, counted from `i`, of which the second `s` is past the start and before the next one's.
pub record IsSegment (s i : ℕ) (at : List ℕ) (found : Option ℕ) : Type 0 where
  pub index : ℕ
  pub is_found : found ≡ some (i + index)
  pub begun : get_or at index 0 ≤ s
  pub before : s < get_or at (suc index) 0

-- From a first stage that has begun and a last one that has not, the search finds a segment.
search_finds :
    (s i a z : ℕ) (mid : List ℕ)
    → a ≤ s
    → s < z
    → IsSegment s i (a ∷ (mid ++ z ∷ [])) (search s i (a ∷ (mid ++ z ∷ [])))
unfolding search
search_finds s i a z [] h k = record { index = 0; is_found = ground arith; begun = h; before = k }
search_finds s i a z (b ∷ mid) h k = elim (Bool-cases (leb a s && ltb s b)) [
  | inl e ↦ rw e (record { index = 0; is_found = ground arith; begun = h; before = ground arith })
  | inr e ↦ rw e (
      let r = search_finds s (i + 1) b z mid (ground arith) k in
      record {
        index = suc r.index;
        is_found = r.is_found ∙ ap some (omega arith);
        begun = r.begun;
        before = r.before;
      })
]

suc-eq : (n : ℕ) → suc n ≡ n + 1
suc-eq n = omega arith

segment_found :
    (s : ℕ) (at : List ℕ)
    → IsSegment s 0 at (search s 0 at)
    → (get_or at (stage_or_first (search s 0 at)) 0 ≤ s)
      × (s < get_or at (stage_or_first (search s 0 at) + 1) 0)
segment_found s at r =
    let e : search s 0 at ≡ some r.index = r.is_found ∙ ap some (omega arith) in
    rw e (r.begun, subst (λ n. s < get_or at n 0) (suc-eq r.index) r.before)

module _ {F : Type 0} (f : Floats F) where
  -- The second at which a stage begins.
  abbrev pub at_second : ℕ → ℕ → F → ℕ
  at_second start period q = add32 start (f.to_word (f.mul (f.of_word period) q))

  stage_seconds-append :
      (last : F) (qs : List F) (start period : ℕ)
      → stage_seconds f (qs ++ last ∷ []) start period
        ≡ stage_seconds f qs start period ++ at_second start period last ∷ []
  unfolding stage_seconds
  stage_seconds-append last [] start period = refl
  stage_seconds-append last (q ∷ qs) start period = rw (stage_seconds-append last qs start period)

  stages-IsSegment :
      (first last : F) (mid : List F) (s start period : ℕ)
      → at_second start period first ≤ s
      → s < at_second start period last
      → let at = stage_seconds f (first ∷ (mid ++ last ∷ [])) start period in
        IsSegment s 0 at (search s 0 at)
  unfolding stage_seconds
  stages-IsSegment first last mid s start period h k =
      rw (stage_seconds-append last mid start period) (
        search_finds s 0 (at_second start period first) (at_second start period last)
          (stage_seconds f mid start period) h k)

  in_day : (s start end : ℕ) → start ≤ s → s < end → (ltb s start || leb end s) ≡ false
  in_day s start end h k = ground arith

  -- In the day, if the first stage is at its start and the last one at its end: whatever the places of the
  -- stages between them are, the current stage has begun at this second of the day and the next stage, which
  -- is the one behind it, has not. So no second of the day falls back on the first two stages.
  pub calculate_seconds-current :
      (first last : F) (mid : List F) (profile : Profile F) (second : ℕ)
      → let start = profile.day_start_minute * 60 in
        let end = profile.day_end_minute * 60 in
        let positions = first ∷ (mid ++ last ∷ []) in
        let r = calculate_seconds f positions profile second in
        let at = stage_seconds f positions start (end - start) in
        profile.day_end_minute < 65536
        → start ≤ second % 86400
        → second % 86400 < end
        → f.to_word (f.mul (f.of_word (end - start)) first) ≡ 0
        → f.to_word (f.mul (f.of_word (end - start)) last) ≡ end - start
        → (r.day_state ≡ day)
          × (r.next_stage ≡ r.current_stage + 1)
          × (get_or at r.current_stage 0 ≤ second % 86400)
          × (second % 86400 < get_or at r.next_stage 0)
  unfolding calculate_seconds calculate_day
  calculate_seconds-current first last mid profile second m h k x y =
      let start = profile.day_start_minute * 60 in
      let end = profile.day_end_minute * 60 in
      let s = second % 86400 in
      let at = stage_seconds f (first ∷ (mid ++ last ∷ [])) start (end - start) in
      let found = segment_found s at (
        stages-IsSegment first last mid s start (end - start) (rw x (omega arith))
          (rw y (omega arith))) in
      rw (in_day s start end h k) (refl, refl, found.0, found.1)
