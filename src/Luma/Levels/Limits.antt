-- ===== src/Luma/Levels/Limits.antt =====
-- The limits on the levels that reach the outputs, aquaOneLuma/src/core/LightEngine.cpp.
use aqua_one.Base.{
  ◌≡◌, ◌⊎◌, inl, inr, refl, Bool, true, false, not, ◌||◌, if◌then◌else◌, List, [], ◌∷◌, Bool-cases,
  arith,
}
use aqua_one.Luma.Floats.{Floats, IsOrdered, clamp, min}
use aqua_one.Luma.Levels.{
  ChannelConfig, clamp_percent, is_finite_percent, is_malformed, calibrate, process_channel,
  process,
}

module _ {F : Type 0} (f : Floats F) (o : IsOrdered f) where
  open f use {lt, le, is_finite, zero_f, hundred_f}

  -- A level from 0 to 100 that is 0 or at most a bound. No NaN is one, since it is not at least 0.
  pub record IsWithin (bound v : F) : Type 0 where
    pub not_below : le zero_f v ≡ true
    pub not_above : le v hundred_f ≡ true
    pub bounded : (v ≡ zero_f) ⊎ (le v bound ≡ true)

  irrefl : (a : F) → lt a a ≡ false
  irrefl a = elim (Bool-cases (lt a a)) [ inl e ↦ o.asym a a e | inr e ↦ e ]

  le_self : (a : F) → is_finite a ≡ true → le a a ≡ true
  le_self a h = o.at_most a a h h (irrefl a)

  zero-IsWithin : (bound : F) → IsWithin bound zero_f
  zero-IsWithin bound = record {
    not_below = le_self zero_f o.zero_finite;
    not_above = o.zero_hundred;
    bounded = inl refl;
  }

  clamp-IsWithin :
      (bound v : F)
      → is_finite v ≡ true
      → le v bound ≡ true
      → IsWithin bound (clamp f v zero_f hundred_f)
  clamp-IsWithin bound v i h = elim (Bool-cases (lt v zero_f)) [
    | inl e ↦ rw e (zero-IsWithin bound)
    | inr e ↦ elim (Bool-cases (lt hundred_f v)) [
      | inl k ↦
          rw (e, k)
            (record {
              not_below = o.zero_hundred;
              not_above = le_self hundred_f o.hundred_finite;
              bounded = inr (o.below hundred_f v bound k h);
            })
      | inr k ↦
          rw (e, k)
            (record {
              not_below = o.at_most v zero_f i o.zero_finite e;
              not_above = o.at_most hundred_f v o.hundred_finite i k;
              bounded = inr h;
            })
    ]
  ]

  min_bound : (a b : F) → is_finite a ≡ true → is_finite b ≡ true → le (min f a b) b ≡ true
  min_bound a b i j = elim (Bool-cases (lt b a)) [
    | inl e ↦ rw e (le_self b j)
    | inr e ↦ rw e (o.at_most b a j i e)
  ]

  clamp_percent-IsWithin : (bound v : F) → le v bound ≡ true → IsWithin bound (clamp_percent f v)
  unfolding clamp_percent
  clamp_percent-IsWithin bound v h = elim (Bool-cases (is_finite v)) [
    | inl e ↦ rw e (clamp-IsWithin bound v e h)
    | inr e ↦ rw e (zero-IsWithin bound)
  ]

  guard-IsWithin :
      (bound v : F) (test : Bool)
      → (test ≡ false → IsWithin bound v)
      → IsWithin bound (if test then zero_f else v)
  guard-IsWithin bound v true h = zero-IsWithin bound
  guard-IsWithin bound v false h = h refl

  finite_again : (b : Bool) → not b ≡ false → b ≡ true
  finite_again b h = ground arith

  calibrate-IsWithin :
      (c : ChannelConfig F) (v : F)
      → is_finite c.hard_max ≡ true
      → IsWithin c.hard_max (calibrate f c v)
  unfolding calibrate
  calibrate-IsWithin c v j =
      let x = f.pow (f.div v hundred_f) c.gamma in
      let y = f.add c.calibration_min (f.mul x (f.sub c.calibration_max c.calibration_min)) in
      guard-IsWithin c.hard_max _ (not (is_finite x)) (λ _.
        guard-IsWithin c.hard_max _ (not (is_finite y)) (λ i.
          clamp_percent-IsWithin c.hard_max (min f y c.hard_max)
            (min_bound y c.hard_max (finite_again (is_finite y) i) j)))

  -- The limit of a channel that is not malformed is finite.
  hard_max_finite :
      (requested : F) (c : ChannelConfig F) (limit : F)
      → is_malformed f requested c limit ≡ false
      → is_finite c.hard_max ≡ true
  unfolding is_malformed is_finite_percent
  hard_max_finite requested c limit h = ground arith

  process_channel-IsWithin :
      (requested : F) (c : ChannelConfig F) (limit : F)
      → IsWithin c.hard_max (process_channel f requested c limit)
  unfolding process_channel
  process_channel-IsWithin requested c limit =
      let b = c.hard_max in
      let value = clamp_percent f requested in
      let scaled = f.mul value (f.div limit hundred_f) in
      guard-IsWithin b _ (not c.enabled) (λ _.
        guard-IsWithin b _ (is_malformed f requested c limit) (λ sane.
          guard-IsWithin b _ (le value zero_f) (λ _.
            guard-IsWithin b (calibrate f c scaled) (not (is_finite scaled) || le scaled zero_f)
              (λ _. calibrate-IsWithin c scaled (hard_max_finite requested c limit sane)))))

  -- Each channel of a list of levels, within the limit of its configuration.
  abbrev pub AreWithin : List (ChannelConfig F) → List F → Type 0
  AreWithin cs [] = Unit
  AreWithin [] (v ∷ vs) = Unit
  AreWithin (c ∷ cs) (v ∷ vs) = IsWithin c.hard_max v × AreWithin cs vs

  -- Whatever is requested and configured, NaN and infinity included, every level that reaches an output is
  -- from 0 to 100 percent, so that it is no NaN, and is 0 or at most the hard limit of its channel.
  pub process-AreWithin :
      (requested : List F) (cs : List (ChannelConfig F)) (limit : F)
      → AreWithin cs (process f requested cs limit)
  unfolding process
  process-AreWithin [] cs limit = tt
  process-AreWithin (r ∷ rs) [] limit = tt
  process-AreWithin (r ∷ rs) (c ∷ cs) limit =
      (process_channel-IsWithin r c limit, process-AreWithin rs cs limit)
