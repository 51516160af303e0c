-- ===== src/Doser/Pumps/Limits.antt =====
-- The settings that aquaOneDoser/src/PumpManager.cpp accepts stay within their limits.
use Prim.Native.Nat.{bit_and}
use aqua_one.Base.{
  ℕ, Bool, not, ◌||◌, ltb, leb, ◌==◌, List, length, set, ◌<◌, ◌≡◌, ◌⊎◌, true, false, arith,
  Bool-cases, inl, inr, ltb→lt,
}
use aqua_one.Doser.Driver.{pump_count}
use aqua_one.Doser.Pumps.{
  Doses, PumpConfig, get_pump, valid_non_negative, set_enabled, set_name, set_calibration, set_dose,
  set_schedule, set_remaining,
}
use aqua_one.Doser.Pumps.Within.{
  AreWithin, IsAmount, granted, name_is_short, nat_valid, nor_2, nor_3, set-AreWithin, time_fits,
}

-- The calls that change a pump's settings.
pub data Change (F : Type 0) : Type 0 where
  enables : Bool → Change F
  names : List ℕ → Change F
  calibrates doses : F → Change F
  schedules : ℕ → ℕ → ℕ → Change F
  refills : F → ℕ → Change F

module _ {F : Type 0} (k : Doses F) where
  -- A call for the pump of an index, and whether it is accepted.
  unfoldable pub change : List (PumpConfig F) → ℕ → Change F → List (PumpConfig F) × Bool
  change pumps index (enables b) = set_enabled k pumps index b
  change pumps index (names n) = set_name k pumps index n
  change pumps index (calibrates v) = set_calibration k pumps index v
  change pumps index (doses v) = set_dose k pumps index v
  change pumps index (schedules h m d) = set_schedule k pumps index h m d
  change pumps index (refills v t) = set_remaining k pumps index v t

  set_dose-AreWithin :
      (pumps : List (PumpConfig F)) (index : ℕ) (v : F)
      → AreWithin k pumps
      → AreWithin k (set_dose k pumps index v).0
  unfolding set_dose
  set_dose-AreWithin pumps index v a =
      elim (Bool-cases
        (not (ltb index pump_count) || not (valid_non_negative k v) || k.lt k.max_single_dose v)) [
          | inl refused ↦ rw refused a
          | inr fine ↦
              let (r, valid, limit) = nor_3 _ _ _ fine in
              let x = a.each index (ltb→lt index pump_count r) in
              rw fine (
                set-AreWithin k pumps index _ r
                  (record {
                    dose_fits = record {
                      finite = (nat_valid k v valid).0;
                      positive = (nat_valid k v valid).1;
                      bounded = limit;
                    };
                    remaining_fits = x.remaining_fits;
                    calibration_fits = x.calibration_fits;
                    hour_fits = x.hour_fits;
                    minute_fits = x.minute_fits;
                    days_fit = x.days_fit;
                    name_fits = x.name_fits;
                  })
                  a)
        ]

  set_remaining-AreWithin :
      (pumps : List (PumpConfig F)) (index : ℕ) (v : F) (t : ℕ)
      → AreWithin k pumps
      → AreWithin k (set_remaining k pumps index v t).0
  unfolding set_remaining
  set_remaining-AreWithin pumps index v t a =
      elim (Bool-cases
        (not (ltb index pump_count) || not (valid_non_negative k v) || k.lt k.max_remaining v)) [
          | inl refused ↦ rw refused a
          | inr fine ↦
              let (r, valid, limit) = nor_3 _ _ _ fine in
              let x = a.each index (ltb→lt index pump_count r) in
              rw fine (
                set-AreWithin k pumps index _ r
                  (record {
                    dose_fits = x.dose_fits;
                    remaining_fits = record {
                      finite = (nat_valid k v valid).0;
                      positive = (nat_valid k v valid).1;
                      bounded = limit;
                    };
                    calibration_fits = x.calibration_fits;
                    hour_fits = x.hour_fits;
                    minute_fits = x.minute_fits;
                    days_fit = x.days_fit;
                    name_fits = x.name_fits;
                  })
                  a)
        ]

  set_calibration-AreWithin :
      (pumps : List (PumpConfig F)) (index : ℕ) (v : F)
      → AreWithin k pumps
      → AreWithin k (set_calibration k pumps index v).0
  unfolding set_calibration
  set_calibration-AreWithin pumps index v a =
      elim (Bool-cases (not (ltb index pump_count) || not (valid_non_negative k v))) [
        | inl refused ↦ rw refused a
        | inr fine ↦
            let (r, valid) = nor_2 _ _ fine in
            let x = a.each index (ltb→lt index pump_count r) in
            rw fine (
              set-AreWithin k pumps index _ r
                (record {
                  dose_fits = x.dose_fits;
                  remaining_fits = x.remaining_fits;
                  calibration_fits = nat_valid k v valid;
                  hour_fits = x.hour_fits;
                  minute_fits = x.minute_fits;
                  days_fit = x.days_fit;
                  name_fits = x.name_fits;
                })
                a)
      ]

  set_schedule-AreWithin :
      (pumps : List (PumpConfig F)) (index : ℕ) (h : ℕ) (m : ℕ) (d : ℕ)
      → AreWithin k pumps
      → AreWithin k (set_schedule k pumps index h m d).0
  unfolding set_schedule
  set_schedule-AreWithin pumps index h m d a =
      elim (Bool-cases
        (not (ltb index pump_count) || ltb 23 h || ltb 59 m || not (bit_and d 0x80 == 0))) [
          | inl refused ↦ rw refused a
          | inr fine ↦
              let (r, hour, minute, days) = time_fits _ _ _ _ fine in
              let x = a.each index (ltb→lt index pump_count r) in
              rw fine (
                set-AreWithin k pumps index _ r
                  (record {
                    dose_fits = x.dose_fits;
                    remaining_fits = x.remaining_fits;
                    calibration_fits = x.calibration_fits;
                    hour_fits = hour;
                    minute_fits = minute;
                    days_fit = days;
                    name_fits = x.name_fits;
                  })
                  a)
        ]

  set_name-AreWithin :
      (pumps : List (PumpConfig F)) (index : ℕ) (n : List ℕ)
      → AreWithin k pumps
      → AreWithin k (set_name k pumps index n).0
  unfolding set_name
  set_name-AreWithin pumps index n a =
      elim (Bool-cases (not (ltb index pump_count) || length n == 0 || leb 32 (length n))) [
        | inl refused ↦ rw refused a
        | inr fine ↦
            let (r, short) = name_is_short _ _ _ fine in
            let x = a.each index (ltb→lt index pump_count r) in
            rw fine (
              set-AreWithin k pumps index _ r
                (record {
                  dose_fits = x.dose_fits;
                  remaining_fits = x.remaining_fits;
                  calibration_fits = x.calibration_fits;
                  hour_fits = x.hour_fits;
                  minute_fits = x.minute_fits;
                  days_fit = x.days_fit;
                  name_fits = short;
                })
                a)
      ]

  set_enabled-AreWithin :
      (pumps : List (PumpConfig F)) (index : ℕ) (b : Bool)
      → AreWithin k pumps
      → AreWithin k (set_enabled k pumps index b).0
  unfolding set_enabled
  set_enabled-AreWithin pumps index b a = elim (Bool-cases (not (ltb index pump_count))) [
    | inl refused ↦ rw refused a
    | inr fine ↦
        let r = granted _ fine in
        let x = a.each index (ltb→lt index pump_count r) in
        rw fine (
          set-AreWithin k pumps index _ r
            (record {
              dose_fits = x.dose_fits;
              remaining_fits = x.remaining_fits;
              calibration_fits = x.calibration_fits;
              hour_fits = x.hour_fits;
              minute_fits = x.minute_fits;
              days_fit = x.days_fit;
              name_fits = x.name_fits;
            })
            a)
  ]

  within-change :
      (pumps : List (PumpConfig F)) (index : ℕ) (call : Change F)
      → AreWithin k pumps
      → AreWithin k (change pumps index call).0
  unfolding change
  within-change pumps index (enables b) a = set_enabled-AreWithin pumps index b a
  within-change pumps index (names n) a = set_name-AreWithin pumps index n a
  within-change pumps index (calibrates v) a = set_calibration-AreWithin pumps index v a
  within-change pumps index (doses v) a = set_dose-AreWithin pumps index v a
  within-change pumps index (schedules h m d) a = set_schedule-AreWithin pumps index h m d a
  within-change pumps index (refills v t) a = set_remaining-AreWithin pumps index v t a

  -- A value that a setter may be given, and the settings with it.
  abbrev pub Fits : Change F → Type 0
  Fits (enables b) = Unit
  Fits (names n) = (0 < length n) × (length n < 32)
  Fits (calibrates v) = (k.is_finite v ≡ true) × (k.le k.zero_f v ≡ true)
  Fits (doses v) = IsAmount k k.max_single_dose v
  Fits (schedules h m d) = (h < 24) × (m < 60) × (bit_and d 0x80 ≡ 0)
  Fits (refills v t) = IsAmount k k.max_remaining v

  abbrev pub applied : Change F → PumpConfig F → PumpConfig F
  applied (enables b) p = record p { enabled = b }
  applied (names n) p = record p { name = n }
  applied (calibrates v) p = record p { calibration = v }
  applied (doses v) p = record p { dose = v }
  applied (schedules h m d) p = record p { hour = h; minute = m; days_mask = d }
  applied (refills v t) p = record p { remaining = v; reservoir_set_timestamp = t }

  -- A call is accepted and takes effect, or is refused and leaves everything as it is.
  abbrev pub Taken : List (PumpConfig F) → ℕ → Change F → List (PumpConfig F) × Bool → Type 0
  Taken pumps index call x =
      (index < pump_count)
        × Fits call
        × (x ≡ (set pumps index (applied call (get_pump k pumps index)), true))
      ⊎ (¬ ((index < pump_count) × Fits call)) × (x ≡ (pumps, false))

  change-Taken :
      (pumps : List (PumpConfig F)) (index : ℕ) (call : Change F)
      → Taken pumps index call (change pumps index call)
  unfolding change set_enabled set_name set_calibration set_dose set_schedule set_remaining
      valid_non_negative
  change-Taken pumps index (enables b) = ground arith
  change-Taken pumps index (names n) = ground arith
  change-Taken pumps index (calibrates v) = ground arith
  change-Taken pumps index (doses v) = ground arith
  change-Taken pumps index (schedules h m d) = ground arith
  change-Taken pumps index (refills v t) = ground arith

  -- Every setter, whatever it is given, leaves the settings of all eight pumps within their limits. It answers
  -- true just when the index is that of a pump and the value is one that the setting may have, and then has
  -- changed that setting of that pump; else it answers false and leaves the settings as they are.
  pub change-AreWithin :
      (pumps : List (PumpConfig F)) (index : ℕ) (call : Change F)
      → AreWithin k pumps
      → AreWithin k (change pumps index call).0 × Taken pumps index call (change pumps index call)
  change-AreWithin pumps index call a =
      (within-change pumps index call a, change-Taken pumps index call)
