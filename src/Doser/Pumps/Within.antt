-- ===== src/Doser/Pumps/Within.antt =====
-- The limits of the settings of aquaOneDoser/src/PumpConfig.h.
use Prim.Native.Nat.{bit_and}
use aqua_one.Base.{
  ℕ, ◌<◌, ◌≡◌, Bool, true, false, not, ◌&&◌, ◌||◌, ltb, leb, ◌==◌, List, length, length-set, set,
  Bool-cases, inl, inr, arith, sym, ◌∙◌, ltb→lt, subst, get_or-set_self, get_or-set_ne, ==_eq,
  ==_ne,
}
use aqua_one.Doser.Driver.{pump_count}
use aqua_one.Doser.Pumps.{Doses, PumpConfig, get_pump, invalid_pump, valid_non_negative}

-- A finite amount from 0 to a limit.
pub record IsAmount {F : Type 0} (k : Doses F) (limit v : F) : Type 0 where
  pub finite : k.is_finite v ≡ true
  pub positive : k.le k.zero_f v ≡ true
  pub bounded : k.lt limit v ≡ false

-- What the scheduler may rely on in a pump's settings.
pub record IsWithin {F : Type 0} (k : Doses F) (p : PumpConfig F) : Type 0 where
  pub dose_fits : IsAmount k k.max_single_dose p.dose
  pub remaining_fits : IsAmount k k.max_remaining p.remaining
  pub calibration_fits : (k.is_finite p.calibration ≡ true) × (k.le k.zero_f p.calibration ≡ true)
  pub hour_fits : ltb 23 p.hour ≡ false
  pub minute_fits : ltb 59 p.minute ≡ false
  pub days_fit : (bit_and p.days_mask 0x80 == 0) ≡ true
  pub name_fits : leb 32 (length p.name) ≡ false

pub granted : (a : Bool) → not a ≡ false → a ≡ true
granted a h = ground arith

pub nor_2 : (a v : Bool) → (not a || not v) ≡ false → (a ≡ true) × (v ≡ true)
nor_2 a v h = ground arith

pub nor_3 : (a v c : Bool) → (not a || not v || c) ≡ false → (a ≡ true) × (v ≡ true) × (c ≡ false)
nor_3 a v c h = ground arith

pub name_is_short : (a b c : Bool) → (not a || b || c) ≡ false → (a ≡ true) × (c ≡ false)
name_is_short a b c h = ground arith

pub time_fits :
    (a b c d : Bool)
    → (not a || b || c || not d) ≡ false
    → (a ≡ true) × (b ≡ false) × (c ≡ false) × (d ≡ true)
time_fits a b c d h = ground arith

and_2 : (a b : Bool) → (a && b) ≡ true → (a ≡ true) × (b ≡ true)
and_2 a b h = ground arith

module _ {F : Type 0} (k : Doses F) where
  -- The settings of all the pumps.
  pub record AreWithin (pumps : List (PumpConfig F)) : Type 0 where
    pub eight : length pumps ≡ pump_count
    pub each : (i : ℕ) → i < pump_count → IsWithin k (get_pump k pumps i)

  pub set-AreWithin :
      (pumps : List (PumpConfig F)) (index : ℕ) (p : PumpConfig F)
      → ltb index pump_count ≡ true
      → IsWithin k p
      → AreWithin pumps
      → AreWithin (set pumps index p)
  set-AreWithin pumps index p r x a = record {
    eight = length-set pumps index p ∙ a.eight;
    each = λ i l. elim (Bool-cases (i == index)) [
      | inl e ↦
          let same = ==_eq i index e in
          subst (λ j. IsWithin k (get_pump k (set pumps index p) j)) same
            (subst (IsWithin k)
              (sym (
                get_or-set_self pumps index p (invalid_pump k)
                  (subst (λ n. index < n) (sym a.eight) (ltb→lt index pump_count r))))
              x)
      | inr n ↦
          subst (IsWithin k)
            (sym (get_or-set_ne pumps index i p (invalid_pump k) (==_ne i index n))) (a.each i l)
    ];
  }

  pub nat_valid :
      (v : F) → valid_non_negative k v ≡ true → (k.is_finite v ≡ true) × (k.le k.zero_f v ≡ true)
  unfolding valid_non_negative
  nat_valid v h = and_2 _ _ h
