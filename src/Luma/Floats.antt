-- ===== src/Luma/Floats.antt =====
-- The `float` of aquaOneLuma: a type with its operations, which the compiler and the processor provide. `lt`
-- and `le` are `<` and `<=`, `of_word` is static_cast<float> of a uint32_t and `to_word` the cast back.
use aqua_one.Base.{ℕ, ◌≡◌, Bool, true, false, if◌then◌else◌}

pub record Floats (F : Type 0) : Type 0 where
  pub lt : F → F → Bool
  pub le : F → F → Bool
  pub is_finite : F → Bool
  pub add : F → F → F
  pub sub : F → F → F
  pub mul : F → F → F
  pub div : F → F → F
  pub pow : F → F → F
  pub of_word : ℕ → F
  pub to_word : F → ℕ
  pub zero_f : F
  pub one_f : F
  pub two_f : F
  pub three_f : F
  pub hundred_f : F

-- What holds of all the floats of IEEE 754, NaN and the infinities included: `<` is asymmetric, of two finite
-- floats the one that is not greater is less or equal, and what is less than something that is at most a
-- third is at most the third.
pub record IsOrdered {F : Type 0} (f : Floats F) : Type 0 where
  pub asym : (a b : F) → f.lt a b ≡ true → f.lt b a ≡ false
  pub at_most :
      (a b : F) → f.is_finite a ≡ true → f.is_finite b ≡ true → f.lt a b ≡ false → f.le b a ≡ true
  pub below : (a b c : F) → f.lt a b ≡ true → f.le b c ≡ true → f.le a c ≡ true
  pub zero_hundred : f.le f.zero_f f.hundred_f ≡ true
  pub zero_finite : f.is_finite f.zero_f ≡ true
  pub hundred_finite : f.is_finite f.hundred_f ≡ true

module _ {F : Type 0} (f : Floats F) where
  -- std::clamp and std::min.
  abbrev pub clamp : F → F → F → F
  clamp v lo hi = if f.lt v lo then lo else if f.lt hi v then hi else v

  abbrev pub min : F → F → F
  min a b = if f.lt b a then b else a
