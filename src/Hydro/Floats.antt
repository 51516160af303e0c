-- ===== src/Hydro/Floats.antt =====
-- The `float` of the C++ sources: a type with its operations, which the compiler and the processor
-- provide. `lt` and `le` are `<` and `<=`; `of_micros` is static_cast<float> of a uint32_t, and `sound`
-- the constant 0.0343f.
pub mod Whole
use aqua_one.Base.{ℕ, Bool, true, false, ◌≡◌}

pub record Floats (F : Type 0) : Type 0 where
  pub lt : F → F → Bool
  pub le : F → F → Bool
  pub add : F → F → F
  pub sub : F → F → F
  pub mul : F → F → F
  pub div : F → F → F
  pub of_micros : ℕ → F
  pub zero_f : F
  pub two_f : F
  pub hundred_f : F
  pub sound : F

-- `<` on the floats that are no NaN: what is not less is at least as great, transitively, and `<` is
-- irreflexive up to that.
pub record IsOrdered {F : Type 0} (lt : F → F → Bool) : Type 0 where
  pub asym : (a b : F) → lt a b ≡ true → lt b a ≡ false
  pub cotrans : (a b c : F) → lt b a ≡ false → lt c b ≡ false → lt c a ≡ false
