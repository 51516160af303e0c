-- ===== src/Base/Words.antt =====
-- Unsigned machine words: the 32-bit counters that `millis()` and the record generations are.
use Prim.Native.Nat.{ℕ, ◌+◌, ◌-◌, ◌%◌, ◌<◌}
use mathlib.Core.Path.{◌≡◌}
use native.Mathlib.Omega.{arith}

abbrev pub word : ℕ
word = 4294967296

-- a - b on uint32_t, which wraps: the time that has passed since b when the counter reads a.
abbrev pub elapsed : ℕ → ℕ → ℕ
elapsed a b = (a + word - b) % word

abbrev pub add32 : ℕ → ℕ → ℕ
add32 a b = (a + b) % word

-- The difference is the true distance, also across a wrap of the counter.
pub elapsed-add32 : (a d : ℕ) → a < word → d < word → elapsed (add32 a d) a ≡ d
elapsed-add32 a d ha hd = omega arith
