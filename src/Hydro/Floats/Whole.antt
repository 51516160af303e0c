-- ===== src/Hydro/Floats/Whole.antt =====
-- Whole numbers in the place of the floats, for runs of the code.
use aqua_one.Base.{ℕ, ◌+◌, ◌-◌, ◌*◌, ◌/◌, ltb, leb, arith}
use aqua_one.Hydro.Floats.{Floats, IsOrdered}

abbrev pub whole : Floats ℕ
whole = record {
  lt = ltb;
  le = leb;
  add = ◌+◌;
  sub = ◌-◌;
  mul = ◌*◌;
  div = ◌/◌;
  of_micros = λ n. n;
  zero_f = 0;
  two_f = 2;
  hundred_f = 100;
  sound = 1;
}

pub ltb-IsOrdered : IsOrdered ltb
ltb-IsOrdered = record { asym = λ a b h. ground arith; cotrans = λ a b c h k. ground arith }
