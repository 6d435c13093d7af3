-- ===== src/ZeroGrid/Example.antt =====
-- Whole thousandths have the signs that the theorems assume of floats.
use carma_box_v.Base.{refl, arith}
use carma_box_v.Base.Int.{◌+ℤ◌, ◌-ℤ◌, ◌*ℤ◌, quot}
use carma_box_v.Base.Milli.{milli_float}
use carma_box_v.ZeroGrid.Safety.{IsSigned}

pub Milli-IsSigned : IsSigned milli_float
unfolding ◌-ℤ◌ ◌*ℤ◌ ◌+ℤ◌ quot
Milli-IsSigned = record {
  dead_band_pos = refl;
  neg_dead_band = refl;
  of_int_pos = λ a h. ground arith;
  neg_of_int_pos = λ a h. ground arith;
  neg_le = λ x y h. ground arith;
  trunc_le = λ x a h. ground arith;
}
