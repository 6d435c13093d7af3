-- ===== src/Base/Milli.antt =====
-- A type of floats to run the model with: whole thousandths, with `none` for NaN. It shows that what
-- the theorems assume of `float` can hold.
use Prim.Native.Nat.{ℕ, ◌*◌, ◌/◌, ◌^◌}
use mathlib.Core.Bool.{Bool, false}
use mathlib.Core.Option.{Option, none, some}
use native.Mathlib.Omega.{arith}
use carma_box_v.Base.Int.{ℤ, pos, ◌+ℤ◌, ◌-ℤ◌, ◌*ℤ◌, quot, ltb_ℤ, leb_ℤ}
use carma_box_v.Base.Floats.{Float, IsOrdered}

abbrev pub Milli : Type 0
Milli = Option ℤ

abbrev pub on_numbers : (ℤ → ℤ → Bool) → Milli → Milli → Bool
on_numbers t (some a) (some b) = t a b
on_numbers t _ _ = false

abbrev pub lift : (ℤ → ℤ → ℤ) → Milli → Milli → Milli
lift t (some a) (some b) = some (t a b)
lift t _ _ = none

abbrev pub to_int : Milli → ℤ
to_int (some a) = quot a (pos 1000)
to_int none = pos 0

abbrev pub minus : Milli → Milli
minus (some a) = some (pos 0 -ℤ a)
minus none = none

instance abbrev pub milli_float : Float Milli
milli_float = record {
  lt = on_numbers ltb_ℤ;
  le = on_numbers leb_ℤ;
  add = lift ◌+ℤ◌;
  sub = lift ◌-ℤ◌;
  mul = lift (λ a b. quot (a *ℤ b) (pos 1000));
  div = lift (λ a b. quot (a *ℤ pos 1000) b);
  neg = minus;
  of_int = λ a. some (a *ℤ pos 1000);
  lit = λ m e. some (pos (m * 1000 / 10 ^ e));
  trunc = to_int;
}

pub Milli-IsOrdered : IsOrdered milli_float
Milli-IsOrdered = ground arith

-- n watts, degrees or per cent.
abbrev pub num : ℕ → Milli
num n = some (pos (n * 1000))

abbrev pub minus_num : ℕ → Milli
minus_num n = minus (num n)
