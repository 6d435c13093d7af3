-- ===== src/Base/Floats.antt =====
-- Python's `float`, by the operations that the program uses. The type is a parameter of the model:
-- nothing is assumed of rounding, and a test with NaN may answer false both ways round.
use mathlib.Core.Path.{◌≡◌}
use mathlib.Core.Logic.{◌⊎◌}
use mathlib.Core.Bool.{Bool, true, false, ◌&&◌}
use mathlib.Core.List.{List, [], ◌∷◌}
use Prim.Native.Nat.{ℕ}
use carma_box_v.Base.Int.{ℤ}
use carma_box_v.Base.Tests.{if◌then◌else◌}

pub record Float (F : Type 0) : Type 0 where
  pub lt : F → F → Bool
  pub le : F → F → Bool
  pub add : F → F → F
  pub sub : F → F → F
  pub mul : F → F → F
  pub div : F → F → F
  pub neg : F → F
  -- the conversion of an `int`
  pub of_int : ℤ → F
  -- `lit m e` is the literal m / 10 ^ e: 0.5 is `lit 5 1`
  pub lit : ℕ → ℕ → F
  -- `int(x)`, toward zero
  pub trunc : F → ℤ

module _ {F : Type 0} ⦃f : Float F⦄ where
  -- `x > y` and `x >= y` are the reflected tests, also at NaN.
  abbrev pub gt : F → F → Bool
  gt x y = f.lt y x

  abbrev pub ge : F → F → Bool
  ge x y = f.le y x

  -- `max(x, y)` and `min(x, y)`: the first argument unless the second one beats it.
  abbrev pub fmax : F → F → F
  fmax x y = if f.lt x y then y else x

  abbrev pub fmin : F → F → F
  fmin x y = if f.lt y x then y else x

  abbrev pub abs : F → F
  abs x = if f.lt x (f.lit 0 0) then f.neg x else x

  -- `x == 0.0`
  abbrev pub is_zero : F → Bool
  is_zero x = f.le x (f.lit 0 0) && f.le (f.lit 0 0) x

  abbrev pub sum_onto : F → List F → F
  sum_onto s [] = s
  sum_onto s (x ∷ xs) = sum_onto (f.add s x) xs

  -- `sum(xs)`, from the first to the last.
  abbrev pub sum : List F → F
  sum xs = sum_onto (f.lit 0 0) xs

-- What the theorems that need it assume of the order: it is that of the IEEE comparisons, where NaN
-- is the value that is not `<=` itself.
pub record IsOrdered {F : Type 0} (f : Float F) : Type 0 where
  pub le_trans : (x y z : F) → f.le x y ≡ true → f.le y z ≡ true → f.le x z ≡ true
  pub le_refl : (x y : F) → f.le x y ≡ true → (f.le x x ≡ true) × (f.le y y ≡ true)
  pub lt_le : (x y : F) → f.lt x y ≡ true → f.le x y ≡ true
  pub lt_le_trans : (x y z : F) → f.lt x y ≡ true → f.le y z ≡ true → f.lt x z ≡ true
  pub le_lt_trans : (x y z : F) → f.le x y ≡ true → f.lt y z ≡ true → f.lt x z ≡ true
  pub lt_not_le : (x y : F) → f.lt x y ≡ true → f.le y x ≡ false
  pub le_or_lt :
      (x y : F) → f.le x x ≡ true → f.le y y ≡ true → (f.le x y ≡ true) ⊎ (f.lt y x ≡ true)
