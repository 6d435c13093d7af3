-- ===== src/ZeroGrid/Gain.antt =====
-- core/zero_grid.py: the history of the SoC, the gain that it damps, and the target of the batteries.
use carma_box_v.Base.{
  is_empty, ℕ, Bool, ◌||◌, List, [], ◌∷◌, ◌++◌, Option, none, some, length, map, last, ltb, all,
  if◌then◌else◌,
}
use carma_box_v.Base.Int.{pos}
use carma_box_v.Base.Floats.{Float, gt, sum, abs}
use carma_box_v.ZeroGrid.Types.{BatSnapshot}

abbrev momentum_window : ℕ
momentum_window = 3

module _ {F : Type 0} ⦃f : Float F⦄ where
  open f use {lt, add, sub, mul, div, neg, lit, of_int}

  abbrev pub zero_w : F
  zero_w = lit 0 0

  abbrev pub dead_band_w : F
  dead_band_w = lit 50 0

  abbrev pub correction_gain : F
  correction_gain = lit 7 1

  abbrev momentum_damping_factor : F
  momentum_damping_factor = lit 5 1

  abbrev or_empty : Option (List F) → List F
  or_empty none = []
  or_empty (some history) = history

  -- `update_zero_grid_state`, on the history.
  unfoldable pub update_zero_grid_state : Option (List F) → List (BatSnapshot F) → List F
  update_zero_grid_state state bats =
      let avg_soc = div (sum (map (λ b. b.soc_pct) bats)) (of_int (pos (length bats))) in
      if is_empty bats then [] else last momentum_window (or_empty state ++ (avg_soc ∷ []))

  abbrev deltas : List F → List F
  deltas [] = []
  deltas (x ∷ []) = []
  deltas (x ∷ y ∷ xs) = sub y x ∷ deltas (y ∷ xs)

  abbrev pub is_trend : List F → Bool
  is_trend history =
      all (λ d. gt d zero_w) (deltas history) || all (λ d. lt d zero_w) (deltas history)

  unfoldable pub momentum_gain : Option (List F) → F → F
  momentum_gain state base_gain = elim state [
    | none ↦ base_gain
    | some history ↦
        if ltb (length history) 2
        then base_gain
        else if is_trend history
        then mul base_gain momentum_damping_factor
        else base_gain
  ]

  unfoldable pub target_net_w : F → F → F → F → F
  target_net_w current_bat_net_w grid_power_w deadband_w gain =
      let deviation = sub grid_power_w zero_w in
      if lt (abs deviation) deadband_w
      then current_bat_net_w
      else add current_bat_net_w (mul deviation gain)
