-- ===== src/Budget/Tuner.antt =====
-- core/grid_tuner.py: the correction in tiers, the samples of the last minutes, and the guard against
-- changes of mode.
use carma_box_v.Base.{
  Bool, List, [], ◌∷◌, ◌++◌, Option, none, some, length, is_empty, if◌then◌else◌,
}
use carma_box_v.Base.Int.{ℤ, pos, ◌*ℤ◌, negsuc}
use carma_box_v.Base.Floats.{Float, abs, ge, gt, sum}

pub record GridTunerConfig (F : Type 0) : Type 0 where
  pub enabled : Bool
  pub tiers_w : List F
  pub corrections_w : List ℤ
  pub rolling_window_s : ℤ
  pub mode_change_stability_w : F

-- `GridRollingState`: its samples (time, watts), the oldest first.
pub record GridRolling (F : Type 0) : Type 0 where
  pub history : List (F × F)

module _ {F : Type 0} ⦃f : Float F⦄ where
  open f use {lt, add, sub, div, of_int, lit}

  -- The loop over `zip(tiers_w, corrections_w)`.
  unfoldable pub correction_of : F → List F → List ℤ → ℤ → ℤ
  correction_of abs_g (tier ∷ tiers) (corr ∷ corrs) correction =
      correction_of abs_g tiers corrs (if ge abs_g tier then corr else correction)
  correction_of abs_g _ _ correction = correction

  abbrev pub direction : F → ℤ
  direction raw_grid_w = if gt raw_grid_w (lit 0 0) then pos 1 else negsuc 0

  -- Without a first tier, `tiers_w[0]` raises.
  unfoldable pub enabled_delta : F → List F → List ℤ → Option ℤ
  enabled_delta raw_grid_w [] corrs = none
  enabled_delta raw_grid_w (first ∷ tiers) corrs =
      if lt (abs raw_grid_w) first
      then some (pos 0)
      else some
          (direction raw_grid_w *ℤ correction_of (abs raw_grid_w) (first ∷ tiers) corrs (pos 0))

  -- `tune_grid_delta`, none for the IndexError.
  unfoldable pub tune_grid_delta : F → GridTunerConfig F → Option ℤ
  tune_grid_delta raw_grid_w cfg =
      if cfg.enabled then enabled_delta raw_grid_w cfg.tiers_w cfg.corrections_w else some (pos 0)

  unfoldable pub prune : F → List (F × F) → List (F × F)
  prune cutoff [] = []
  prune cutoff (sample ∷ history) =
      let rest = prune cutoff history in if lt sample.0 cutoff then rest else sample ∷ history

  unfoldable pub push_sample : F → F → ℤ → GridRolling F → GridRolling F
  push_sample ts grid_w window_s s = record {
    history = prune (sub ts (of_int window_s)) (s.history ++ ((ts, grid_w) ∷ []));
  }

  abbrev watts : List (F × F) → List F
  watts [] = []
  watts (sample ∷ history) = sample.1 ∷ watts history

  unfoldable pub avg : GridRolling F → F
  avg s =
      if is_empty s.history
      then lit 0 0
      else div (sum (watts s.history)) (of_int (pos (length s.history)))

  unfoldable pub should_block_mode_change : F → GridTunerConfig F → Bool
  should_block_mode_change rolling_avg_w cfg = lt (abs rolling_avg_w) cfg.mode_change_stability_w
