-- ===== src/ZeroGrid/Contract.antt =====
-- What `plan_zero_grid` does to each battery, from the batteries and the limits that it is called with.
use carma_box_v.Base.{
  ◌≡◌, refl, sym, ap, ◌∙◌, inl, inr, List, [], ◌∷◌, Option, some, String, arith, In, All, any,
}
use carma_box_v.Base.Floats.{Float, IsOrdered}
use carma_box_v.ModeChange.Manager.{lookup}
use carma_box_v.ZeroGrid.Types.{BatLimits, BatSnapshot, Bank, ZeroGridPlan, Tuning}
use carma_box_v.ZeroGrid.Distribute.{id_of}
use carma_box_v.ZeroGrid.Plan.{plan_banks, with_limits, plan_zero_grid}
use carma_box_v.Dicts.Fill.{has_key, DistinctBy}
use carma_box_v.ZeroGrid.Safety.{IsSigned, HasCaps, IsPlanned, plan_banks-IsPlanned}

module _ {F : Type 0} where
  abbrev pub name_of : BatSnapshot F → String
  name_of b = b.battery_id

  abbrev pub bank : BatSnapshot F → BatLimits F → Bank F
  bank b limits = record { snapshot = b; limits = limits }

module _ {F : Type 0} ⦃f : Float F⦄ (limits_by_id : List (String × BatLimits F)) where
  abbrev pub HasLimits : BatSnapshot F → Type 0
  HasLimits b = (limits : BatLimits F) × (lookup b.battery_id limits_by_id ≡ some limits)

  abbrev pub banks_of : (bats : List (BatSnapshot F)) → All HasLimits bats → List (Bank F)
  banks_of [] h = []
  banks_of (b ∷ bats) h = bank b h.0.0 ∷ banks_of bats h.1

  pub with_limits-banks_of :
      (bats : List (BatSnapshot F)) (h : All HasLimits bats)
      → with_limits limits_by_id bats ≡ some (banks_of bats h)
  unfolding with_limits
  with_limits-banks_of [] h = refl
  with_limits-banks_of (b ∷ bats) h = rw (h.0.1, with_limits-banks_of bats h.1) refl

  banks_of_ids :
      (k : String) (bats : List (BatSnapshot F)) (h : All HasLimits bats)
      → any (has_key id_of k) (banks_of bats h) ≡ any (has_key name_of k) bats
  banks_of_ids k [] h = refl
  banks_of_ids k (b ∷ bats) h = ground (arith, banks_of_ids k bats h.1)

  pub banks_of-DistinctBy :
      (bats : List (BatSnapshot F)) (h : All HasLimits bats)
      → DistinctBy name_of bats
      → DistinctBy id_of (banks_of bats h)
  banks_of-DistinctBy [] h d = tt
  banks_of-DistinctBy (b ∷ bats) h d =
      (banks_of_ids b.battery_id bats h.1 ∙ d.0, banks_of-DistinctBy bats h.1 d.1)

  pub banks_of-In :
      (b : BatSnapshot F) (limits : BatLimits F) (bats : List (BatSnapshot F))
      (h : All HasLimits bats)
      → In b bats
      → lookup b.battery_id limits_by_id ≡ some limits
      → In (bank b limits) (banks_of bats h)
  banks_of-In b limits [] h m l = elim m [ ]
  banks_of-In b limits (c ∷ bats) h (inl same) l =
      let found : some limits ≡ some h.0.0 =
        sym l ∙ ap (λ u. lookup u.battery_id limits_by_id) same ∙ h.0.1 in
      inl (rw same (grind (arith, found)))
  banks_of-In b limits (c ∷ bats) h (inr m) l = inr (banks_of-In b limits bats h.1 m l)

  -- If no two batteries share an id and each has limits, `plan_zero_grid` returns a plan. For floats
  -- with the laws of the order and of signs, it has a mode and a limit for each battery whose caps are
  -- not negative: below its floor the battery charges at its cap and is listed for recovery; else it
  -- charges only below its highest SoC, discharges only above the floor with its buffer, each within
  -- its cap, or stands by at 0 W.
  pub plan_zero_grid-IsPlanned :
      (laws : IsOrdered f) (signs : IsSigned f) (t : Tuning F) (state : Option (List F))
      (grid_power_w : F) (bats : List (BatSnapshot F)) (b : BatSnapshot F) (limits : BatLimits F)
      → DistinctBy name_of bats
      → All HasLimits bats
      → In b bats
      → lookup b.battery_id limits_by_id ≡ some limits
      → HasCaps (bank b limits)
      → (p : ZeroGridPlan) × (plan_zero_grid t state grid_power_w bats limits_by_id ≡ some p)
        × IsPlanned (bank b limits) p
  unfolding plan_zero_grid
  plan_zero_grid-IsPlanned laws signs t state grid_power_w bats b limits d h m l caps =
      let banks = banks_of bats h in
      (
        plan_banks t state grid_power_w banks,
        rw (with_limits-banks_of bats h) refl,
        plan_banks-IsPlanned laws signs t state grid_power_w (bank b limits) banks
            (banks_of-DistinctBy bats h d) (banks_of-In b limits bats h m l) caps,
      )
