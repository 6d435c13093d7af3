-- ===== src/Balancer/Bounds.antt =====
-- What an allocation is for each battery, and within which bounds.
use carma_box_v.Base.{
  ◌≡◌, refl, ◌⊎◌, inl, inr, Bool, true, false, List, [], ◌∷◌, String, arith, length, ltb, Each,
  Each-map, Bool-cases,
}
use carma_box_v.Base.Int.{pos}
use carma_box_v.Base.Floats.{Float, IsOrdered, fmax, fmin, sum, abs}
use carma_box_v.ModeChange.Manager.{lookup}
use carma_box_v.Dicts.{get, values, assign_all}
use carma_box_v.Dicts.Fill.{get-assign_where}
use carma_box_v.Balancer.Allocate.{
  BalancerConfig, BatteryInfo, BatteryAllocation, id_of, available_kwh_of, correction_factor_of,
  correction_factors, derated, is_cold, max_w, allocation, zero_allocation, allocate,
}

module _ {F : Type 0} ⦃f : Float F⦄ (laws : IsOrdered f) (cfg : BalancerConfig F)
    (is_charging : Bool) where
  open f use {lt, le, sub, mul, lit, trunc}

  -- No correction, or one between the least and the most.
  abbrev pub InRange : F → Type 0
  InRange x = (x ≡ lit 1 0) ⊎ ((le cfg.correction_min x ≡ true) × (le x cfg.correction_max ≡ true))

  lt_irrefl : (x : F) → lt x x ≡ false
  lt_irrefl x = grind (arith, laws.lt_le x x, laws.lt_not_le x x)

  fmin_not_above : (x y : F) → lt y (fmin x y) ≡ false
  fmin_not_above x y = ground (arith, lt_irrefl y)

  clamp_between :
      (raw : F)
      → le cfg.correction_min cfg.correction_max ≡ true
      → let x = fmax cfg.correction_min (fmin cfg.correction_max raw) in
        (le cfg.correction_min x ≡ true) × (le x cfg.correction_max ≡ true)
  clamp_between raw h =
      let ends = laws.le_refl cfg.correction_min cfg.correction_max h in
      let least = laws.lt_le cfg.correction_min (fmin cfg.correction_max raw) in
      let most = laws.lt_le raw cfg.correction_max in ground (arith, ends, least, most, h)

  correction_factor_of-InRange :
      (target : F) (b : BatteryInfo F)
      → le cfg.correction_min cfg.correction_max ≡ true
      → InRange (correction_factor_of cfg is_charging target b)
  unfolding correction_factor_of
  correction_factor_of-InRange target b h =
      elim (Bool-cases (lt (abs (sub target b.soc_pct)) cfg.correction_deadband_pct)) [
        | inl e ↦ rw e (inl refl)
        | inr e ↦ rw e (inr (clamp_between _ h))
      ]

  correction_factors-InRange :
      (bats : List (BatteryInfo F)) (id : String)
      → le cfg.correction_min cfg.correction_max ≡ true
      → InRange (get id (lit 1 0) (correction_factors cfg is_charging bats))
  unfolding correction_factors lookup
  correction_factors-InRange bats id h = elim (Bool-cases (ltb (length bats) 2)) [
    | inl one ↦ rw one (
        get-assign_where InRange (λ b. true) (id_of cfg is_charging) (λ b. lit 1 0) id (lit 1 0)
          bats [] (λ b. inl refl) (inl refl))
    | inr more ↦ rw more (
        get-assign_where InRange (λ b. true) (id_of cfg is_charging) _ id (lit 1 0) bats []
          (λ b. correction_factor_of-InRange _ b h) (inl refl))
  ]

  -- Nothing, or the whole watts of a power that is not above the battery's limit; derated and clamped
  -- as told.
  abbrev pub IsAllocated : BatteryInfo F → BatteryAllocation F → Type 0
  IsAllocated b a =
      (a.battery_id ≡ b.battery_id)
      × InRange a.correction_factor
      × (((a.watts ≡ pos 0) × (a.clamped ≡ false))
          ⊎ ((power : F) × (a.watts ≡ trunc power)
              × (lt (max_w cfg is_charging b) power ≡ false)
              × (a.cold_derated ≡ is_cold cfg is_charging b)
              × ((a.clamped ≡ false) ⊎ (power ≡ max_w cfg is_charging b))))

  allocation-IsAllocated :
      (total_watts : F) (floors available shares : List (String × F)) (bats : List (BatteryInfo F))
      (b : BatteryInfo F)
      → le cfg.correction_min cfg.correction_max ≡ true
      → IsAllocated b (
          allocation cfg is_charging total_watts floors available shares
            (correction_factors cfg is_charging bats)
            b)
  unfolding allocation
  allocation-IsAllocated total_watts floors available shares bats b h =
      let of = λ (d : List (String × F)). get b.battery_id (lit 1 0) d in
      let base_w =
        derated cfg is_charging b
          (mul (mul total_watts (of shares)) (of (correction_factors cfg is_charging bats))) in
      let most = max_w cfg is_charging b in
      let clamps : (lt most base_w ≡ false) ⊎ (fmin base_w most ≡ most) = ground arith in
      (
        refl,
        correction_factors-InRange bats b.battery_id h,
        inr (fmin base_w most, refl, fmin_not_above base_w most, refl, clamps),
      )

  zero_allocation-IsAllocated :
      (floors : List (String × F)) (b : BatteryInfo F)
      → IsAllocated b (zero_allocation cfg is_charging floors b)
  unfolding zero_allocation
  zero_allocation-IsAllocated floors b = (refl, inl refl, inl (refl, refl))

  -- For a power that is not at most 0 W, and a least correction not above the most, there is one
  -- allocation for each battery, in their order. Its correction is 1 or between the least and the most.
  -- It is 0 W, or the whole watts of a power that is not above the battery's limit, and is that limit
  -- where it is said to be clamped.
  pub allocate-IsAllocated :
      (bats : List (BatteryInfo F)) (total_watts : F)
      → le cfg.correction_min cfg.correction_max ≡ true
      → le total_watts (lit 0 0) ≡ false
      → Each IsAllocated bats (allocate cfg is_charging bats total_watts).allocations
  unfolding allocate
  allocate-IsAllocated [] total_watts h over = tt
  allocate-IsAllocated (b ∷ bs) total_watts h over =
      let bats = b ∷ bs in
      let total =
        sum (
          values (assign_all (id_of cfg is_charging) (available_kwh_of cfg is_charging) bats [])) in
      elim (Bool-cases (le total (lit 0 0))) [
        | inl none_left ↦
            rw (over, none_left)
              (Each-map IsAllocated _ (λ c. zero_allocation-IsAllocated _ c) bats)
        | inr some_left ↦
            rw (over, some_left)
              (Each-map IsAllocated _ (λ c. allocation-IsAllocated total_watts _ _ _ bats c h) bats)
      ]
