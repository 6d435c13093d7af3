-- ===== src/ZeroGrid/Safety.antt =====
-- The plan of each battery: which mode it may get, and within which limit.
use carma_box_v.Base.{
  ◌≡◌, ap, ◌∙◌, ◌⊎◌, inl, inr, true, false, List, [], Option, none, some, String, arith, In,
  contains, if◌then◌else◌, Bool-cases,
}
use carma_box_v.Base.Int.{ℤ, pos, leb_ℤ}
use carma_box_v.Base.Floats.{Float, IsOrdered, ge, gt, fmax, fmin}
use carma_box_v.ModeChange.Manager.{lookup}
use carma_box_v.ZeroGrid.Types.{Bank, ZeroGridPlan, Tuning}
use carma_box_v.ZeroGrid.Gain.{zero_w, dead_band_w}
use carma_box_v.Dicts.{get, keys}
use carma_box_v.ZeroGrid.Distribute.{id_of}
use carma_box_v.ZeroGrid.Plan.{
  clamp_for_soc, plan_for_net, is_below_floor, forced, planned, shares, plan_banks,
}
use carma_box_v.Dicts.Fill.{DistinctBy, lookup-assign_where, contains-keys}

-- What the theorem assumes of the sign of floats and of `int(x)`.
pub record IsSigned {F : Type 0} (f : Float F) : Type 0 where
  pub dead_band_pos : f.lt (f.lit 0 0) (f.lit 50 0) ≡ true
  pub neg_dead_band : f.lt (f.neg (f.lit 50 0)) (f.lit 0 0) ≡ true
  pub of_int_pos : (a : ℤ) → leb_ℤ (pos 0) a ≡ true → f.le (f.lit 0 0) (f.of_int a) ≡ true
  pub neg_of_int_pos :
      (a : ℤ) → leb_ℤ (pos 0) a ≡ true → f.le (f.neg (f.of_int a)) (f.lit 0 0) ≡ true
  pub neg_le : (x y : F) → f.le (f.neg y) x ≡ true → f.le (f.neg x) y ≡ true
  pub trunc_le : (x : F) (a : ℤ) → f.le x (f.of_int a) ≡ true → leb_ℤ (f.trunc x) a ≡ true

module _ {F : Type 0} ⦃f : Float F⦄ where
  open f use {lt, le, add, of_int, neg, trunc}

  -- What a plan may say of a battery: its mode, its limit and whether it is in emergency recovery.
  pub data Allowed (b : Bank F) : String → ℤ → Type 0 where
    recover : is_below_floor b ≡ true → Allowed b "charge_battery" b.limits.max_charge_w
    charge :
        (l : ℤ)
        → is_below_floor b ≡ false
        → ge b.snapshot.soc_pct b.limits.soc_max_pct ≡ false
        → leb_ℤ l b.limits.max_charge_w ≡ true
        → Allowed b "charge_battery" l
    discharge :
        (l : ℤ)
        → is_below_floor b ≡ false
        → le b.snapshot.soc_pct (add b.limits.soc_min_pct b.limits.soc_min_buffer_pct) ≡ false
        → leb_ℤ l b.limits.max_discharge_w ≡ true
        → Allowed b "discharge_pv" l
    stand_by : is_below_floor b ≡ false → Allowed b "battery_standby" (pos 0)

  abbrev pub HasCaps : Bank F → Type 0
  HasCaps b =
      (leb_ℤ (pos 0) b.limits.max_charge_w ≡ true) × (leb_ℤ (pos 0) b.limits.max_discharge_w ≡ true)

  -- The battery's mode, its limit, and whether it is listed for emergency recovery.
  abbrev pub IsPlanned : Bank F → ZeroGridPlan → Type 0
  IsPlanned b p =
      (mode : String) × (limit : ℤ) × (lookup (id_of b) p.modes ≡ some mode)
      × (lookup (id_of b) p.limits_w ≡ some limit)
      × Allowed b mode limit
      × ((is_below_floor b ≡ false) ⊎ (contains (id_of b) p.emergency_recovery ≡ true))

module _ {F : Type 0} ⦃f : Float F⦄ (laws : IsOrdered f) (signs : IsSigned f) where
  open f use {lt, le, add, of_int, neg, trunc}

  not_positive : (x : F) → le x zero_w ≡ true → ge x dead_band_w ≡ false
  not_positive x h =
      laws.lt_not_le x dead_band_w (laws.le_lt_trans x zero_w dead_band_w h signs.dead_band_pos)

  not_negative : (x : F) → le zero_w x ≡ true → le x (neg dead_band_w) ≡ false
  not_negative x h =
      laws.lt_not_le (neg dead_band_w) x
        (laws.lt_le_trans (neg dead_band_w) zero_w x signs.neg_dead_band h)

  zero_le : le zero_w zero_w ≡ true
  zero_le = (laws.le_refl zero_w dead_band_w (laws.lt_le zero_w dead_band_w signs.dead_band_pos)).0

  module _ (b : Bank F) (above : is_below_floor b ≡ false) (caps : HasCaps b) where
    abbrev Result : String × ℤ → Type 0
    Result p = Allowed b p.0 p.1

    rest_allowed : Result (plan_for_net {F = F} zero_w)
    unfolding plan_for_net
    rest_allowed = rw (not_negative zero_w zero_le, not_positive zero_w zero_le) (stand_by above)

    charge_allowed :
        (x : F)
        → ge b.snapshot.soc_pct b.limits.soc_max_pct ≡ false
        → le x zero_w ≡ true
        → le (neg (of_int b.limits.max_charge_w)) x ≡ true
        → Result (plan_for_net x)
    unfolding plan_for_net
    charge_allowed x room down within = elim (Bool-cases (le x (neg dead_band_w))) [
      | inl e ↦ rw e (
          charge _ above room (
            signs.trunc_le (neg x) b.limits.max_charge_w
              (signs.neg_le x (of_int b.limits.max_charge_w) within)))
      | inr e ↦ rw (e, not_positive x down) (stand_by above)
    ]

    discharge_allowed :
        (x : F)
        → le b.snapshot.soc_pct (add b.limits.soc_min_pct b.limits.soc_min_buffer_pct) ≡ false
        → le zero_w x ≡ true
        → le x (of_int b.limits.max_discharge_w) ≡ true
        → Result (plan_for_net x)
    unfolding plan_for_net
    discharge_allowed x room up within = elim (Bool-cases (ge x dead_band_w)) [
      | inl e ↦
          rw (not_negative x up, e)
            (discharge _ above room (signs.trunc_le x b.limits.max_discharge_w within))
      | inr e ↦ rw (not_negative x up, e) (stand_by above)
    ]

    clamp_charge :
        (x : F)
        → ge b.snapshot.soc_pct b.limits.soc_max_pct ≡ false
        → le x zero_w ≡ true
        → Result (plan_for_net (fmax x (neg (of_int b.limits.max_charge_w))))
    clamp_charge x room down =
        let least = neg (of_int b.limits.max_charge_w) in
        let negative = signs.neg_of_int_pos b.limits.max_charge_w caps.0 in
        let is_least = (laws.le_refl least zero_w negative).0 in
        elim (Bool-cases (lt x least)) [
          | inl e ↦ rw e (charge_allowed least room negative is_least)
          | inr e ↦
              let order = laws.le_or_lt least x is_least (laws.le_refl x zero_w down).0 in
              rw e (charge_allowed x room down (grind (arith, order)))
        ]

    clamp_discharge :
        (x : F)
        → le b.snapshot.soc_pct (add b.limits.soc_min_pct b.limits.soc_min_buffer_pct) ≡ false
        → le zero_w x ≡ true
        → Result (plan_for_net (fmin x (of_int b.limits.max_discharge_w)))
    clamp_discharge x room up =
        let most = of_int b.limits.max_discharge_w in
        let positive = signs.of_int_pos b.limits.max_discharge_w caps.1 in
        let is_most = (laws.le_refl zero_w most positive).1 in
        elim (Bool-cases (lt most x)) [
          | inl e ↦ rw e (discharge_allowed most room positive is_most)
          | inr e ↦
              let order = laws.le_or_lt x most (laws.le_refl zero_w x up).1 is_most in
              rw e (discharge_allowed x room up (grind (arith, order)))
        ]

    clamp_for_soc-Allowed :
        (target : F) → Result (plan_for_net (clamp_for_soc target b.snapshot.soc_pct b.limits))
    unfolding clamp_for_soc
    clamp_for_soc-Allowed target =
        let floor = add b.limits.soc_min_pct b.limits.soc_min_buffer_pct in
        elim (Bool-cases (lt target zero_w)) [
          | inl below ↦ elim (Bool-cases (ge b.snapshot.soc_pct b.limits.soc_max_pct)) [
            | inl full ↦ rw (below, full) rest_allowed
            | inr room ↦
                rw (below, room) (clamp_charge target room (laws.lt_le target zero_w below))
          ]
          | inr up ↦ elim (Bool-cases (gt target zero_w)) [
            | inl over ↦ elim (Bool-cases (le b.snapshot.soc_pct floor)) [
              | inl low ↦ rw (up, over, low) rest_allowed
              | inr room ↦
                  rw (up, over, room) (clamp_discharge target room (laws.lt_le zero_w target over))
            ]
            | inr zero ↦ rw (up, zero) rest_allowed
          ]
        ]

  forced_at :
      (b : Bank F) (banks : List (Bank F))
      → DistinctBy id_of banks
      → In b banks
      → lookup (id_of b) (forced banks)
        ≡ (if is_below_floor b then some ("charge_battery", b.limits.max_charge_w) else none)
  unfolding forced lookup
  forced_at b banks d m =
      lookup-assign_where id_of {V = String × ℤ} is_below_floor
        (λ c. ("charge_battery", c.limits.max_charge_w)) b banks [] d m

  planned-Allowed :
      (b : Bank F) (banks : List (Bank F)) (per_bat : List (String × F))
      → DistinctBy id_of banks
      → In b banks
      → HasCaps b
      → let p = (planned (forced banks) per_bat b).0 in Allowed b p.0 p.1
  unfolding planned
  planned-Allowed b banks per_bat d m caps = elim (Bool-cases (is_below_floor b)) [
    | inl below ↦ rw (planned, forced_at b banks d m, below) (recover below)
    | inr above ↦
        rw (planned, forced_at b banks d m, above)
          (clamp_for_soc-Allowed b above caps (get (id_of b) zero_w per_bat))
  ]

  pub plan_banks-IsPlanned :
      (t : Tuning F) (state : Option (List F)) (grid_power_w : F) (b : Bank F)
      (banks : List (Bank F))
      → DistinctBy id_of banks
      → In b banks
      → HasCaps b
      → IsPlanned b (plan_banks t state grid_power_w banks)
  unfolding plan_banks
  plan_banks-IsPlanned t state grid_power_w b banks d m caps =
      let per_bat = shares t state grid_power_w banks in
      let plan = λ (c : Bank F). (planned (forced banks) per_bat c).0 in
      let mode =
        lookup-assign_where id_of {V = String} (λ c. true) (λ c. (plan c).0) b banks [] d m in
      let limit = lookup-assign_where id_of {V = ℤ} (λ c. true) (λ c. (plan c).1) b banks [] d m in
      let flagged : (is_below_floor b ≡ false) ⊎ (contains (id_of b) (keys (forced banks)) ≡ true) =
        elim (Bool-cases (is_below_floor b)) [
          | inl below ↦ inr (
              contains-keys (id_of b) _ (forced banks) (
                forced_at b banks d m
                ∙ ap (λ u. if u then some ("charge_battery", b.limits.max_charge_w) else none)
                    below))
          | inr above ↦ inl above
        ] in
      ((plan b).0, (plan b).1, mode, limit, planned-Allowed b banks per_bat d m caps, flagged)
