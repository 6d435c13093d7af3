-- ===== src/Budget/Limits.antt =====
-- What the grid tuner leaves of the limit of a battery.
use carma_box_v.Base.{
  ◌≡◌, refl, sym, ap, ◌∙◌, ◌⊎◌, inl, inr, Bool, true, false, ◌||◌, List, [], ◌∷◌, Option, none,
  some, String, arith, contains, filter, is_empty, Bool-cases, length, if◌then◌else◌, str_eq,
  eq_iff,
}
use carma_box_v.Base.Int.{ℤ, pos, negsuc, ◌+ℤ◌, ◌-ℤ◌, leb_ℤ, eqb_ℤ}
use carma_box_v.Base.Floats.{Float}
use carma_box_v.ModeChange.Manager.{lookup, assign}
use carma_box_v.ModeChange.Table.{IsDict, lookup-assign, lookup-assign_other}
use carma_box_v.Dicts.{get, keys}
use carma_box_v.ZeroGrid.Types.{ZeroGridPlan}
use carma_box_v.Budget.Types.{BudgetConfig}
use carma_box_v.Budget.Batteries.{
  floor_div, clamp_to, mode_in, is_active_mode, active_bats, tuned, tune_bats, tuned_alloc,
}

clamp_to_most : (cap x : ℤ) → leb_ℤ (pos 0) cap ≡ true → leb_ℤ (clamp_to cap x) cap ≡ true
clamp_to_most (pos c) (pos n) h = ground arith
clamp_to_most (pos c) (negsuc n) h = ground arith
clamp_to_most (negsuc c) x h = ground arith

abbrev has_mode : String × String → Bool
has_mode entry = is_active_mode entry.1

-- The key of an entry that passes the test is in the dict.
absent_lem :
    (k : String) (d : List (String × String))
    → lookup k d ≡ none
    → contains k (keys (filter has_mode d)) ≡ false
unfolding lookup
absent_lem k [] h = refl
absent_lem k ((j, m) ∷ d) h = ground (arith, absent_lem k d)

-- A battery that the tuner moves charges or discharges.
active_lem :
    (k m : String) (d : List (String × String))
    → IsDict d
    → lookup k d ≡ some m
    → contains k (keys (filter has_mode d)) ≡ true
    → is_active_mode m ≡ true
unfolding lookup
active_lem k m [] h l c = ground arith
active_lem k m ((j, n) ∷ d) h l c = elim (Bool-cases (str_eq k j)) [
  | inl e ↦
      let same : k ≡ j = (eq_iff k j).0 e in
      let absent = absent_lem k d (rw same h.0) in
      let found : n ≡ m = grind (arith, l, e) in rw (sym found) (grind (arith, c, absent))
  | inr e ↦ active_lem k m d h.1 (grind (arith, l, e)) (grind (arith, c, e))
]

abbrev value_or : String → Option String → String
value_or v none = v
value_or v (some w) = w

module _ {F : Type 0} (cfg : BudgetConfig F) where
  abbrev pub cap_of : String → ℤ
  cap_of mode =
      if str_eq mode "charge_battery"
      then cfg.bat_default_max_charge_w
      else cfg.bat_default_max_discharge_w

  abbrev pub HasDefaultCaps : Type 0
  HasDefaultCaps =
      (leb_ℤ (pos 0) cfg.bat_default_max_charge_w ≡ true)
      × (leb_ℤ (pos 0) cfg.bat_default_max_discharge_w ≡ true)

  -- The tuner leaves a limit, or sets one within the cap of a battery that charges or discharges.
  abbrev pub Tuned : String → ℤ → ℤ → Type 0
  Tuned mode limit new =
      (new ≡ limit) ⊎ ((is_active_mode mode ≡ true) × (leb_ℤ new (cap_of mode) ≡ true))

  abbrev LookupTuned : String → String → ℤ → List (String × ℤ) → Type 0
  LookupTuned k mode limit alloc = (new : ℤ) × (lookup k alloc ≡ some new) × Tuned mode limit new

module _ {F : Type 0} ⦃f : Float F⦄ (cfg : BudgetConfig F) (caps : HasDefaultCaps cfg) where
  tuned_most :
      (mode : String) (delta current : ℤ)
      → leb_ℤ (tuned cfg mode delta current) (cap_of cfg mode) ≡ true
  unfolding tuned
  tuned_most mode delta current = elim (Bool-cases (str_eq mode "charge_battery")) [
    | inl e ↦ simp e (clamp_to_most cfg.bat_default_max_charge_w (current -ℤ delta) caps.0)
    | inr e ↦ simp e (clamp_to_most cfg.bat_default_max_discharge_w (current +ℤ delta) caps.1)
  ]

  module _ (plan : ZeroGridPlan) (k mode : String) (limit : ℤ) where
    tune_bats-Tuned :
        (delta : ℤ) (ids : List String) (alloc : List (String × ℤ))
        → lookup k plan.modes ≡ some mode
        → (contains k ids ≡ true → is_active_mode mode ≡ true)
        → LookupTuned cfg k mode limit alloc
        → LookupTuned cfg k mode limit (tune_bats cfg plan delta ids alloc)
    unfolding tune_bats
    tune_bats-Tuned delta [] alloc m active h = h
    tune_bats-Tuned delta (id ∷ ids) alloc m active h =
        let new = tuned cfg (mode_in plan id) delta (get id (pos 0) alloc) in
        tune_bats-Tuned delta ids (assign id new alloc) m (λ c. active (ground arith))
          (elim (Bool-cases (str_eq k id)) [
            | inl e ↦
                let same : k ≡ id = (eq_iff k id).0 e in
                let is_mode : mode_in plan id ≡ mode =
                  ap (λ j. mode_in plan j) (sym same) ∙ ap (value_or "") m in
                (
                  new,
                  rw same (lookup-assign id new alloc),
                  inr (
                    active (ground (arith, e)),
                    rw⁻¹ is_mode (tuned_most (mode_in plan id) delta (get id (pos 0) alloc)),
                  ),
                )
            | inr e ↦ (h.0, lookup-assign_other k id new alloc e ∙ h.1, h.2)
          ])

    -- The limit of a battery in the plan after the tuner.
    pub tuned_alloc-Tuned :
        (delta : ℤ)
        → IsDict plan.modes
        → lookup k plan.modes ≡ some mode
        → lookup k plan.limits_w ≡ some limit
        → LookupTuned cfg k mode limit (tuned_alloc cfg plan delta)
    unfolding tuned_alloc active_bats
    tuned_alloc-Tuned delta d m l =
        let start : LookupTuned cfg k mode limit plan.limits_w = (limit, l, inl refl) in
        let ids = active_bats plan in
        elim (Bool-cases (eqb_ℤ delta (pos 0) || is_empty ids)) [
          | inl e ↦ simp e start
          | inr e ↦ simp e (
              tune_bats-Tuned (floor_div delta (length ids)) ids plan.limits_w m
                (active_lem k mode plan.modes d m) start)
        ]
