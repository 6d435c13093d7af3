-- ===== src/Budget/Settled.antt =====
-- What may be set for a battery, and what a cycle may leave it in.
use carma_box_v.Base.{
  ◌≡◌, sym, inl, inr, Bool, true, false, not, ◌&&◌, String, arith, Bool-cases, if◌then◌else◌,
  str_eq,
}
use carma_box_v.Base.Int.{ℤ, pos, leb_ℤ}
use carma_box_v.Base.Floats.{Float, ge}
use carma_box_v.Dicts.{get}
use carma_box_v.ZeroGrid.Types.{Bank, BatSnapshot}
use carma_box_v.ZeroGrid.Plan.{is_below_floor}
use carma_box_v.ZeroGrid.Safety.{Allowed, recover, charge, discharge, stand_by}
use carma_box_v.ZeroGrid.Contract.{bank}
use carma_box_v.Budget.Types.{BudgetConfig, BudgetInput}
use carma_box_v.Budget.Batteries.{snapshot_of, default_limits, guarded_mode}
use carma_box_v.Budget.Limits.{Tuned}

module _ {F : Type 0} ⦃f : Float F⦄ (cfg : BudgetConfig F) where
  open f use {le, add}

  -- What may be set for a battery: below its floor it is to charge; else it charges only below its
  -- highest SoC and discharges only above the floor with its buffer. The limit is within the cap of the
  -- mode, and 0 W in standby.
  pub data Served (b : Bank F) : String → ℤ → Type 0 where
    recovers :
        (l : ℤ)
        → is_below_floor b ≡ true
        → leb_ℤ l cfg.bat_default_max_charge_w ≡ true
        → Served b "charge_battery" l
    charges :
        (l : ℤ)
        → is_below_floor b ≡ false
        → ge b.snapshot.soc_pct b.limits.soc_max_pct ≡ false
        → leb_ℤ l cfg.bat_default_max_charge_w ≡ true
        → Served b "charge_battery" l
    discharges :
        (l : ℤ)
        → is_below_floor b ≡ false
        → le b.snapshot.soc_pct (add b.limits.soc_min_pct b.limits.soc_min_buffer_pct) ≡ false
        → leb_ℤ l cfg.bat_default_max_discharge_w ≡ true
        → Served b "discharge_pv" l
    stands_by : is_below_floor b ≡ false → Served b "battery_standby" (pos 0)

  abbrev pub bank_of : BudgetInput F → String × F → Bank F
  bank_of inp entry = bank (snapshot_of cfg inp entry) (default_limits cfg)

  refl_le : (a : ℤ) → leb_ℤ a a ≡ true
  refl_le a = ground arith

  pub Tuned-Served :
      (s : BatSnapshot F) (mode : String) (limit new : ℤ)
      → Allowed (bank s (default_limits cfg)) mode limit
      → Tuned cfg mode limit new
      → Served (bank s (default_limits cfg)) mode new
  Tuned-Served s _ _ new (recover below) (inl e) =
      recovers new below (rw e (refl_le cfg.bat_default_max_charge_w))
  Tuned-Served s _ _ new (recover below) (inr h) = recovers new below h.1
  Tuned-Served s _ _ new (charge l above room most) (inl e) = charges new above room (rw e most)
  Tuned-Served s _ _ new (charge l above room most) (inr h) = charges new above room h.1
  Tuned-Served s _ _ new (discharge l above room most) (inl e) =
      discharges new above room (rw e most)
  Tuned-Served s _ _ new (discharge l above room most) (inr h) = discharges new above room h.1
  Tuned-Served s _ _ new (stand_by above) (inl e) = rw e (stands_by above)
  Tuned-Served s _ _ new (stand_by above) (inr h) = ground (arith, h.0)

  -- The guard keeps a battery from a change between charging and discharging.
  abbrev pub flips : String → String → Bool
  flips current mode =
      not (str_eq mode current)
      && not (str_eq mode "battery_standby")
      && not (str_eq current "battery_standby")

  -- What a cycle does to a battery, from its mode and whether the guard holds: whether it is listed for
  -- recovery, the mode that the commands leave it in, and its limit. Below its floor it is listed, and
  -- its mode is left. Else it is not, and gets the mode that the limit is for, but where the guard
  -- holds and the two modes are opposite, it stays in its mode.
  pub data Settled (b : Bank F) (current : String) (held : Bool) : Bool → String → ℤ → Type 0 where
    lists :
        (l : ℤ)
        → is_below_floor b ≡ true
        → leb_ℤ l cfg.bat_default_max_charge_w ≡ true
        → Settled b current held true current l
    sets :
        (mode : String) (l : ℤ)
        → is_below_floor b ≡ false
        → (held && flips current mode) ≡ false
        → Served b mode l
        → Settled b current held false mode l
    holds :
        (mode : String) (l : ℤ)
        → is_below_floor b ≡ false
        → (held && flips current mode) ≡ true
        → Served b mode l
        → Settled b current held false current l

  Served-limit :
      (b : Bank F) (mode : String) (l : ℤ)
      → is_below_floor b ≡ true
      → Served b mode l
      → leb_ℤ l cfg.bat_default_max_charge_w ≡ true
  Served-limit b _ _ h (recovers l below most) = most
  Served-limit b _ _ h (charges l above room most) = most
  Served-limit b _ _ h (discharges l above room most) = ground (arith, h, above)
  Served-limit b _ _ h (stands_by above) = ground (arith, h, above)

  pub Served-Settled :
      (b : Bank F) (current mode after : String) (held listed : Bool) (l : ℤ)
      → Served b mode l
      → listed ≡ is_below_floor b
      → after ≡ (if listed then current else if held then guarded_mode mode current else mode)
      → Settled b current held listed after l
  unfolding guarded_mode
  Served-Settled b current mode after held true l served is_listed is_after =
      rw is_after (lists l (sym is_listed) (Served-limit b mode l (sym is_listed) served))
  Served-Settled b current mode after held false l served is_listed is_after =
      elim (Bool-cases (held && flips current mode)) [
        | inl e ↦
            let same : after ≡ current = ground (arith, is_after, e) in
            rw same (holds mode l (sym is_listed) e served)
        | inr e ↦
            let same : after ≡ mode = ground (arith, is_after, e) in
            rw same (sets mode l (sym is_listed) e served)
      ]

  abbrev pub mode_of : BudgetInput F → String → String
  mode_of inp id = get id "" inp.bat_modes
