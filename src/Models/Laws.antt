-- ===== src/Models/Laws.antt =====
-- What `effective_min_soc` promises.
use carma_box_v.Base.{◌≡◌, ◌↔◌, true, arith}
use carma_box_v.Base.Floats.{Float, IsOrdered}
use carma_box_v.Models.{
  Scenario, same_scenario, EmsMode, same_mode, MinSocConfig, effective_min_soc, floor_of_temp,
  raise_for_soh,
}

-- The tests between enum members decide equality.
pub same_scenario_iff : (s t : Scenario) → (same_scenario s t ≡ true) ↔ (s ≡ t)
unfolding same_scenario
same_scenario_iff s t = ground arith

pub same_mode_iff : (m n : EmsMode) → (same_mode m n ≡ true) ↔ (m ≡ n)
unfolding same_mode
same_mode_iff m n = ground arith

module _ {F : Type 0} ⦃f : Float F⦄ where
  -- A configuration whose floors rise as it gets colder, and whose raises keep the order of the
  -- floors and of each other, as finite raises 0 <= warn <= crit do.
  pub record IsCoherent (cfg : MinSocConfig F) : Type 0 where
    pub cold_up : f.le cfg.normal_floor_pct cfg.cold_floor_pct ≡ true
    pub freeze_up : f.le cfg.cold_floor_pct cfg.freeze_floor_pct ≡ true
    pub refl_of : f.le cfg.normal_floor_pct cfg.normal_floor_pct ≡ true
    pub crit_mono :
        (x y : F)
        → f.le x y ≡ true
        → f.le (f.add x cfg.soh_crit_raise_pct) (f.add y cfg.soh_crit_raise_pct) ≡ true
    pub warn_mono :
        (x y : F)
        → f.le x y ≡ true
        → f.le (f.add x cfg.soh_warn_raise_pct) (f.add y cfg.soh_warn_raise_pct) ≡ true
    pub warn_up : (x : F) → f.le x x ≡ true → f.le x (f.add x cfg.soh_warn_raise_pct) ≡ true
    pub crit_up :
        (x : F)
        → f.le x x ≡ true
        → f.le (f.add x cfg.soh_warn_raise_pct) (f.add x cfg.soh_crit_raise_pct) ≡ true

  module _ (laws : IsOrdered f) (cfg : MinSocConfig F) (ok : IsCoherent cfg) where
    floor_of_temp_mono :
        (s t : F) → f.le s t ≡ true → f.le (floor_of_temp t cfg) (floor_of_temp s cfg) ≡ true
    unfolding floor_of_temp
    floor_of_temp_mono s t h = ground (
      arith,
      laws.le_lt_trans s t cfg.freeze_temp_c h,
      laws.le_lt_trans s t cfg.cold_temp_c h,
      laws.le_trans cfg.normal_floor_pct cfg.cold_floor_pct cfg.freeze_floor_pct ok.cold_up
          ok.freeze_up,
      laws.le_refl cfg.cold_floor_pct cfg.freeze_floor_pct ok.freeze_up,
    )

    raise_for_soh_mono :
        (h k x y : F)
        → f.le h k ≡ true
        → f.le x y ≡ true
        → f.le (raise_for_soh k cfg x) (raise_for_soh h cfg y) ≡ true
    unfolding raise_for_soh
    raise_for_soh_mono h k x y hk xy =
        let (xx, yy) = laws.le_refl x y xy in
        let warn = ok.warn_mono x y xy in
        let up = ok.warn_up y yy in
        let over = laws.le_trans x y (f.add y cfg.soh_warn_raise_pct) xy up in
        ground (
          arith,
          laws.le_lt_trans h k cfg.soh_crit_pct hk,
          laws.le_lt_trans h k cfg.soh_warn_pct hk,
          ok.crit_mono x y xy,
          laws.le_trans (f.add x cfg.soh_warn_raise_pct) (f.add y cfg.soh_warn_raise_pct)
              (f.add y cfg.soh_crit_raise_pct) warn (ok.crit_up y yy),
          laws.le_trans x (f.add y cfg.soh_warn_raise_pct) (f.add y cfg.soh_crit_raise_pct) over
              (ok.crit_up y yy),
        )

    -- Under a coherent configuration and ordered floats, a battery that is colder and in worse health
    -- never has the lower floor.
    pub effective_min_soc_mono :
        (s t h k : F)
        → f.le s t ≡ true
        → f.le h k ≡ true
        → f.le (effective_min_soc t k cfg) (effective_min_soc s h cfg) ≡ true
    unfolding effective_min_soc
    effective_min_soc_mono s t h k st hk =
        raise_for_soh_mono h k (floor_of_temp t cfg) (floor_of_temp s cfg) hk
          (floor_of_temp_mono s t st)
