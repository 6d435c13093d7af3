-- ===== src/EvSurplus/Stops.antt =====
-- A lasting lack of surplus ends the charging.
use carma_box_v.Base.{
  ℕ, suc, ◌+◌, ◌≤◌, ◌≡◌, refl, ◌⊎◌, inl, inr, Bool, true, false, not, ◌&&◌, List, [], ◌∷◌, arith,
  leb, ltb, length, All, Bool-cases, if◌then◌else◌,
}
use carma_box_v.Base.Int.{ℤ, eqb_ℤ, ◌+ℤ◌, ◌-ℤ◌}
use carma_box_v.Base.Floats.{Float, gt}
use carma_box_v.Executor.Types.{Command}
use carma_box_v.Budget.Mirror.{Charger, obey}
use carma_box_v.EvSurplus.Evaluate.{
  EvSurplusConfig, EvSurplusState, EvSurplusInput, least, greatest, stop_charging, set_amps,
  min_surplus_w, try_start, is_low, count_low, surplus_ramp_down, surplus_ramp, regulate_surplus,
  wants_surplus, evaluate,
}
use carma_box_v.EvSurplus.Runs.{run_surplus}

module _ {F : Type 0} ⦃f : Float F⦄ (cfg : EvSurplusConfig F) where
  open f use {lt, neg, mul, lit}

  -- The surplus is neither enough to go on nor to start.
  abbrev pub Lacks : EvSurplusInput F → Type 0
  Lacks i = (is_low cfg i.surplus_w ≡ true) × (lt i.surplus_w (min_surplus_w cfg) ≡ true)

  -- Off, or on and at most k low cycles before a stop.
  abbrev Fades : ℕ → EvSurplusState → Type 0
  Fades k s =
      (s.is_charging ≡ false)
      ⊎ ((cfg.cloud_stop_cycles ≤ s.low_surplus_cycles + k)
          × (ltb s.low_surplus_cycles cfg.cloud_stop_cycles ≡ true))

  abbrev FadesAfter : ℕ → EvSurplusState × List (Command F) → Type 0
  FadesAfter k r = Fades k r.0

  abbrev if_Fades :
      (k : ℕ) (b : Bool) (x y : EvSurplusState × List (Command F))
      → FadesAfter k x
      → FadesAfter k y
      → FadesAfter k (if b then x else y)
  if_Fades k true x y p q = p
  if_Fades k false x y p q = q

  set_amps-Fades : (k : ℕ) (a : ℤ) (s : EvSurplusState) → Fades k s → FadesAfter k (set_amps a s)
  unfolding set_amps
  set_amps-Fades k a s h = if_Fades k (eqb_ℤ a s.current_amps) _ _ h h

  stop-Fades : (k : ℕ) → FadesAfter k stop_charging
  unfolding stop_charging
  stop-Fades k = inl refl

  ramp-Fades :
      (k : ℕ) (grid_power_w : F) (s : EvSurplusState)
      → Fades k s
      → FadesAfter k (surplus_ramp cfg grid_power_w s)
  unfolding surplus_ramp surplus_ramp_down
  ramp-Fades k grid_power_w s h =
      let up = least (s.current_amps +ℤ cfg.step_amps) cfg.max_amps in
      let down = greatest (s.current_amps -ℤ cfg.step_amps) cfg.min_amps in
      let over = gt grid_power_w (mul cfg.ramp_down_import_threshold_w (lit 2 0)) in
      let stop = if_Fades k (eqb_ℤ s.current_amps cfg.min_amps && over) _ _ (stop-Fades k) h in
      let lower =
        if_Fades k (not (eqb_ℤ down s.current_amps)) _ _ (set_amps-Fades k down s h) stop in
      if_Fades k (lt grid_power_w (neg cfg.ramp_up_export_threshold_w)) _ _
        (set_amps-Fades k up s h)
        (if_Fades k (gt grid_power_w cfg.ramp_down_import_threshold_w) _ _ lower h)

  regulate_surplus-Fades :
      (k : ℕ) (surplus_w grid_power_w : F) (s : EvSurplusState)
      → is_low cfg surplus_w ≡ true
      → s.is_charging ≡ true
      → Fades (suc k) s
      → FadesAfter k (regulate_surplus cfg surplus_w grid_power_w s)
  unfolding regulate_surplus count_low
  regulate_surplus-Fades k surplus_w grid_power_w s low on h =
      let counted = count_low cfg surplus_w s in
      elim (Bool-cases
        (is_low cfg surplus_w && leb cfg.cloud_stop_cycles counted.low_surplus_cycles)) [
          | inl e ↦ simp e (stop-Fades k)
          | inr e ↦
              let next : Fades k counted = elim h [
                | inl off ↦ inl off
                | inr (most, few) ↦ inr (ground (arith, low), ground (arith, low, e))
              ] in
              simp e (ramp-Fades k grid_power_w counted next)
        ]

  evaluate-Fades :
      (k : ℕ) (i : EvSurplusInput F) (s : EvSurplusState)
      → Lacks i
      → Fades (suc k) s
      → FadesAfter k (evaluate cfg i s)
  unfolding evaluate try_start
  evaluate-Fades k i s lacks h = elim (Bool-cases s.is_charging) [
    | inl on ↦
        if_Fades k (not (wants_surplus cfg i)) _ _ (simp on (stop-Fades k))
          (simp on (regulate_surplus-Fades k i.surplus_w i.grid_power_w s lacks.0 on h))
    | inr off ↦
        if_Fades k (not (wants_surplus cfg i)) _ _ (simp off (inl refl))
          (simp (off, lacks.1) (inl refl))
  ]

  run_surplus-Fades :
      (is : List (EvSurplusInput F)) (s : EvSurplusState) (ch : Charger)
      → All Lacks is
      → Fades (length is) s
      → Fades 0 (run_surplus cfg is s ch).0
  unfolding run_surplus
  run_surplus-Fades [] s ch lacks h = h
  run_surplus-Fades (i ∷ is) s ch lacks h =
      let (s', cmds) = evaluate cfg i s in
      run_surplus-Fades is s' (obey cmds ch) lacks.1 (evaluate-Fades (length is) i s lacks.0 h)

  -- However the grid and the car are: as many cycles in a row as the configuration has for a stop, each
  -- with a surplus below the one to go on and below the one to start, leave the controller off, if its
  -- counter was below that number when it charged.
  pub run_surplus_stops :
      (is : List (EvSurplusInput F)) (s : EvSurplusState) (ch : Charger)
      → All Lacks is
      → (s.is_charging ≡ false) ⊎ (ltb s.low_surplus_cycles cfg.cloud_stop_cycles ≡ true)
      → cfg.cloud_stop_cycles ≤ length is
      → (run_surplus cfg is s ch).0.is_charging ≡ false
  run_surplus_stops is s ch lacks h enough =
      let start : Fades (length is) s = elim h [
        | inl off ↦ inl off
        | inr few ↦ inr (omega arith, few)
      ] in
      elim (run_surplus-Fades is s ch lacks start) [ inl off ↦ off | inr on ↦ ground (arith, on) ]
