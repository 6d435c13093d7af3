-- ===== src/EvSurplus/Runs.antt =====
-- Runs of the controller: its current and its counter, the charger that obeys it, and when it stops.
use carma_box_v.Base.{
  ◌≡◌, refl, inl, inr, Bool, true, false, not, ◌&&◌, List, [], ◌∷◌, arith, leb, ltb, Bool-cases,
  if◌then◌else◌,
}
use carma_box_v.Base.Int.{ℤ, pos, ◌+ℤ◌, ◌-ℤ◌, leb_ℤ, eqb_ℤ}
use carma_box_v.Base.Floats.{Float, gt}
use carma_box_v.Executor.Types.{Command}
use carma_box_v.Budget.Mirror.{Charger, obey}
use carma_box_v.EvSurplus.Evaluate.{
  EvSurplusConfig, EvSurplusState, EvSurplusInput, idle_state, least, greatest, stop_charging,
  set_amps, min_surplus_w, try_start, is_low, count_low, surplus_ramp_down, surplus_ramp,
  regulate_surplus, wants_surplus, evaluate,
}

module _ {F : Type 0} ⦃f : Float F⦄ (cfg : EvSurplusConfig F) where
  open f use {lt, neg}

  -- 0 <= `step_amps`, `min_amps` <= `max_amps`, and a stop after one low cycle or more.
  abbrev pub IsSound : Type 0
  IsSound =
      (leb_ℤ (pos 0) cfg.step_amps ≡ true)
      × (leb_ℤ cfg.min_amps cfg.max_amps ≡ true)
      × (leb 1 cfg.cloud_stop_cycles ≡ true)

  -- While it charges, the current is within the charger's range and fewer cycles in a row than those
  -- for a stop were low; else both are 0. The charger is enabled and set accordingly.
  abbrev pub Holds : EvSurplusState → Charger → Type 0
  Holds s ch =
      (ch.enabled ≡ s.is_charging)
      × (s.is_charging ≡ true
          → (ch.amps ≡ s.current_amps)
            × (leb_ℤ cfg.min_amps s.current_amps ≡ true)
            × (leb_ℤ s.current_amps cfg.max_amps ≡ true)
            × (ltb s.low_surplus_cycles cfg.cloud_stop_cycles ≡ true))
      × (s.is_charging ≡ false → s ≡ idle_state)

  abbrev HoldsAfter : Charger → EvSurplusState × List (Command F) → Type 0
  HoldsAfter ch r = Holds r.0 (obey r.1 ch)

  stop_charging-Holds : (ch : Charger) → HoldsAfter ch stop_charging
  unfolding stop_charging
  stop_charging-Holds ch = (refl, (λ on. ground arith), (λ off. refl))

  abbrev if_Holds :
      (ch : Charger) (b : Bool) (x y : EvSurplusState × List (Command F))
      → HoldsAfter ch x
      → HoldsAfter ch y
      → HoldsAfter ch (if b then x else y)
  if_Holds ch true x y p q = p
  if_Holds ch false x y p q = q

  module _ (s : EvSurplusState) (ch : Charger) (sound : IsSound) (on : s.is_charging ≡ true)
      (h : Holds s ch) where
    set_amps-Holds :
        (new_amps : ℤ)
        → leb_ℤ cfg.min_amps new_amps ≡ true
        → leb_ℤ new_amps cfg.max_amps ≡ true
        → HoldsAfter ch (set_amps new_amps s)
    unfolding set_amps
    set_amps-Holds new_amps low high = elim (Bool-cases (eqb_ℤ new_amps s.current_amps)) [
      | inl same ↦ simp same h
      | inr other ↦
          let (amps, least_ok, most_ok, few) = h.1 on in
          simp other (h.0, (λ c. (refl, low, high, few)), (λ off. ground (arith, on, off)))
    ]

    up_within : leb_ℤ cfg.min_amps (least (s.current_amps +ℤ cfg.step_amps) cfg.max_amps) ≡ true
    unfolding ◌+ℤ◌
    up_within = let b = h.1 on in ground (arith, sound, b)

    down_within :
        leb_ℤ (greatest (s.current_amps -ℤ cfg.step_amps) cfg.min_amps) cfg.max_amps ≡ true
    unfolding ◌-ℤ◌
    down_within = let b = h.1 on in ground (arith, sound, b)

    ramp_down-Holds : (grid_power_w : F) → HoldsAfter ch (surplus_ramp_down cfg grid_power_w s)
    unfolding surplus_ramp_down
    ramp_down-Holds grid_power_w =
        let new_amps = greatest (s.current_amps -ℤ cfg.step_amps) cfg.min_amps in
        if_Holds ch (not (eqb_ℤ new_amps s.current_amps)) _ _
          (set_amps-Holds new_amps (ground arith) down_within)
          (if_Holds ch _ _ _ (stop_charging-Holds ch) h)

    ramp-Holds : (grid_power_w : F) → HoldsAfter ch (surplus_ramp cfg grid_power_w s)
    unfolding surplus_ramp
    ramp-Holds grid_power_w =
        if_Holds ch (lt grid_power_w (neg cfg.ramp_up_export_threshold_w)) _ _
          (set_amps-Holds (least (s.current_amps +ℤ cfg.step_amps) cfg.max_amps) up_within
            (ground arith))
          (if_Holds ch (gt grid_power_w cfg.ramp_down_import_threshold_w) _ _
            (ramp_down-Holds grid_power_w) h)

  regulate_surplus-Holds :
      (surplus_w grid_power_w : F) (s : EvSurplusState) (ch : Charger)
      → IsSound
      → s.is_charging ≡ true
      → Holds s ch
      → HoldsAfter ch (regulate_surplus cfg surplus_w grid_power_w s)
  unfolding regulate_surplus count_low
  regulate_surplus-Holds surplus_w grid_power_w s ch sound on h =
      let counted = count_low cfg surplus_w s in
      let (amps, low, high, few) = h.1 on in
      elim (Bool-cases
        (is_low cfg surplus_w && leb cfg.cloud_stop_cycles counted.low_surplus_cycles)) [
          | inl e ↦ simp e (stop_charging-Holds ch)
          | inr e ↦
              let held : Holds counted ch =
                (h.0, (λ c. (amps, low, high, ground arith)), (λ off. ground (arith, on, off))) in
              simp e (ramp-Holds counted ch sound on held grid_power_w)
        ]

  try_start-Holds :
      (surplus_w : F) (s : EvSurplusState) (ch : Charger)
      → IsSound
      → Holds s ch
      → HoldsAfter ch (try_start cfg surplus_w s)
  unfolding try_start
  try_start-Holds surplus_w s ch sound h =
      if_Holds ch (lt surplus_w (min_surplus_w cfg)) _ _ h
        (refl, (λ on. (refl, ground arith, sound.1, ground (arith, sound))), (λ off. ground arith))

  evaluate-Holds :
      (i : EvSurplusInput F) (s : EvSurplusState) (ch : Charger)
      → IsSound
      → Holds s ch
      → HoldsAfter ch (evaluate cfg i s)
  unfolding evaluate
  evaluate-Holds i s ch sound h =
      if_Holds ch (not (wants_surplus cfg i)) _ _
        (if_Holds ch s.is_charging _ _ (stop_charging-Holds ch) h)
        (elim (Bool-cases s.is_charging) [
          | inl on ↦ simp on (regulate_surplus-Holds i.surplus_w i.grid_power_w s ch sound on h)
          | inr off ↦ simp off (try_start-Holds i.surplus_w s ch sound h)
        ])

  -- The cycles of a run, and a charger through their commands.
  unfoldable pub run_surplus :
      List (EvSurplusInput F) → EvSurplusState → Charger → EvSurplusState × Charger
  run_surplus [] s ch = (s, ch)
  run_surplus (i ∷ is) s ch = let (s', cmds) = evaluate cfg i s in run_surplus is s' (obey cmds ch)

  -- For steps of 0 A or more, a range min <= max and a stop after one low cycle or more: over every
  -- run, while the controller charges, the charger that obeys it is enabled at the current that the
  -- controller keeps, which is within the range, and fewer cycles in a row were low than those for a
  -- stop; while it does not, the charger is off and the state is that of a new controller.
  pub run_surplus-Holds :
      IsSound
      → (is : List (EvSurplusInput F)) (s : EvSurplusState) (ch : Charger) → Holds s ch
      → let (s', ch') = run_surplus is s ch in Holds s' ch'
  unfolding run_surplus
  run_surplus-Holds sound [] s ch h = h
  run_surplus-Holds sound (i ∷ is) s ch h =
      let (s', cmds) = evaluate cfg i s in
      run_surplus-Holds sound is s' (obey cmds ch) (evaluate-Holds i s ch sound h)
