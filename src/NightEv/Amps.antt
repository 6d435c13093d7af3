-- ===== src/NightEv/Amps.antt =====
-- The currents of a night: 0 A, or between the least and the most.
use carma_box_v.Base.{
  ◌≡◌, refl, ◌⊎◌, inl, inr, Bool, true, false, not, ◌&&◌, List, [], ◌∷◌, arith, All, All-append,
  ◌++◌, Bool-cases,
}
use carma_box_v.Base.Int.{ℤ, pos, ◌+ℤ◌, ◌-ℤ◌, ltb_ℤ, leb_ℤ, eqb_ℤ}
use carma_box_v.Base.Floats.{Float, gt}
use carma_box_v.Models.{CommandType, set_ev_current, Value, int}
use carma_box_v.Executor.Types.{Command}
use carma_box_v.NightEv.Evaluate.{
  NightConfig, NightState, NightInput, NightDecision, in_night_window, at_or_above_target,
  ramp_within, charge_ev, stop_if, evaluate, persist,
}

module _ {F : Type 0} ⦃f : Float F⦄ (cfg : NightConfig F) where
  open f use {lt, sub, mul, of_int}

  abbrev pub IsCurrent : ℤ → Type 0
  IsCurrent a = (leb_ℤ cfg.min_amps a ≡ true) × (leb_ℤ a cfg.max_amps ≡ true)

  abbrev pub IsSetting : ℤ → Type 0
  IsSetting a = (a ≡ pos 0) ⊎ IsCurrent a

  -- Steps of 1 A, a least current above 0 A, and a start within the limits.
  abbrev pub IsSound : Type 0
  IsSound =
      (cfg.ramp_step_amps ≡ pos 1) × (ltb_ℤ (pos 0) cfg.min_amps ≡ true) × IsCurrent cfg.start_amps

  -- A new current that a command sets is within the limits.
  abbrev CurrentIn : CommandType → Value F → Type 0
  CurrentIn set_ev_current (int a) = IsCurrent a
  CurrentIn _ _ = Unit

  abbrev pub SetsWithin : Command F → Type 0
  SetsWithin c = CurrentIn c.command_type c.value

  -- The car charges only as the controller has told it.
  abbrev pub IsTold : NightState F → NightInput F → Type 0
  IsTold s i = (i.ev.charging ≡ false) ⊎ (eqb_ℤ s.current_amps (pos 0) ≡ false)

  abbrev Within : NightDecision F → Type 0
  Within d = IsSetting d.new_amps × All SetsWithin d.commands

  down_IsCurrent : (a : ℤ) → IsCurrent a → ltb_ℤ cfg.min_amps a ≡ true → IsCurrent (a -ℤ pos 1)
  unfolding ◌-ℤ◌
  down_IsCurrent a h above = ground arith

  up_IsCurrent : (a : ℤ) → IsCurrent a → ltb_ℤ a cfg.max_amps ≡ true → IsCurrent (a +ℤ pos 1)
  unfolding ◌+ℤ◌
  up_IsCurrent a h below = ground arith

  ramp_within-Within :
      (s : NightState F) (i : NightInput F)
      → IsSound
      → IsCurrent s.current_amps
      → Within (ramp_within cfg s i)
  unfolding ramp_within
  ramp_within-Within s i sound h =
      let a = s.current_amps in
      let down = down_IsCurrent a h in
      let up = up_IsCurrent a h in
      rw sound.0
        (elim (Bool-cases (
          gt i.grid_weighted_kw (mul cfg.tak_weighted_kw cfg.grid_safety_margin_down)
          && ltb_ℤ cfg.min_amps a)) [
            | inl e ↦ let d = down (ground arith) in simp e (inr d, (d, tt))
            | inr e ↦
                elim (Bool-cases (
                  lt i.grid_weighted_kw (mul cfg.tak_weighted_kw cfg.grid_safety_margin_up)
                  && ltb_ℤ a cfg.max_amps)) [
                    | inl e' ↦ let u = up (ground arith) in simp (e, e') (inr u, (u, tt))
                    | inr e' ↦ simp (e, e') (inr h, tt)
                  ]
          ])

  charge_ev-Within :
      (s : NightState F) (i : NightInput F)
      → IsSound
      → IsSetting s.current_amps
      → IsTold s i
      → Within (charge_ev cfg s i)
  unfolding charge_ev
  charge_ev-Within s i sound h told =
      elim (Bool-cases (not i.ev.charging && eqb_ℤ s.current_amps (pos 0))) [
        | inl first ↦ simp first (inr sound.2, (tt, (sound.2, tt)))
        | inr later ↦
            elim (Bool-cases (lt (sub i.timestamp s.last_ramp_ts) (of_int cfg.ramp_interval_s))) [
              | inl early ↦ simp (later, early) (h, tt)
              | inr due ↦
                  let current : IsCurrent s.current_amps = elim h [
                    | inl zero ↦ ground arith
                    | inr current ↦ current
                  ] in
                  simp (later, due) (ramp_within-Within s i sound current)
            ]
      ]

  stop_if-Within : (b : Bool) → Within (stop_if cfg b)
  stop_if-Within true = (inl refl, (tt, tt))
  stop_if-Within false = (inl refl, tt)

  evaluate-Within :
      (s : NightState F) (i : NightInput F)
      → IsSound
      → IsSetting s.current_amps
      → IsTold s i
      → Within (evaluate cfg s i)
  unfolding evaluate
  evaluate-Within s i sound h told = elim (Bool-cases (in_night_window cfg i.hour)) [
    | inl night ↦ elim (Bool-cases i.ev.connected) [
      | inl plugged ↦ elim (Bool-cases (at_or_above_target cfg i.ev.soc_pct i.target_soc_pct)) [
        | inl full ↦ simp (night, plugged, full) (stop_if-Within _)
        | inr hungry ↦ simp (night, plugged, hungry) (charge_ev-Within s i sound h told)
      ]
      | inr unplugged ↦ simp (night, unplugged) (stop_if-Within _)
    ]
    | inr day ↦ simp day (stop_if-Within _)
  ]

  -- A run of cycles: the state after it, and the commands of all its cycles.
  unfoldable pub run : NightState F → List (NightInput F) → NightState F
  run s [] = s
  run s (i ∷ is) = run (persist cfg s i) is

  unfoldable pub commands_of : NightState F → List (NightInput F) → List (Command F)
  commands_of s [] = []
  commands_of s (i ∷ is) = (evaluate cfg s i).commands ++ commands_of (persist cfg s i) is

  abbrev pub AllTold : NightState F → List (NightInput F) → Type 0
  AllTold s [] = Unit
  AllTold s (i ∷ is) = IsTold s i × AllTold (persist cfg s i) is

  persist-IsSetting :
      (s : NightState F) (i : NightInput F)
      → IsSetting s.current_amps
      → IsSetting (evaluate cfg s i).new_amps
      → IsSetting (persist cfg s i).current_amps
  unfolding persist
  persist-IsSetting s i old new =
      elim (Bool-cases (eqb_ℤ (evaluate cfg s i).new_amps s.current_amps)) [
        | inl same ↦ simp same old
        | inr changed ↦ simp changed new
      ]

  -- With ramp steps of 1 A, a least current above 0 A and a start within the limits, over every run of
  -- cycles that begins at 0 A or within the limits and in which the car charges only as it has been
  -- told: the current kept is 0 A or within the limits, and every current that a command sets is within
  -- them.
  pub run-IsSetting :
      (s : NightState F) (is : List (NightInput F))
      → IsSound
      → IsSetting s.current_amps
      → AllTold s is
      → IsSetting (run s is).current_amps × All SetsWithin (commands_of s is)
  unfolding run commands_of
  run-IsSetting s [] sound h told = (h, tt)
  run-IsSetting s (i ∷ is) sound h (told, rest) =
      let (set, within) = evaluate-Within s i sound h told in
      let (last, later) =
        run-IsSetting (persist cfg s i) is sound (persist-IsSetting s i h set) rest in
      (last, All-append SetsWithin _ _ within later)
