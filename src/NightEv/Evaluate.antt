-- ===== src/NightEv/Evaluate.antt =====
-- core/ev_night_controller.py: `evaluate`, and how the control cycle keeps its state.
use carma_box_v.Base.{ℕ, Bool, not, ◌&&◌, ◌||◌, List, [], ◌∷◌, ltb, leb, if◌then◌else◌}
use carma_box_v.Base.Int.{ℤ, pos, ◌+ℤ◌, ◌-ℤ◌, ltb_ℤ, eqb_ℤ}
use carma_box_v.Base.Floats.{Float, ge, gt}
use carma_box_v.Models.{Ev, start_ev_charging, stop_ev_charging, set_ev_current, nothing, int}
use carma_box_v.Executor.Types.{Command}

-- `NightEVConfig`.
pub record NightConfig (F : Type 0) : Type 0 where
  pub night_start_hour : ℕ
  pub night_end_hour : ℕ
  pub start_amps : ℤ
  pub max_amps : ℤ
  pub min_amps : ℤ
  pub ramp_step_amps : ℤ
  pub ramp_interval_s : ℤ
  pub tak_weighted_kw : F
  pub grid_safety_margin_up : F
  pub grid_safety_margin_down : F

-- `NightEVState` and `NightEVDecision`, without the reasons.
pub record NightState (F : Type 0) : Type 0 where
  pub current_amps : ℤ
  pub last_ramp_ts : F

pub record NightDecision (F : Type 0) : Type 0 where
  pub commands : List (Command F)
  pub new_amps : ℤ

-- The arguments of one cycle; `now` by its hour and its timestamp.
pub record NightInput (F : Type 0) : Type 0 where
  pub hour : ℕ
  pub timestamp : F
  pub ev : Ev F
  pub grid_weighted_kw : F
  pub target_soc_pct : F

module _ {F : Type 0} where
  abbrev pub start_cmd : Command F
  start_cmd = record {
    command_type = start_ev_charging;
    target_id = "ev";
    value = nothing;
    rule_id = "NIGHT_EV";
  }

  abbrev pub stop_cmd : Command F
  stop_cmd = record {
    command_type = stop_ev_charging;
    target_id = "ev";
    value = nothing;
    rule_id = "NIGHT_EV";
  }

  abbrev pub set_current_cmd : ℤ → Command F
  set_current_cmd amps = record {
    command_type = set_ev_current;
    target_id = "ev";
    value = int amps;
    rule_id = "NIGHT_EV";
  }

  abbrev pub decision : List (Command F) → ℤ → NightDecision F
  decision cmds amps = record { commands = cmds; new_amps = amps }

module _ {F : Type 0} ⦃f : Float F⦄ (cfg : NightConfig F) where
  open f use {lt, sub, mul, of_int, lit}

  unfoldable pub in_night_window : ℕ → Bool
  in_night_window h =
      if ltb cfg.night_start_hour cfg.night_end_hour
      then leb cfg.night_start_hour h && ltb h cfg.night_end_hour
      else leb cfg.night_start_hour h || ltb h cfg.night_end_hour

  unfoldable pub at_or_above_target : F → F → Bool
  at_or_above_target ev_soc target = ge ev_soc (sub target (lit 5 1))

  abbrev is_active : NightState F → NightInput F → Bool
  is_active s i = i.ev.charging || ltb_ℤ (pos 0) s.current_amps

  -- A stop, and no current.
  abbrev pub stop_if : Bool → NightDecision F
  stop_if b = if b then decision (stop_cmd ∷ []) (pos 0) else decision [] (pos 0)

  unfoldable pub ramp_within : NightState F → NightInput F → NightDecision F
  ramp_within s i =
      let threshold_up = mul cfg.tak_weighted_kw cfg.grid_safety_margin_up in
      let threshold_down = mul cfg.tak_weighted_kw cfg.grid_safety_margin_down in
      let down = s.current_amps -ℤ cfg.ramp_step_amps in
      let up = s.current_amps +ℤ cfg.ramp_step_amps in
      if gt i.grid_weighted_kw threshold_down && ltb_ℤ cfg.min_amps s.current_amps
      then decision (set_current_cmd down ∷ []) down
      else if lt i.grid_weighted_kw threshold_up && ltb_ℤ s.current_amps cfg.max_amps
      then decision (set_current_cmd up ∷ []) up
      else decision [] s.current_amps

  unfoldable pub charge_ev : NightState F → NightInput F → NightDecision F
  charge_ev s i =
      if not i.ev.charging && eqb_ℤ s.current_amps (pos 0)
      then decision (start_cmd ∷ set_current_cmd cfg.start_amps ∷ []) cfg.start_amps
      else if lt (sub i.timestamp s.last_ramp_ts) (of_int cfg.ramp_interval_s)
      then decision [] s.current_amps
      else ramp_within s i

  unfoldable pub evaluate : NightState F → NightInput F → NightDecision F
  evaluate s i =
      if not (in_night_window i.hour)
      then stop_if (is_active s i)
      else if not i.ev.connected
      then stop_if i.ev.charging
      else if at_or_above_target i.ev.soc_pct i.target_soc_pct
      then stop_if (is_active s i)
      else charge_ev s i

  -- core/engine.py: a new current is kept, with the time of the cycle.
  unfoldable pub persist : NightState F → NightInput F → NightState F
  persist s i =
      let new_amps = (evaluate s i).new_amps in
      if eqb_ℤ new_amps s.current_amps
      then s
      else record { current_amps = new_amps; last_ramp_ts = i.timestamp }
