-- ===== src/EvSurplus/Evaluate.antt =====
-- core/ev_surplus.py: `EVSurplusController`.
use carma_box_v.Base.{ℕ, ◌+◌, Bool, true, false, not, ◌&&◌, List, [], ◌∷◌, leb, if◌then◌else◌}
use carma_box_v.Base.Int.{ℤ, pos, ◌+ℤ◌, ◌-ℤ◌, ◌*ℤ◌, ltb_ℤ, eqb_ℤ}
use carma_box_v.Base.Floats.{Float, ge, gt}
use carma_box_v.Models.{
  CommandType, Value, start_ev_charging, stop_ev_charging, set_ev_current, nothing, int,
}
use carma_box_v.Executor.Types.{Command}

pub record EvSurplusConfig (F : Type 0) : Type 0 where
  pub min_amps : ℤ
  pub max_amps : ℤ
  pub phases : ℤ
  pub voltage_v : ℤ
  pub step_amps : ℤ
  pub ramp_up_export_threshold_w : F
  pub ramp_down_import_threshold_w : F
  pub cloud_stop_surplus_w : F
  pub cloud_stop_cycles : ℕ

pub record EvSurplusState : Type 0 where
  pub current_amps : ℤ
  pub is_charging : Bool
  pub low_surplus_cycles : ℕ

-- The arguments of `evaluate`.
pub record EvSurplusInput (F : Type 0) : Type 0 where
  pub surplus_w : F
  pub grid_power_w : F
  pub ev_connected : Bool
  pub ev_soc_pct : F
  pub ev_target_soc_pct : F

-- `EVSurplusState()`, which is also what `reset` leaves.
abbrev pub idle_state : EvSurplusState
idle_state = record { current_amps = pos 0; is_charging = false; low_surplus_cycles = 0 }

-- `min(x, y)` and `max(x, y)` of ints.
abbrev pub least : ℤ → ℤ → ℤ
least x y = if ltb_ℤ y x then y else x

abbrev pub greatest : ℤ → ℤ → ℤ
greatest x y = if ltb_ℤ x y then y else x

module _ {F : Type 0} where
  abbrev pub surplus_command : CommandType → Value F → Command F
  surplus_command t value = record {
    command_type = t;
    target_id = "ev";
    value = value;
    rule_id = "EV_SURPLUS";
  }

  abbrev pub amps_command : ℤ → Command F
  amps_command amps = surplus_command set_ev_current (int amps)

  unfoldable pub stop_charging : EvSurplusState × List (Command F)
  stop_charging = (idle_state, surplus_command stop_ev_charging nothing ∷ [])

  -- A new current, with a command if it is another one.
  unfoldable pub set_amps : ℤ → EvSurplusState → EvSurplusState × List (Command F)
  set_amps new_amps s =
      if eqb_ℤ new_amps s.current_amps
      then (s, [])
      else (record s { current_amps = new_amps }, amps_command new_amps ∷ [])

module _ {F : Type 0} ⦃f : Float F⦄ (cfg : EvSurplusConfig F) where
  open f use {lt, mul, neg, of_int, lit}

  unfoldable pub min_surplus_w : F
  min_surplus_w = of_int (cfg.min_amps *ℤ cfg.phases *ℤ cfg.voltage_v)

  unfoldable pub try_start : F → EvSurplusState → EvSurplusState × List (Command F)
  try_start surplus_w s = if lt surplus_w min_surplus_w then (s, []) else (
    record { current_amps = cfg.min_amps; is_charging = true; low_surplus_cycles = 0 },
    surplus_command start_ev_charging nothing ∷ amps_command cfg.min_amps ∷ [],
  )

  unfoldable pub is_low : F → Bool
  is_low surplus_w = lt surplus_w cfg.cloud_stop_surplus_w

  unfoldable pub count_low : F → EvSurplusState → EvSurplusState
  count_low surplus_w s = record s {
    low_surplus_cycles = if is_low surplus_w then s.low_surplus_cycles + 1 else 0;
  }

  -- At the least current: a stop if the import is more than twice the threshold.
  unfoldable pub surplus_ramp_down : F → EvSurplusState → EvSurplusState × List (Command F)
  surplus_ramp_down grid_power_w s =
      let new_amps = greatest (s.current_amps -ℤ cfg.step_amps) cfg.min_amps in
      if not (eqb_ℤ new_amps s.current_amps)
      then set_amps new_amps s
      else if eqb_ℤ s.current_amps cfg.min_amps
          && gt grid_power_w (mul cfg.ramp_down_import_threshold_w (lit 2 0))
      then stop_charging
      else (s, [])

  unfoldable pub surplus_ramp : F → EvSurplusState → EvSurplusState × List (Command F)
  surplus_ramp grid_power_w s =
      if lt grid_power_w (neg cfg.ramp_up_export_threshold_w)
      then set_amps (least (s.current_amps +ℤ cfg.step_amps) cfg.max_amps) s
      else if gt grid_power_w cfg.ramp_down_import_threshold_w
      then surplus_ramp_down grid_power_w s
      else (s, [])

  unfoldable pub regulate_surplus : F → F → EvSurplusState → EvSurplusState × List (Command F)
  regulate_surplus surplus_w grid_power_w s =
      let counted = count_low surplus_w s in
      if is_low surplus_w && leb cfg.cloud_stop_cycles counted.low_surplus_cycles
      then stop_charging
      else surplus_ramp grid_power_w counted

  unfoldable pub wants_surplus : EvSurplusInput F → Bool
  wants_surplus i = i.ev_connected && not (ge i.ev_soc_pct i.ev_target_soc_pct)

  unfoldable pub evaluate : EvSurplusInput F → EvSurplusState → EvSurplusState × List (Command F)
  evaluate i s =
      if not (wants_surplus i)
      then if s.is_charging then stop_charging else (s, [])
      else if s.is_charging
      then regulate_surplus i.surplus_w i.grid_power_w s
      else try_start i.surplus_w s
