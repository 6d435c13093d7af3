-- ===== src/Cycle/Night.antt =====
-- core/engine.py: `_run_night_ev_controllers`, which runs the night controller of the car and the
-- support by the batteries, each through the executor.
use carma_box_v.Base.{is_empty, ℕ, List, Option, none, some, String, map, if◌then◌else◌}
use carma_box_v.Base.Floats.{Float, fmax, abs}
use carma_box_v.Models.{Battery, Snapshot}
use carma_box_v.ModeChange.Manager.{lookup}
use carma_box_v.Executor.Types.{Adapters, Command, Conversions, ExecutorConfig, ExecReads}
use carma_box_v.Executor.Monad.{World}
use carma_box_v.Executor.Execute.{execute}
use carma_box_v.NightEv.Evaluate.{
  NightConfig, NightState, NightInput, persist, evaluate as evaluate_night_ev,
}
use carma_box_v.BatSupport.Evaluate.{
  SupportConfig, BatInfo, SupportInput, evaluate as evaluate_support,
}
use carma_box_v.Base.Int.{pos}

-- `max_discharge_kw` of each battery that the engine has a `BatteryConfig` of.
pub record NightControl (F : Type 0) : Type 0 where
  pub night_ev_config : NightConfig F
  pub bat_support_config : Option (SupportConfig F)
  pub max_discharge_kw : List (String × F)

module _ {F : Type 0} ⦃f : Float F⦄ where
  open f use {sub, add, mul, div, lit}

  -- `NightEVState()`
  abbrev pub new_night_state : NightState F
  new_night_state = record { current_amps = pos 0; last_ramp_ts = lit 0 0 }

  abbrev pub or_new : Option (NightState F) → NightState F
  or_new none = new_night_state
  or_new (some s) = s

  unfoldable pub night_input : ℕ → F → Snapshot F → NightInput F
  night_input hour timestamp snap = record {
    hour = hour;
    timestamp = timestamp;
    ev = snap.ev;
    grid_weighted_kw = snap.grid.weighted_avg_kw;
    target_soc_pct = snap.ev.target_soc_pct;
  }

  unfoldable pub max_discharge_w : List (String × F) → String → F
  max_discharge_w limits id = elim (lookup id limits) [
    | none ↦ lit 5000 0
    | some kw ↦ mul kw (lit 1000 0)
  ]

  abbrev pub bat_info : List (String × F) → Battery F → BatInfo F
  bat_info limits b = record {
    battery_id = b.battery_id;
    soc_pct = b.soc_pct;
    cap_kwh = b.cap_kwh;
    cell_temp_c = b.cell_temp_c;
    max_discharge_w = max_discharge_w limits b.battery_id;
    current_mode = b.ems_mode;
  }

  unfoldable pub support_input : List (String × F) → Snapshot F → SupportInput F
  support_input limits snap =
      let ev_kw = div snap.ev.power_w (lit 1000 0) in
      let baseload_kw =
        fmax (lit 0 0) (sub (div (abs snap.grid.grid_power_w) (lit 1000 0)) ev_kw) in
      record {
        batteries = map (bat_info limits) snap.batteries;
        total_load_kw = add ev_kw baseload_kw;
      }

module _ {F D : Type 0} ⦃f : Float F⦄ (conv : Conversions F) (io : Adapters F D)
    (cfg : ExecutorConfig F) where
  -- `if commands: await executor.execute(commands)`
  unfoldable pub execute_some : (ℕ → ExecReads F) → List (Command F) → World F D → World F D
  execute_some reads cmds w = if is_empty cmds then w else (execute conv io cfg reads cmds w).0

  unfoldable pub run_support :
      NightControl F → (ℕ → ExecReads F) → Snapshot F → World F D → World F D
  run_support ctl reads snap w = elim ctl.bat_support_config [
    | none ↦ w
    | some support ↦
        let decision = evaluate_support support (support_input ctl.max_discharge_kw snap) in
        if is_empty snap.batteries then w else execute_some reads decision.commands w
  ]

  -- `_run_night_ev_controllers`: the readings of the clock by the executor are those for the car's
  -- commands and those for the support's; hour and timestamp are those of the snapshot's timestamp.
  unfoldable pub run_night_ev_controllers :
      NightControl F
      → (ℕ → ExecReads F)
      → (ℕ → ExecReads F)
      → ℕ
      → F
      → Snapshot F
      → Option (NightState F)
      → World F D
      → Option (NightState F) × World F D
  run_night_ev_controllers ctl ev_reads support_reads hour timestamp snap night w =
      let s = or_new night in
      let i = night_input hour timestamp snap in
      let decision = evaluate_night_ev ctl.night_ev_config s i in
      let driven = execute_some ev_reads decision.commands w in
      (some (persist ctl.night_ev_config s i), run_support ctl support_reads snap driven)
