-- ===== src/Cycle/Budget.antt =====
-- core/engine.py: `_run_budget_allocator`, which runs the allocator on a snapshot and carries out what
-- it returns. It is an operation that a cycle may have as its budget phase.
use carma_box_v.Base.{
  ℕ, ◌≡◌, refl, true, is_empty, List, [], ◌∷◌, none, some, String, map, if◌then◌else◌,
}
use carma_box_v.Base.Floats.{Float, fmax, sum}
use carma_box_v.Models.{Battery, Snapshot, mode_value}
use carma_box_v.ModeChange.Manager.{Manager, emergency_mode_change}
use carma_box_v.Dicts.{get, assign_all}
use carma_box_v.Executor.Types.{
  Outcome, returned, raised, Adapters, Conversions, ExecutorConfig, ExecReads,
}
use carma_box_v.Executor.Monad.{World}
use carma_box_v.Executor.Execute.{execute}
use carma_box_v.Budget.Types.{BudgetConfig, BudgetInput, BudgetState, BudgetResult, BudgetReads}
use carma_box_v.Budget.Allocate.{allocate}
use carma_box_v.Budget.Total.{IsUsable}
use carma_box_v.Budget.Ramp.{HasRange, IsAmps, allocate-Ramp}

-- The allocator's configuration, and `cap_kwh` of each battery that the engine has a `BatteryConfig` of.
pub record BudgetControl (F : Type 0) : Type 0 where
  pub budget_config : BudgetConfig F
  pub cap_kwh : List (String × F)

module _ {F : Type 0} ⦃f : Float F⦄ where
  open f use {add, sub, lit, trunc}

  abbrev by_id : {V : Type 0} → (Battery F → V) → Snapshot F → List (String × V)
  by_id val snap = assign_all (λ (b : Battery F). b.battery_id) val snap.batteries []

  -- The house's power, from the balance of the others; a battery that discharges has a positive power.
  unfoldable pub house_load_w : Snapshot F → F
  house_load_w snap =
      let ev_w = if snap.ev.charging then snap.ev.power_w else lit 0 0 in
      let bat_net_w = sum (map (λ (b : Battery F). b.power_w) snap.batteries) in
      fmax (lit 0 0) (sub (add (add snap.grid.grid_power_w snap.grid.pv_total_w) bat_net_w) ev_w)

  -- The snapshot's timestamp by its hour.
  unfoldable pub budget_input : BudgetControl F → ℕ → Snapshot F → BudgetInput F
  budget_input ctl hour snap = record {
    hour = hour;
    grid_power_w = snap.grid.grid_power_w;
    pv_power_w = snap.grid.pv_total_w;
    house_load_w = house_load_w snap;
    ev_connected = snap.ev.connected;
    ev_charging = snap.ev.charging;
    ev_current_amps = trunc snap.ev.current_a;
    ev_soc_pct = snap.ev.soc_pct;
    ev_target_soc_pct = snap.ev.target_soc_pct;
    bat_socs = by_id (λ b. b.soc_pct) snap;
    bat_caps = by_id (λ b. get b.battery_id ctl.budget_config.bat_default_cap_kwh ctl.cap_kwh) snap;
    bat_powers = by_id (λ b. b.power_w) snap;
    bat_modes = by_id (λ b. mode_value b.ems_mode) snap;
    pv_remaining_kwh = snap.grid.pv_forecast_today_kwh;
    house_remaining_kwh = lit 0 0;
    consumers = snap.consumers;
  }

module _ {F : Type 0} ⦃f : Float F⦄ where
  -- An emergency request for each battery below its floor.
  unfoldable pub request_emergencies : List String → Manager F → Manager F
  request_emergencies [] m = m
  request_emergencies (id ∷ ids) m =
      request_emergencies ids (emergency_mode_change id "charge_battery" true m).0

  abbrev with_requests : {D : Type 0} → List String → World F D → World F D
  with_requests ids w = record w {
    executor = record w.executor { mode_manager = request_emergencies ids w.executor.mode_manager };
  }

module _ {F D : Type 0} ⦃f : Float F⦄ (conv : Conversions F) (io : Adapters F D)
    (cfg : ExecutorConfig F) (ctl : BudgetControl F) (reads : BudgetReads F)
    (exec_reads : ℕ → ExecReads F) (hour : ℕ) where
  -- The world after the requests and the commands.
  unfoldable pub carry_out : BudgetResult F → World F D → World F D
  carry_out r w =
      let requested = with_requests r.emergency_recovery w in
      if is_empty r.commands
      then requested
      else (execute conv io cfg exec_reads r.commands requested).0

  -- `_run_budget_allocator` with a configuration, on the world and the allocator's state.
  unfoldable pub run_budget_allocator :
      Snapshot F → World F D × BudgetState F → (World F D × BudgetState F) × Outcome (Unit {0})
  run_budget_allocator snap (w, s) =
      elim (allocate ctl.budget_config reads (budget_input ctl hour snap) s) [
        | none ↦ ((w, s), raised)
        | some p ↦ ((carry_out p.1 w, p.0), returned tt)
      ]

  run_budget_allocator_lem :
      (snap : Snapshot F) (w : World F D) (s : BudgetState F) (p : BudgetState F × BudgetResult F)
      → allocate ctl.budget_config reads (budget_input ctl hour snap) s ≡ some p
      → run_budget_allocator snap (w, s) ≡ ((carry_out p.1 w, p.0), returned tt)
  unfolding run_budget_allocator
  run_budget_allocator_lem snap w s p h = simp (run_budget_allocator, h) refl

  -- With a configuration whose window holds a reading, with a first tier if the tuner is enabled, and
  -- 0 < min <= max for the charger's range, the budget phase never raises, whatever the adapters do,
  -- and keeps the current of the EV off or within that range.
  pub run_budget_allocator-IsAmps :
      (snap : Snapshot F) (w : World F D) (s : BudgetState F)
      → IsUsable ctl.budget_config
      → HasRange ctl.budget_config
      → IsAmps ctl.budget_config s.ev_current_amps
      → let (after, r) = run_budget_allocator snap (w, s) in
        (r ≡ returned tt) × IsAmps ctl.budget_config after.1.ev_current_amps
  run_budget_allocator-IsAmps snap w s u range h =
      let (p, is_result, same, amps, ramp) =
        allocate-Ramp ctl.budget_config u range reads (budget_input ctl hour snap) s h in
      rw (run_budget_allocator_lem snap w s p is_result) (refl, amps)
