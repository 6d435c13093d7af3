-- ===== src/Budget/Allocate.antt =====
-- core/budget.py: `allocate`.
use carma_box_v.Base.{List, [], ◌++◌, Option, none, some, String, if◌then◌else◌}
use carma_box_v.Base.Int.{ℤ}
use carma_box_v.Base.Floats.{Float}
use carma_box_v.ZeroGrid.Types.{ZeroGridPlan}
use carma_box_v.Budget.Tuner.{tune_grid_delta, push_sample, avg}
use carma_box_v.Budget.Types.{BudgetConfig, BudgetInput, BudgetState, BudgetResult, BudgetReads}
use carma_box_v.Budget.Facts.{is_daytime, available_surplus_w, count_cycles, push_reading, median}
use carma_box_v.Budget.Batteries.{
  zero_grid_plan, tuned_alloc, discharge_sum, apply_mode_change_guard, bat_commands,
}
use carma_box_v.Budget.Charger.{ev_target_of, ev_commands, note_ev}
use carma_box_v.Budget.Cascade.{cascade_consumers}

infixl 5 ◌>>=◌
abbrev ◌>>=◌ : {A B : Type 0} → Option A → (A → Option B) → Option B
none >>= k = none
some a >>= k = k a

module _ {F : Type 0} ⦃f : Float F⦄ (cfg : BudgetConfig F) where
  -- The counters, the readings and the samples with the new reading of the grid.
  unfoldable pub observe : BudgetReads F → BudgetInput F → BudgetState F → BudgetState F
  observe reads inp s =
      let counted = count_cycles inp.grid_power_w s in
      record counted {
        grid_history_w =
            push_reading cfg.grid_smoothing_window inp.grid_power_w counted.grid_history_w;
        grid_rolling =
            push_sample reads.at_sample inp.grid_power_w cfg.grid_tuner.rolling_window_s
              counted.grid_rolling;
      }

  -- The commands, the result and the state of a cycle, from the plan for the batteries, their limits
  -- and the state with the new reading.
  unfoldable pub conclude :
      BudgetReads F
      → BudgetInput F
      → ZeroGridPlan
      → List (String × ℤ)
      → BudgetState F
      → BudgetState F × BudgetResult F
  conclude reads inp plan bat_alloc s =
      let ev_target = ev_target_of cfg inp (available_surplus_w inp) s in
      let targets = apply_mode_change_guard cfg plan.modes inp.bat_modes (avg s.grid_rolling) in
      let (last_switch, switched) = cascade_consumers cfg inp bat_alloc reads.at_cascade s in
      (
        record (note_ev (is_daytime inp.hour) ev_target s) {
          consumer_last_switch_ts = last_switch;
        },
        record {
          commands =
              (if is_daytime inp.hour then ev_commands ev_target s else [])
              ++ (bat_commands targets inp.bat_modes plan.emergency_recovery bat_alloc ++ switched);
          ev_target_amps = ev_target;
          bat_allocations = bat_alloc;
          bat_discharge_w = discharge_sum plan bat_alloc;
          emergency_recovery = plan.emergency_recovery;
        },
      )

  -- `allocate`, none for an exception: without the state that it leaves then.
  unfoldable pub allocate :
      BudgetReads F → BudgetInput F → BudgetState F → Option (BudgetState F × BudgetResult F)
  allocate reads inp state = do
    let s = observe reads inp state
    grid_smoothed_w ← median s.grid_history_w
    plan ← zero_grid_plan cfg inp grid_smoothed_w
    tune_delta ← tune_grid_delta inp.grid_power_w cfg.grid_tuner
    some (conclude reads inp plan (tuned_alloc cfg plan tune_delta) s)
