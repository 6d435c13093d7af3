-- ===== src/Budget/Served.antt =====
-- What a cycle of the allocator does to each battery: its mode, its limit and its recovery.
use carma_box_v.Base.{
  ◌≡◌, sym, ap, ◌∙◌, List, [], ◌++◌, none, some, String, In, contains, if◌then◌else◌,
}
use carma_box_v.Base.Int.{ℤ}
use carma_box_v.Base.Floats.{Float, IsOrdered}
use carma_box_v.ModeChange.Manager.{lookup}
use carma_box_v.ModeChange.Table.{IsDict}
use carma_box_v.Dicts.Fill.{DistinctBy}
use carma_box_v.ZeroGrid.Types.{ZeroGridPlan}
use carma_box_v.ZeroGrid.Safety.{IsSigned}
use carma_box_v.ZeroGrid.Contract.{plan_zero_grid-IsPlanned}
use carma_box_v.Budget.Types.{BudgetConfig, BudgetInput, BudgetState, BudgetResult, BudgetReads}
use carma_box_v.Budget.Tuner.{avg}
use carma_box_v.Budget.Facts.{is_daytime, available_surplus_w}
use carma_box_v.Budget.Batteries.{
  snapshot_of, zg_bats, zg_limits, default_limits, zg_tuning, zero_grid_plan, set_limit_command,
  bat_commands, tuned_alloc, guarded_mode, guard_holds, apply_mode_change_guard,
}
use carma_box_v.Budget.Charger.{ev_target_of, ev_commands}
use carma_box_v.Budget.Cascade.{cascade_consumers}
use carma_box_v.Budget.Allocate.{observe, conclude, allocate}
use carma_box_v.Budget.Total.{IsUsable, allocate_total, zg_limits-lookup, zg_bats-HasLimits}
use carma_box_v.Budget.Limits.{HasDefaultCaps, tuned_alloc-Tuned}
use carma_box_v.Budget.Planned.{
  In-map, from_some, zg_bats-DistinctBy, plan-IsDict, plan-emergency_recovery,
}
use carma_box_v.Budget.Written.{In-append_l, In-append_r, limit_written}
use carma_box_v.Budget.Settled.{Settled, bank_of, mode_of, Tuned-Served, Served-Settled}
use carma_box_v.Budget.Modes.{
  mode_after, mode_after-append, mode_after-ev_commands, mode_after-current, mode_after-cascade,
  target-guarded,
}

module _ {F : Type 0} ⦃f : Float F⦄ (cfg : BudgetConfig F) where
  -- The mode after all the commands of a cycle.
  conclude_mode :
      (reads : BudgetReads F) (inp : BudgetInput F) (plan : ZeroGridPlan)
      (alloc : List (String × ℤ)) (s : BudgetState F) (id mode : String) (limit : ℤ)
      → IsDict plan.modes
      → lookup id plan.modes ≡ some mode
      → lookup id alloc ≡ some limit
      → mode_after id (mode_of cfg inp id) (conclude cfg reads inp plan alloc s).1.commands ≡ (
          if contains id plan.emergency_recovery
          then mode_of cfg inp id
          else if guard_holds cfg (avg s.grid_rolling)
          then guarded_mode mode (mode_of cfg inp id)
          else mode)
  unfolding conclude
  conclude_mode reads inp plan alloc s id mode limit d l is_limit =
      let current = mode_of cfg inp id in
      let bad = plan.emergency_recovery in
      let targets = apply_mode_change_guard cfg plan.modes inp.bat_modes (avg s.grid_rolling) in
      let t = ev_target_of cfg inp (available_surplus_w inp) s in
      let of_ev = if is_daytime inp.hour then ev_commands t s else [] in
      let of_bats = bat_commands {F = F} targets inp.bat_modes bad alloc in
      let of_loads = (cascade_consumers cfg inp alloc reads.at_cascade s).1 in
      mode_after-append id current of_ev (of_bats ++ of_loads)
      ∙ ap (λ m. mode_after id m (of_bats ++ of_loads))
          (mode_after-ev_commands id current (is_daytime inp.hour) t s)
      ∙ mode_after-append id current of_bats of_loads
      ∙ mode_after-cascade cfg inp alloc reads.at_cascade s id (mode_after id current of_bats)
      ∙ mode_after-current targets inp.bat_modes bad id F limit alloc is_limit
      ∙ ap (λ m. if contains id bad then current else m)
          (target-guarded cfg plan.modes inp.bat_modes (avg s.grid_rolling) id mode d l)

  module _ (laws : IsOrdered f) (signs : IsSigned f) (u : IsUsable cfg)
      (caps : HasDefaultCaps cfg) where
    -- If the allocator's window holds a reading, an enabled tuner has a first tier and the default caps
    -- are not negative, then a cycle on batteries with distinct ids returns, for floats with the laws
    -- of the order and of signs. For each battery it emits a limit, also after the tuner within the cap
    -- of the mode that it is for. A battery below its floor is listed for emergency recovery, its limit
    -- is within the cap for charging, and the cycle's commands leave its mode as it is. Any other is
    -- not listed, and the commands leave it in the mode that its limit is for: charging only below the
    -- stop's SoC, discharging only above the floor with its buffer, or standby at 0 W. Only where the
    -- tuner's guard holds, that mode is not its current one, and neither is standby, it stays in its
    -- current mode.
    pub allocate-Served :
        (reads : BudgetReads F) (inp : BudgetInput F) (s : BudgetState F) (entry : String × F)
        → DistinctBy (λ (e : String × F). e.0) inp.bat_socs
        → In entry inp.bat_socs
        → (p : BudgetState F × BudgetResult F) × (allocate cfg reads inp s ≡ some p)
          × (limit : ℤ) × In (set_limit_command entry.0 limit) p.1.commands
          × (lookup entry.0 p.1.bat_allocations ≡ some limit)
          × Settled cfg
              (bank_of cfg inp entry)
              (mode_of cfg inp entry.0)
              (guard_holds cfg (avg (observe cfg reads inp s).grid_rolling))
              (contains entry.0 p.1.emergency_recovery)
              (mode_after entry.0 (mode_of cfg inp entry.0) p.1.commands)
              limit
    unfolding conclude zero_grid_plan
    allocate-Served reads inp s entry d m =
        let c = allocate_total cfg u reads inp s in
        let alloc = tuned_alloc cfg c.plan c.tune_delta in
        let seen = observe cfg reads inp s in
        let p = conclude cfg reads inp c.plan alloc seen in
        let current = mode_of cfg inp entry.0 in
        let (plan, is_plan, planned) =
          plan_zero_grid-IsPlanned (zg_limits cfg inp.bat_socs) laws signs (zg_tuning cfg) none
            c.smoothed_w (zg_bats cfg inp) (snapshot_of cfg inp entry) (default_limits cfg)
            (zg_bats-DistinctBy cfg inp d) (zg_bats-HasLimits cfg inp)
            (In-map (snapshot_of cfg inp) entry inp.bat_socs m)
            (zg_limits-lookup cfg entry inp.bat_socs m) caps in
        let (mode, limit, is_mode, is_limit, allowed, flagged) = planned in
        let same : plan ≡ c.plan = ap (from_some c.plan) (sym is_plan ∙ c.is_plan) in
        let is_dict = plan-IsDict cfg inp c.smoothed_w c.plan c.is_plan in
        let mode_there : lookup entry.0 c.plan.modes ≡ some mode = rw⁻¹ same is_mode in
        let (new, is_new, tuned) =
          tuned_alloc-Tuned cfg caps c.plan entry.0 mode limit c.tune_delta is_dict mode_there
            (rw⁻¹ same is_limit) in
        (
          p,
          c.is_result,
          new,
          In-append_r (set_limit_command entry.0 new) _ _ (
              In-append_l _ _ _ (
                limit_written F _ inp.bat_modes c.plan.emergency_recovery entry.0 new alloc
                  is_new)),
          is_new,
          Served-Settled cfg (bank_of cfg inp entry) current mode
              (mode_after entry.0 current p.1.commands) (guard_holds cfg (avg seen.grid_rolling))
              (contains entry.0 c.plan.emergency_recovery) new
              (Tuned-Served cfg (snapshot_of cfg inp entry) mode limit new allowed tuned)
              (plan-emergency_recovery cfg inp c.smoothed_w c.plan c.is_plan entry d m)
              (conclude_mode reads inp c.plan alloc seen entry.0 mode new is_dict mode_there
                is_new),
        )
