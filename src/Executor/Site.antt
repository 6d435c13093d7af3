-- ===== src/Executor/Site.antt =====
-- Guards on a site whose inverters do what they are told: which mode each ends in.
use carma_box_v.Base.{
  ℕ, suc, ◌≡◌, refl, inl, inr, Bool, true, false, List, [], ◌∷◌, Option, none, some, String, arith,
  contains, All, In, if◌then◌else◌, Bool-cases, str_eq, eq_iff,
}
use carma_box_v.Base.Int.{ℤ}
use carma_box_v.Base.Floats.{Float}
use carma_box_v.Models.{Battery, CommandType}
use carma_box_v.Guards.Types.{GuardCommand, GuardConfig, GuardInput, GuardState, ClockReads}
use carma_box_v.Guards.Evaluate.{evaluate}
use carma_box_v.Guards.Floor.{Distinct}
use carma_box_v.Guards.Modes.{written, or_else, last_mode, final_mode, evaluate-final_mode}
use carma_box_v.Executor.Types.{
  Outcome, returned, raised, Command, Adapters, Conversions, ExecutorConfig, ExecReads,
  ExecutionResult,
}
use carma_box_v.Executor.Monad.{World, caught}
use carma_box_v.Executor.Texts.{WritesText, evaluate-WritesText}
use carma_box_v.Executor.Handlers.{
  dispatch, handle, exec_set_ems_power_limit, exec_set_fast_charging, exec_set_ev_current,
  exec_consumer, exec_set_export_limit, exec_climate_set_temp, exec_climate_set_mode, str_of,
}
use carma_box_v.Executor.Execute.{
  Tally, tallied, start_tally, guard_action, guard_step, guard_all, execute_guard_commands,
  is_mode_change, command_of,
}

pub record Site : Type 0 where
  pub modes : String → String
  pub limits : String → ℤ
  pub fast : String → Bool

abbrev pub overwrite : {A : Type 0} → String → A → (String → A) → String → A
overwrite id v g j = if str_eq j id then v else g j

abbrev pub done : Site → Site × Outcome Bool
done s = (s, returned true)

-- Every write takes effect and answers true.
abbrev pub obedient : {F : Type 0} → List String → List String → Adapters F Site
obedient inverters consumers = record {
  inverters = inverters;
  has_charger = true;
  consumers = consumers;
  has_api = true;
  set_ems_mode = λ id m s. done (record s { modes = overwrite id m s.modes });
  set_ems_power_limit = λ id w s. done (record s { limits = overwrite id w s.limits });
  set_fast_charging = λ id on s. done (record s { fast = overwrite id on s.fast });
  set_export_limit = λ id w s. done s;
  get_ems_mode = λ id s. returned (s.modes id);
  get_fast_charging = λ id s. returned (s.fast id);
  get_ems_power_limit = λ id s. returned (s.limits id);
  set_current = λ amps s. done s;
  start_charging = done;
  stop_charging = done;
  turn_on = λ id s. done s;
  turn_off = λ id s. done s;
  call_service = λ domain service id v s. done s;
}

abbrev pub or_mode : Option String → String → String
or_mode none m = m
or_mode (some m) _ = m

module _ {F : Type 0} ⦃f : Float F⦄ (conv : Conversions F) (inverters consumers : List String)
    (cfg : ExecutorConfig F) where
  abbrev site : Adapters F Site
  site = obedient inverters consumers

  handle-modes :
      (t : CommandType) (reads : ExecReads F) (cmd : Command F) (w : World F Site)
      → is_mode_change t ≡ false
      → (handle conv site t reads cmd w).0.device.modes ≡ w.device.modes
  unfolding handle exec_set_ems_power_limit exec_set_fast_charging exec_set_ev_current exec_consumer
      exec_set_export_limit exec_climate_set_temp exec_climate_set_mode
  handle-modes t reads cmd w h = ground arith

  guard_action_modes :
      (reads : ExecReads F) (g : GuardCommand F) (w : World F Site) (id : String)
      → WritesText g
      → contains id inverters ≡ true
      → (guard_action conv site cfg reads g w).0.device.modes id
        ≡ or_mode (written id g) (w.device.modes id)
  unfolding guard_action dispatch str_of
  guard_action_modes reads g w id t h = elim (Bool-cases (is_mode_change g.command_type)) [
    | inl is_mode ↦ rw is_mode (elim (Bool-cases (contains g.target_id inverters)) [
      | inl here ↦ rw here (ground arith)
      | inr absent ↦ rw absent (ground (arith, eq_iff id g.target_id))
    ])
    | inr other ↦
        rw (other, handle-modes g.command_type reads (command_of conv site cfg g) w other)
          (ground arith)
  ]

  caught_returns : (r : Outcome Bool) → (b : Bool) × (caught r ≡ returned b)
  caught_returns (returned b) = (b, refl)
  caught_returns raised = (false, refl)

  guard_action_returns :
      (reads : ExecReads F) (g : GuardCommand F) (w : World F Site)
      → (b : Bool) × ((guard_action conv site cfg reads g w).1 ≡ returned b)
  unfolding guard_action dispatch
  guard_action_returns reads g w = elim (Bool-cases (is_mode_change g.command_type)) [
    | inl is_mode ↦ rw is_mode (elim (Bool-cases (contains g.target_id inverters)) [
      | inl here ↦ rw here (true, refl)
      | inr absent ↦ rw absent (false, refl)
    ])
    | inr other ↦ rw other (caught_returns _)
  ]

  guard_step_returns :
      (reads : ExecReads F) (g : GuardCommand F) (t : Tally) (w : World F Site)
      → (t' : Tally) × ((guard_step conv site cfg reads g t w).1 ≡ returned t')
        × ((guard_step conv site cfg reads g t w).0.device
            ≡ (guard_action conv site cfg reads g w).0.device)
  unfolding guard_step
  guard_step_returns reads g t w =
      let (b, e) = guard_action_returns reads g w in (tallied b t, rw e refl, rw e refl)

  or_mode_else :
      (a b : Option String) (m : String) → or_mode (or_else a b) m ≡ or_mode a (or_mode b m)
  or_mode_else none b m = refl
  or_mode_else (some a) b m = refl

  guard_all_modes :
      (reads : ℕ → ExecReads F) (n : ℕ) (gs : List (GuardCommand F)) (t : Tally) (w : World F Site)
      (id : String)
      → All WritesText gs
      → contains id inverters ≡ true
      → let (w', r) = guard_all conv site cfg reads n gs t w in
        ((t' : Tally) × (r ≡ returned t'))
        × (w'.device.modes id ≡ or_mode (last_mode id gs) (w.device.modes id))
  unfolding guard_all
  guard_all_modes reads n [] t w id h m = ((t, refl), refl)
  guard_all_modes reads n (g ∷ gs) t w id h m =
      let (t', r, same) = guard_step_returns (reads n) g t w in
      let w' = (guard_step conv site cfg (reads n) g t w).0 in
      let (rest, modes) = guard_all_modes reads (suc n) gs t' w' id h.1 m in
      let head = guard_action_modes (reads n) g w id h.0 m in
      rw r (
        rest,
        rw (modes, same, head, or_mode_else (last_mode id gs) (written id g) (w.device.modes id))
            refl,
      )

  -- On inverters that do what they are told, the guard commands of an evaluation never raise, and
  -- each registered battery of the cycle, if no two share an id, ends in the mode of `final_mode`, or
  -- in the mode it had where that is none.
  pub execute_guard_commands-final_mode :
      (guards : GuardConfig F) (i : GuardInput F) (reads : ClockReads F) (s : GuardState F)
      (exec_reads : ℕ → ExecReads F) (w : World F Site) (bat : Battery F)
      → Distinct i.batteries
      → In bat i.batteries
      → contains bat.battery_id inverters ≡ true
      → let (w', r) =
          execute_guard_commands conv site cfg exec_reads
            (evaluate guards i reads s).1.commands
            w in
        ((result : ExecutionResult F) × (r ≡ returned result))
        × (w'.device.modes bat.battery_id
            ≡ or_mode (final_mode guards i s.at_floor bat) (w.device.modes bat.battery_id))
  unfolding execute_guard_commands
  execute_guard_commands-final_mode guards i reads s exec_reads w bat d m h =
      let gs = (evaluate guards i reads s).1.commands in
      let ((t, r), modes) =
        guard_all_modes exec_reads 0 gs start_tally w bat.battery_id
          (evaluate-WritesText guards i reads s d) h in
      rw r ((_, refl), rw (modes, evaluate-final_mode guards i reads s bat d m) refl)
