-- ===== src/Executor/Orphans.antt =====
-- Commands whose target is not registered.
use carma_box_v.Base.{
  ℕ, suc, ◌+◌, ◌≡◌, refl, ap, ◌∙◌, Bool, true, false, not, List, [], ◌∷◌, String, arith, contains,
  length, All,
}
use carma_box_v.Base.Floats.{Float}
use carma_box_v.Models.{
  CommandType, set_ems_mode, set_ems_power_limit, set_fast_charging, turn_on_consumer,
  turn_off_consumer, climate_set_temp, climate_set_mode, set_export_limit, no_op,
}
use carma_box_v.Guards.Types.{GuardCommand}
use carma_box_v.Executor.Types.{returned, Adapters, Conversions, ExecutorConfig, ExecReads}
use carma_box_v.Executor.Monad.{World}
use carma_box_v.Executor.Handlers.{
  dispatch, handle, exec_set_ems_power_limit, exec_set_fast_charging, exec_set_ev_current,
  exec_consumer, exec_set_export_limit, exec_climate_set_temp, exec_climate_set_mode,
}
use carma_box_v.Executor.Execute.{
  Tally, start_tally, log_audit, result_of, guard_action, guard_step, guard_all,
  execute_guard_commands, audited, command_of,
}

module _ {F D : Type 0} ⦃f : Float F⦄ (conv : Conversions F) (io : Adapters F D)
    (cfg : ExecutorConfig F) where
  -- What the command needs is not there.
  abbrev pub lacks : CommandType → String → Bool
  lacks set_ems_mode id = not (contains id io.inverters)
  lacks set_ems_power_limit id = not (contains id io.inverters)
  lacks set_fast_charging id = not (contains id io.inverters)
  lacks set_export_limit id = not (contains id io.inverters)
  lacks turn_on_consumer id = not (contains id io.consumers)
  lacks turn_off_consumer id = not (contains id io.consumers)
  lacks climate_set_temp id = not io.has_api
  lacks climate_set_mode id = not io.has_api
  lacks no_op id = false
  lacks _ id = not io.has_charger

  abbrev pub IsOrphan : GuardCommand F → Type 0
  IsOrphan g = lacks g.command_type g.target_id ≡ true

  guard_action_orphan :
      (reads : ExecReads F) (g : GuardCommand F) (w : World F D)
      → IsOrphan g
      → guard_action conv io cfg reads g w ≡ (w, returned false)
  unfolding guard_action dispatch handle exec_set_ems_power_limit exec_set_fast_charging
      exec_set_ev_current exec_consumer exec_set_export_limit exec_climate_set_temp
      exec_climate_set_mode
  guard_action_orphan reads g w h = ground arith

  -- What an orphan leaves: an entry in the audit trail.
  abbrev pub noted : ExecReads F → GuardCommand F → World F D → World F D
  noted reads g = audited conv io cfg reads.at_audit (command_of conv io cfg g) false false

  guard_step_orphan :
      (reads : ExecReads F) (g : GuardCommand F) (t : Tally) (w : World F D)
      → IsOrphan g
      → guard_step conv io cfg reads g t w
        ≡ (noted reads g w, returned (record t { failed = t.failed + 1 }))
  unfolding guard_step
  guard_step_orphan reads g t w h = rw (guard_action_orphan reads g w h) refl

  -- The world without its audit trail.
  abbrev pub unaudited : World F D → World F D
  unaudited w = record w { executor = record w.executor { audit = [] } }

  guard_all_orphans :
      (reads : ℕ → ExecReads F) (n : ℕ) (gs : List (GuardCommand F)) (t : Tally) (w : World F D)
      → All IsOrphan gs
      → let (w', r) = guard_all conv io cfg reads n gs t w in
        (unaudited w' ≡ unaudited w) × (r ≡ returned (record t { failed = t.failed + length gs }))
  unfolding guard_all log_audit
  guard_all_orphans reads n [] t w h =
      let none_failed : t.failed ≡ t.failed + 0 = omega arith in
      (refl, ap (λ k. returned (record t { failed = k })) none_failed)
  guard_all_orphans reads n (g ∷ gs) t w h =
      let t' : Tally = record t { failed = t.failed + 1 } in
      let (same, all_failed) = guard_all_orphans reads (suc n) gs t' (noted (reads n) g w) h.1 in
      let count : t.failed + 1 + length gs ≡ t.failed + suc (length gs) = omega arith in
      rw (guard_step_orphan (reads n) g t w h.0)
        (same, all_failed ∙ ap (λ k. returned (record t { failed = k })) count)

  -- Guard commands that all need an inverter, a consumer, a charger or an API that is not there: they
  -- are all counted as failed, nothing is raised, and only the audit trail changes.
  pub execute_guard_commands_orphans :
      (reads : ℕ → ExecReads F) (gs : List (GuardCommand F)) (w : World F D)
      → All IsOrphan gs
      → let (w', r) = execute_guard_commands conv io cfg reads gs w in
        (unaudited w' ≡ unaudited w)
        × (r
            ≡ returned
                (result_of cfg (length gs) (record start_tally { failed = length gs }) w'.executor))
  unfolding execute_guard_commands
  execute_guard_commands_orphans reads gs w h =
      let (same, all_failed) = guard_all_orphans reads 0 gs start_tally w h in
      let plus : 0 + length gs ≡ length gs = omega arith in
      let total = all_failed ∙ ap (λ k. returned (record start_tally { failed = k })) plus in
      rw total (same, refl)
