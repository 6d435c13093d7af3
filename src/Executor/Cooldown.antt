-- ===== src/Executor/Cooldown.antt =====
-- The rate limit on mode changes: within the cooldown a battery's request stays.
use carma_box_v.Base.{
  ℕ, suc, ◌≡◌, refl, sym, ap, ◌∙◌, ◌⊎◌, inl, inr, Bool, true, false, List, [], ◌∷◌, Option, some,
  String, arith, Bool-cases, str_eq, eq_iff,
}
use carma_box_v.Base.Floats.{Float}
use carma_box_v.Base.Int.{ℤ, pos}
use carma_box_v.Models.{CommandType, set_ems_mode}
use carma_box_v.ModeChange.Types.{Request}
use carma_box_v.ModeChange.Manager.{lookup}
use carma_box_v.ModeChange.Table.{lookup-assign_other}
use carma_box_v.ModeChange.Requests.{request_change_lem}
use carma_box_v.Executor.Types.{
  Outcome, returned, raised, Command, Adapters, Conversions, ExecutorConfig, Executor, ExecReads,
}
use carma_box_v.Executor.Monad.{World, M, ret, resume, ◌>>◌, ◌>>=◌, when, ignore, call, read}
use carma_box_v.Executor.Handlers.{
  dispatch, handle, exec_set_ems_mode, exec_set_ems_power_limit, exec_set_fast_charging,
  exec_set_ev_current, exec_consumer, exec_set_export_limit, exec_climate_set_temp,
  exec_climate_set_mode, clear_before_discharge, before_discharge, before_charge, request_mode,
  str_of,
}
use carma_box_v.Executor.Execute.{
  Tally, start_tally, check_rate_limit, log_audit, is_no_op, is_mode_change, run_command,
  execute_step, execute_all, execute,
}

outcome_cases : {A : Type 0} (r : Outcome A) → ((a : A) × (r ≡ returned a)) ⊎ (r ≡ raised)
outcome_cases (returned a) = inl (a, refl)
outcome_cases raised = inr refl

module _ {F D : Type 0} ⦃f : Float F⦄ (conv : Conversions F) (io : Adapters F D)
    (cfg : ExecutorConfig F) (id : String) where
  -- What the executor keeps of the battery.
  abbrev pub kept : Executor F → Option F × Option (Request F)
  kept e = (lookup id e.last_mode_change, lookup id e.mode_manager.requests)

  -- A command that changes no mode leaves the executor alone.
  handle-executor :
      (reads : ExecReads F) (cmd : Command F) (w : World F D) (t : CommandType)
      → is_mode_change t ≡ false
      → (handle conv io t reads cmd w).0.executor ≡ w.executor
  unfolding handle exec_set_ems_power_limit exec_set_fast_charging exec_set_ev_current exec_consumer
      exec_set_export_limit exec_climate_set_temp exec_climate_set_mode
  handle-executor reads cmd w t h = ground arith

  request_mode-kept :
      (reads : ExecReads F) (j mode : String) (w : World F D)
      → str_eq id j ≡ false
      → kept (request_mode conv io reads j mode w).0.executor ≡ kept w.executor
  unfolding request_mode
  request_mode-kept reads j mode w other =
      let stays = (request_change_lem j mode (pos 0) false w.executor.mode_manager).2 id other in
      ground
        (arith, stays, lookup-assign_other id j reads.at_change w.executor.last_mode_change other)

  -- An action that leaves what is kept of the battery.
  abbrev pub Keeps : {A : Type 0} → M F D A → Type 0
  Keeps m = (w : World F D) → kept (m w).0.executor ≡ kept w.executor

  resume-Keeps :
      {A B : Type 0} (r : Outcome A) (k : A → M F D B)
      → ((a : A) → Keeps (k a))
      → Keeps (resume r k)
  resume-Keeps (returned a) k h = h a
  resume-Keeps raised k h = λ w. refl

  >>=-Keeps :
      {A B : Type 0} (m : M F D A) (k : A → M F D B)
      → Keeps m
      → ((a : A) → Keeps (k a))
      → Keeps (m >>= k)
  >>=-Keeps m k hm hk w = resume-Keeps (m w).1 k hk (m w).0 ∙ hm w

  when-Keeps : (b : Bool) (m : M F D (Unit {0})) → Keeps m → Keeps (when b m)
  when-Keeps true m h = h
  when-Keeps false m h = λ w. refl

  ignore-Keeps : {A : Type 0} (m : M F D A) → Keeps m → Keeps (ignore m)
  ignore-Keeps m h = >>=-Keeps m (λ _. ret tt) h (λ _ w. refl)

  before_discharge-Keeps : (j mode : String) → Keeps (before_discharge conv io j mode)
  unfolding before_discharge clear_before_discharge
  before_discharge-Keeps j mode =
      let off : M F D Bool = call (io.set_fast_charging j false) in
      when-Keeps _ (clear_before_discharge conv io j) (
        >>=-Keeps (read (io.get_fast_charging j)) (λ on. when on (ignore off)) (λ w. refl)
          (λ on. when-Keeps on (ignore off) (ignore-Keeps off (λ w. refl))))

  before_charge-Keeps : (j mode : String) → Keeps (before_charge conv io j mode)
  unfolding before_charge
  before_charge-Keeps j mode =
      let limit : M F D ℤ = read (io.get_ems_power_limit j) in
      when-Keeps _ (ignore limit) (ignore-Keeps limit (λ w. refl))

  exec_set_ems_mode-Keeps :
      (reads : ExecReads F) (cmd : Command F)
      → str_eq id cmd.target_id ≡ false
      → Keeps (exec_set_ems_mode conv io reads cmd)
  unfolding exec_set_ems_mode
  exec_set_ems_mode-Keeps reads cmd other =
      let j = cmd.target_id in
      let mode = str_of conv cmd.value in
      let request : M F D Bool = request_mode conv io reads j mode in
      let check : M F D (Unit {0}) = before_charge conv io j mode in
      >>=-Keeps (before_discharge conv io j mode) (λ _. check >> request)
        (before_discharge-Keeps j mode)
        (λ _.
          >>=-Keeps check (λ _. request) (before_charge-Keeps j mode)
            (λ _ w. request_mode-kept reads j mode w other))

  handle-Keeps :
      (t : CommandType) (reads : ExecReads F) (cmd : Command F)
      → (is_mode_change t ≡ false) ⊎ (str_eq id cmd.target_id ≡ false)
      → Keeps (handle conv io t reads cmd)
  unfolding handle
  handle-Keeps set_ems_mode reads cmd (inl h) = cc
  handle-Keeps set_ems_mode reads cmd (inr h) = exec_set_ems_mode-Keeps reads cmd h
  handle-Keeps t reads cmd h = λ w. ap kept (handle-executor reads cmd w t refl)

  run_command-kept :
      (reads : ExecReads F) (cmd : Command F) (w : World F D) (t : Tally)
      → (is_mode_change cmd.command_type ≡ false) ⊎ (str_eq id cmd.target_id ≡ false)
      → kept (run_command conv io cfg reads cmd (w, t)).0.executor ≡ kept w.executor
  unfolding run_command dispatch log_audit
  run_command-kept reads cmd w t h = handle-Keeps cmd.command_type reads cmd h w

  -- The battery's last mode change is less than the cooldown before the reading.
  abbrev pub IsCooling : F → F → Type 0
  IsCooling at now = f.lt (f.sub now at) cfg.mode_change_cooldown_s ≡ true

  cooling_refused :
      (now at : F) (j : String) (e : Executor F)
      → lookup id e.last_mode_change ≡ some at
      → IsCooling at now
      → str_eq id j ≡ true
      → check_rate_limit cfg now j e ≡ false
  unfolding check_rate_limit
  cooling_refused now at j e last cooling same =
      let equal : id ≡ j = (eq_iff id j).0 same in
      rw (sym equal, last, check_rate_limit, cooling) refl

  execute_step-kept :
      (at : F) (reads : ExecReads F) (cmd : Command F) (w : World F D) (t : Tally)
      → lookup id w.executor.last_mode_change ≡ some at
      → IsCooling at reads.at_check
      → kept (execute_step conv io cfg reads cmd (w, t)).0.executor ≡ kept w.executor
  unfolding execute_step log_audit
  execute_step-kept at reads cmd w t last cooling =
      let run = run_command-kept reads cmd w t in
      let refused = cooling_refused reads.at_check at cmd.target_id w.executor last cooling in
      elim (Bool-cases (is_no_op cmd.command_type)) [
        | inl e ↦ rw e refl
        | inr e ↦ elim (Bool-cases (is_mode_change cmd.command_type)) [
          | inl m ↦ elim (Bool-cases (str_eq id cmd.target_id)) [
            | inl same ↦ rw (e, m, refused same) refl
            | inr other ↦
                elim (Bool-cases (check_rate_limit cfg reads.at_check cmd.target_id w.executor)) [
                  | inl free ↦ rw (e, m, free) (run (inr other))
                  | inr busy ↦ rw (e, m, busy) refl
                ]
          ]
          | inr m ↦ rw (e, m) (run (inl m))
        ]
      ]

  execute_all-kept :
      (at : F) (reads : ℕ → ExecReads F) (n : ℕ) (cmds : List (Command F)) (w : World F D)
      (t : Tally)
      → lookup id w.executor.last_mode_change ≡ some at
      → ((k : ℕ) → IsCooling at (reads k).at_check)
      → kept (execute_all conv io cfg reads n cmds (w, t)).0.executor ≡ kept w.executor
  unfolding execute_all
  execute_all-kept at reads n [] w t last cooling = refl
  execute_all-kept at reads n (c ∷ cs) w t last cooling =
      let (w', t') = execute_step conv io cfg (reads n) c (w, t) in
      let step = execute_step-kept at (reads n) c w t last (cooling n) in
      execute_all-kept at reads (suc n) cs w' t' (ap (λ k. k.0) step ∙ last) cooling ∙ step

  -- Within the cooldown after a battery's last accepted mode change, no run of execute alters the
  -- battery's request or the time of its last mode change, whatever the commands and the adapters do.
  pub execute-cooldown :
      (at : F) (reads : ℕ → ExecReads F) (cmds : List (Command F)) (w : World F D)
      → lookup id w.executor.last_mode_change ≡ some at
      → ((k : ℕ) → IsCooling at (reads k).at_check)
      → let e = (execute conv io cfg reads cmds w).0.executor in
        (lookup id e.mode_manager.requests ≡ lookup id w.executor.mode_manager.requests)
        × (lookup id e.last_mode_change ≡ some at)
  unfolding execute
  execute-cooldown at reads cmds w last cooling =
      let all = execute_all-kept at reads 0 cmds w start_tally last cooling in
      (ap (λ k. k.1) all, ap (λ k. k.0) all ∙ last)
