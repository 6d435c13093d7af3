-- ===== src/Executor/Execute.antt =====
-- core/executor.py: `execute`, `execute_guard_commands`, the rate limit and the audit trail.
use carma_box_v.Base.{
  ℕ, suc, ◌+◌, Bool, true, false, List, [], ◌∷◌, ◌++◌, none, some, String, length, last, contains,
  if◌then◌else◌,
}
use carma_box_v.Base.Floats.{Float}
use carma_box_v.Models.{CommandType, set_ems_mode, no_op}
use carma_box_v.Guards.Types.{GuardCommand}
use carma_box_v.ModeChange.Manager.{lookup}
use carma_box_v.Executor.Types.{
  Outcome, returned, raised, Command, Adapters, Conversions, ExecutorConfig, AuditEntry, Executor,
  ExecutionResult, ExecReads,
}
use carma_box_v.Executor.Monad.{World, M, ret, ◌>>=◌, call}
use carma_box_v.Executor.Handlers.{str_of, dispatch}

-- How the commands so far have gone.
pub record Tally : Type 0 where
  pub succeeded : ℕ
  pub failed : ℕ
  pub rate_limited : ℕ

abbrev pub start_tally : Tally
start_tally = record { succeeded = 0; failed = 0; rate_limited = 0 }

abbrev pub tallied : Bool → Tally → Tally
tallied true t = record t { succeeded = t.succeeded + 1 }
tallied false t = record t { failed = t.failed + 1 }

module _ {F : Type 0} ⦃f : Float F⦄ (cfg : ExecutorConfig F) where
  open f use {lt, sub}

  -- `_check_rate_limit`
  unfoldable pub check_rate_limit : F → String → Executor F → Bool
  check_rate_limit now id e = elim (lookup id e.last_mode_change) [
    | none ↦ true
    | some t ↦ if lt (sub now t) cfg.mode_change_cooldown_s then false else true
  ]

  abbrev pub entry_of : F → Command F → Bool → Bool → AuditEntry F
  entry_of now cmd success limited = record {
    timestamp = now;
    command_type = cmd.command_type;
    target_id = cmd.target_id;
    value = cmd.value;
    rule_id = cmd.rule_id;
    success = success;
    was_rate_limited = limited;
  }

  -- `_log_audit`: an append to a deque that holds at most `audit_maxlen` entries.
  unfoldable pub log_audit : AuditEntry F → Executor F → Executor F
  log_audit entry e = record e { audit = last cfg.audit_maxlen (e.audit ++ (entry ∷ [])) }

  unfoldable pub result_of : ℕ → Tally → Executor F → ExecutionResult F
  result_of n t e = record {
    commands_total = n;
    commands_succeeded = t.succeeded;
    commands_failed = t.failed;
    commands_rate_limited = t.rate_limited;
    audit_entries = last n e.audit;
  }

abbrev pub is_no_op : CommandType → Bool
is_no_op no_op = true
is_no_op _ = false

abbrev pub is_mode_change : CommandType → Bool
is_mode_change set_ems_mode = true
is_mode_change _ = false

module _ {F D : Type 0} ⦃f : Float F⦄ (conv : Conversions F) (io : Adapters F D)
    (cfg : ExecutorConfig F) where
  -- The success of a dispatched command; an exception has become a failure.
  abbrev pub was_success : Outcome Bool → Bool
  was_success (returned b) = b
  was_success raised = false

  abbrev pub audited : F → Command F → Bool → Bool → World F D → World F D
  audited now cmd success limited w = record w {
    executor = log_audit cfg (entry_of cfg now cmd success limited) w.executor;
  }

  -- A command that is dispatched and counted.
  unfoldable pub run_command : ExecReads F → Command F → World F D × Tally → World F D × Tally
  run_command reads cmd (w, t) =
      let (w', r) = dispatch conv io reads cmd w in
      (audited reads.at_audit cmd (was_success r) false w', tallied (was_success r) t)

  -- One round of the loop of `execute`.
  unfoldable pub execute_step : ExecReads F → Command F → World F D × Tally → World F D × Tally
  execute_step reads cmd (w, t) =
      if is_no_op cmd.command_type
      then (w, t)
      else if is_mode_change cmd.command_type
      then if check_rate_limit cfg reads.at_check cmd.target_id w.executor
        then run_command reads cmd (w, t)
        else (
          audited reads.at_audit cmd false true w,
          record t { rate_limited = t.rate_limited + 1 },
        )
      else run_command reads cmd (w, t)

  -- `reads n` are the readings for the n-th command.
  unfoldable pub execute_all :
      (ℕ → ExecReads F) → ℕ → List (Command F) → World F D × Tally → World F D × Tally
  execute_all reads n [] s = s
  execute_all reads n (cmd ∷ cmds) s = execute_all reads (suc n) cmds (execute_step (reads n) cmd s)

  -- `execute`, which never raises.
  unfoldable pub execute :
      (ℕ → ExecReads F) → List (Command F) → World F D → World F D × ExecutionResult F
  execute reads cmds w =
      let (w', t) = execute_all reads 0 cmds (w, start_tally) in
      (w', result_of cfg (length cmds) t w'.executor)

  -- The command of a guard, for the dispatch and the audit trail.
  abbrev pub command_of : GuardCommand F → Command F
  command_of g = record {
    command_type = g.command_type;
    target_id = g.target_id;
    value = g.value;
    rule_id = g.guard_id;
  }

  -- A guard's mode is written at once, past the protocol, and outside of the `try` of `_dispatch`.
  unfoldable pub guard_action : ExecReads F → GuardCommand F → M F D Bool
  guard_action reads g =
      if is_mode_change g.command_type
      then if contains g.target_id io.inverters
        then call (io.set_ems_mode g.target_id (str_of conv g.value))
        else ret false
      else dispatch conv io reads (command_of g)

  abbrev pub note_guard : ExecReads F → GuardCommand F → Tally → Bool → M F D Tally
  note_guard reads g t b w =
      (audited reads.at_audit (command_of g) b false w, returned (tallied b t))

  unfoldable pub guard_step : ExecReads F → GuardCommand F → Tally → M F D Tally
  guard_step reads g t = guard_action reads g >>= note_guard reads g t

  unfoldable pub guard_all : (ℕ → ExecReads F) → ℕ → List (GuardCommand F) → Tally → M F D Tally
  guard_all reads n [] t = ret t
  guard_all reads n (g ∷ gs) t = guard_step (reads n) g t >>= guard_all reads (suc n) gs

  -- `execute_guard_commands`, which raises where an inverter raises at a guard's mode.
  unfoldable pub execute_guard_commands :
      (ℕ → ExecReads F) → List (GuardCommand F) → M F D (ExecutionResult F)
  execute_guard_commands reads gs = do
    t ← guard_all reads 0 gs start_tally
    λ w. (w, returned (result_of cfg (length gs) t w.executor))
