-- ===== src/Executor/Counts.antt =====
-- Every command is counted once, and the audit trail stays within its length.
use carma_box_v.Base.{
  ℕ, zero, suc, ◌+◌, ◌-◌, ◌≤◌, ◌≡◌, refl, inl, inr, List, [], ◌∷◌, arith, length, drop, last,
  if◌then◌else◌, Bool-cases,
}
use carma_box_v.Base.Floats.{Float}
use carma_box_v.Executor.Types.{Command, Adapters, Conversions, ExecutorConfig, ExecReads}
use carma_box_v.Executor.Monad.{World}
use carma_box_v.Executor.Execute.{
  Tally, start_tally, check_rate_limit, log_audit, result_of, is_no_op, is_mode_change, run_command,
  execute_step, execute_all, execute,
}

module _ {A : Type 0} where
  length-drop : (n : ℕ) (xs : List A) → length (drop n xs) ≡ length xs - n
  unfolding drop
  length-drop zero xs = omega arith
  length-drop (suc n) [] = omega arith
  length-drop (suc n) (x ∷ xs) = ground (arith, length-drop n xs)

  pub length-last : (n : ℕ) (xs : List A) → length (last n xs) ≤ n
  length-last n xs = omega (arith, length-drop (length xs - n) xs)

module _ {F D : Type 0} ⦃f : Float F⦄ (conv : Conversions F) (io : Adapters F D)
    (cfg : ExecutorConfig F) where
  abbrev pub no_ops : List (Command F) → ℕ
  no_ops [] = 0
  no_ops (c ∷ cs) = (if is_no_op c.command_type then 1 else 0) + no_ops cs

  abbrev pub counted : Tally → ℕ
  counted t = t.succeeded + t.failed + t.rate_limited

  -- The audit trail is within its length.
  abbrev pub Fits : World F D → Type 0
  Fits w = length w.executor.audit ≤ cfg.audit_maxlen

  run_command-counts :
      (reads : ExecReads F) (cmd : Command F) (w : World F D) (t : Tally)
      → let (w', t') = run_command conv io cfg reads cmd (w, t) in
        Fits w' × (counted t' ≡ counted t + 1)
  unfolding run_command log_audit
  run_command-counts reads cmd w t = (length-last cfg.audit_maxlen _, ground arith)

  execute_step-counts :
      (reads : ExecReads F) (cmd : Command F) (w : World F D) (t : Tally)
      → Fits w
      → let (w', t') = execute_step conv io cfg reads cmd (w, t) in
        Fits w' × (counted t' + (if is_no_op cmd.command_type then 1 else 0) ≡ counted t + 1)
  unfolding execute_step log_audit
  execute_step-counts reads cmd w t h =
      let run = run_command-counts reads cmd w t in
      elim (Bool-cases (is_no_op cmd.command_type)) [
        | inl e ↦ rw e (h, omega arith)
        | inr e ↦ elim (Bool-cases (is_mode_change cmd.command_type)) [
          | inl m ↦
              elim (Bool-cases (check_rate_limit cfg reads.at_check cmd.target_id w.executor)) [
                | inl free ↦ rw (e, m, free) (run.0, omega (arith, run.1))
                | inr busy ↦ rw (e, m, busy) (length-last cfg.audit_maxlen _, omega arith)
              ]
          | inr m ↦ rw (e, m) (run.0, omega (arith, run.1))
        ]
      ]

  execute_all-counts :
      (reads : ℕ → ExecReads F) (n : ℕ) (cmds : List (Command F)) (w : World F D) (t : Tally)
      → Fits w
      → let (w', t') = execute_all conv io cfg reads n cmds (w, t) in
        Fits w' × (counted t' + no_ops cmds ≡ counted t + length cmds)
  unfolding execute_all
  execute_all-counts reads n [] w t h = (h, omega arith)
  execute_all-counts reads n (c ∷ cs) w t h =
      let (w', t') = execute_step conv io cfg (reads n) c (w, t) in
      let (fits, count) = execute_step-counts (reads n) c w t h in
      let (fits', count') = execute_all-counts reads (suc n) cs w' t' fits in
      (fits', omega (arith, count, count'))

  -- Whatever the adapters do, raising included: execute counts every command once, as succeeded, failed
  -- or rate limited, but for the NO_OPs, and an audit trail within its length stays within it; the
  -- result shows no more entries than there are commands.
  pub execute_lem :
      (reads : ℕ → ExecReads F) (cmds : List (Command F)) (w : World F D)
      → Fits w
      → let (w', r) = execute conv io cfg reads cmds w in
        (r.commands_succeeded + r.commands_failed + r.commands_rate_limited + no_ops cmds
          ≡ r.commands_total)
        × (r.commands_total ≡ length cmds)
        × Fits w'
        × (length r.audit_entries ≤ length cmds)
  unfolding execute result_of
  execute_lem reads cmds w h =
      let (fits, count) = execute_all-counts reads 0 cmds w start_tally h in
      (omega (arith, count), refl, fits, length-last (length cmds) _)
