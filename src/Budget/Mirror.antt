-- ===== src/Budget/Mirror.antt =====
-- The charger that obeys the allocator's commands is in the state that the allocator intends.
use carma_box_v.Base.{
  ◌≡◌, refl, sym, ap, ◌∙◌, inl, inr, Bool, true, false, not, List, [], ◌∷◌, ◌++◌, Option, none,
  some, String, arith, Bool-cases, subst, if◌then◌else◌, filter,
}
use carma_box_v.Base.Int.{ℤ, pos, negsuc, ltb_ℤ, eqb_ℤ}
use carma_box_v.Base.Floats.{Float}
use carma_box_v.Models.{
  CommandType, Consumer, Value, int, nothing, start_ev_charging, stop_ev_charging, set_ev_current,
  turn_on_consumer, turn_off_consumer,
}
use carma_box_v.Executor.Types.{Command}
use carma_box_v.Surplus.Dispatch.{by_priority, by_shed}
use carma_box_v.ZeroGrid.Types.{ZeroGridPlan}
use carma_box_v.Budget.Types.{BudgetConfig, BudgetInput, BudgetState, BudgetResult, BudgetReads}
use carma_box_v.Budget.Facts.{is_daytime, count_cycles, available_surplus_w}
use carma_box_v.Budget.Batteries.{
  tuned_alloc, apply_mode_change_guard, bat_commands_of, bat_commands,
}
use carma_box_v.Budget.Charger.{ev_target_of, ev_commands, note_ev}
use carma_box_v.Budget.Cascade.{is_cooling, switch_first, cascade_consumers}
use carma_box_v.Budget.Tuner.{avg}
use carma_box_v.Budget.Allocate.{observe, conclude, allocate}
use carma_box_v.Budget.Ramp.{observe-ev_current_amps}
use carma_box_v.Budget.Total.{IsUsable, allocate_total}

pub eqb_ℤ_lem : (a b : ℤ) → eqb_ℤ a b ≡ true → a ≡ b
eqb_ℤ_lem (pos a) (pos b) h = ground arith
eqb_ℤ_lem (pos a) (negsuc b) h = ground arith
eqb_ℤ_lem (negsuc a) (pos b) h = ground arith
eqb_ℤ_lem (negsuc a) (negsuc b) h = ground arith

-- A charger that nothing else controls.
pub record Charger : Type 0 where
  pub enabled : Bool
  pub amps : ℤ

module _ {F : Type 0} where
  abbrev pub obey_set : Value F → Charger → Charger
  obey_set (int a) ch = record ch { amps = a }
  obey_set _ ch = ch

  abbrev pub obey_one : CommandType → Value F → Charger → Charger
  obey_one start_ev_charging v ch = record ch { enabled = true }
  obey_one stop_ev_charging v ch = record ch { enabled = false }
  obey_one set_ev_current v ch = obey_set v ch
  obey_one _ v ch = ch

  abbrev pub obey : List (Command F) → Charger → Charger
  obey [] ch = ch
  obey (c ∷ cs) ch = obey cs (obey_one c.command_type c.value ch)

  -- It is enabled when that is intended, and a current that was written last is its current.
  abbrev pub Mirrors : BudgetState F → Charger → Type 0
  Mirrors s ch =
      (ch.enabled ≡ s.intended_ev_enabled)
      × (ltb_ℤ (pos 0) s.ev_current_amps ≡ true
          → (s.intended_ev_enabled ≡ true) × (ch.amps ≡ s.ev_current_amps))

  obey-append :
      (cs ds : List (Command F)) (ch : Charger) → obey (cs ++ ds) ch ≡ obey ds (obey cs ch)
  obey-append [] ds ch = refl
  obey-append (c ∷ cs) ds ch = obey-append cs ds (obey_one c.command_type c.value ch)

  ev_commands-Mirrors :
      (ev_target : ℤ) (s : BudgetState F) (ch : Charger)
      → Mirrors s ch
      → Mirrors (note_ev true ev_target s) (obey (ev_commands ev_target s) ch)
  unfolding ev_commands note_ev
  ev_commands-Mirrors ev_target s ch m = (
    ground (arith, m.0),
    λ on. (on, ground (arith, m, on, eqb_ℤ_lem ev_target s.ev_current_amps)),
  )

  note_ev-Mirrors :
      (s : BudgetState F) (ch : Charger) → Mirrors s ch → Mirrors (note_ev false (pos 0) s) ch
  unfolding note_ev
  note_ev-Mirrors s ch m = (m.0, λ on. ground arith)

obey-bat_commands :
    (F : Type 0) (targets current_modes : List (String × String)) (emergency_bats : List String)
    (alloc : List (String × ℤ)) (ch : Charger)
    → obey (bat_commands {F = F} targets current_modes emergency_bats alloc) ch ≡ ch
unfolding bat_commands bat_commands_of
obey-bat_commands F targets current_modes emergency_bats [] ch = refl
obey-bat_commands F targets current_modes emergency_bats ((id, w) ∷ alloc) ch =
    let own = bat_commands_of {F = F} targets current_modes emergency_bats (id, w) in
    let rest = bat_commands {F = F} targets current_modes emergency_bats alloc in
    let kept : obey own ch ≡ ch = ground arith in
    obey-append own rest ch
    ∙ ap (obey rest) kept
    ∙ obey-bat_commands F targets current_modes emergency_bats alloc ch

module _ {F : Type 0} ⦃f : Float F⦄ (cfg : BudgetConfig F) where
  obey-switch_first :
      (t : CommandType) (now_ts : F) (last_switch : List (String × F)) (cs : List (Consumer F))
      (ch : Charger)
      → ((v : Value F) → obey_one t v ch ≡ ch)
      → obey (switch_first cfg t now_ts last_switch cs).1 ch ≡ ch
  unfolding switch_first
  obey-switch_first t now_ts last_switch [] ch h = refl
  obey-switch_first t now_ts last_switch (c ∷ cs) ch h =
      elim (Bool-cases (is_cooling cfg now_ts last_switch c)) [
        | inl e ↦ rw e (obey-switch_first t now_ts last_switch cs ch h)
        | inr e ↦ rw e (h nothing)
      ]

  obey-cascade_consumers :
      (inp : BudgetInput F) (alloc : List (String × ℤ)) (now_ts : F) (s : BudgetState F)
      (ch : Charger)
      → obey (cascade_consumers cfg inp alloc now_ts s).1 ch ≡ ch
  unfolding cascade_consumers
  obey-cascade_consumers inp alloc now_ts s ch =
      let last_switch = s.consumer_last_switch_ts in
      let on =
        obey-switch_first turn_on_consumer now_ts last_switch
          (by_priority (filter (λ c. not c.active) inp.consumers)) ch (λ v. refl) in
      let off =
        obey-switch_first turn_off_consumer now_ts last_switch
          (by_shed (filter (λ c. c.active) inp.consumers)) ch (λ v. refl) in
      ground (arith, on, off)

  observe-Mirrors :
      (reads : BudgetReads F) (inp : BudgetInput F) (s : BudgetState F) (ch : Charger)
      → Mirrors s ch
      → Mirrors (observe cfg reads inp s) ch
  unfolding observe count_cycles
  observe-Mirrors reads inp s ch m =
      let same : (observe cfg reads inp s).intended_ev_enabled ≡ s.intended_ev_enabled =
        ground arith in
      (m.0 ∙ sym same, rw (same, observe-ev_current_amps cfg reads inp s) m.1)

  night_target :
      (inp : BudgetInput F) (surplus : F) (s : BudgetState F)
      → is_daytime inp.hour ≡ false
      → ev_target_of cfg inp surplus s ≡ pos 0
  unfolding ev_target_of
  night_target inp surplus s night = ground arith

  abbrev ev_part : BudgetInput F → ℤ → BudgetState F → List (Command F)
  ev_part inp ev_target s = if is_daytime inp.hour then ev_commands ev_target s else []

  ev_part-Mirrors :
      (inp : BudgetInput F) (surplus : F) (s : BudgetState F) (ch : Charger)
      → Mirrors s ch
      → let t = ev_target_of cfg inp surplus s in
        Mirrors (note_ev (is_daytime inp.hour) t s) (obey (ev_part inp t s) ch)
  ev_part-Mirrors inp surplus s ch m = elim (Bool-cases (is_daytime inp.hour)) [
    | inl day ↦ simp day (ev_commands-Mirrors (ev_target_of cfg inp surplus s) s ch m)
    | inr night ↦ simp (night, night_target inp surplus s night) (note_ev-Mirrors s ch m)
  ]

  -- The charger through the commands of a cycle.
  conclude-Mirrors :
      (reads : BudgetReads F) (inp : BudgetInput F) (plan : ZeroGridPlan)
      (alloc : List (String × ℤ)) (s : BudgetState F) (ch : Charger)
      → Mirrors s ch
      → let p = conclude cfg reads inp plan alloc s in Mirrors p.0 (obey p.1.commands ch)
  unfolding conclude
  conclude-Mirrors reads inp plan alloc s ch m =
      let surplus = available_surplus_w inp in
      let t = ev_target_of cfg inp surplus s in
      let targets = apply_mode_change_guard cfg plan.modes inp.bat_modes (avg s.grid_rolling) in
      let own = ev_part inp t s in
      let bats = bat_commands {F = F} targets inp.bat_modes plan.emergency_recovery alloc in
      let loads = (cascade_consumers cfg inp alloc reads.at_cascade s).1 in
      let ev = obey own ch in
      let kept : obey (own ++ (bats ++ loads)) ch ≡ ev =
        obey-append own (bats ++ loads) ch
        ∙ obey-append bats loads ev
        ∙ ap (obey loads)
            (obey-bat_commands F targets inp.bat_modes plan.emergency_recovery alloc ev)
        ∙ obey-cascade_consumers inp alloc reads.at_cascade s ev in
      subst (Mirrors (note_ev (is_daytime inp.hour) t s)) (sym kept)
        (ev_part-Mirrors inp surplus s ch m)

  -- The cycles of a run, from a state and a charger.
  unfoldable pub run_cycles :
      List (BudgetReads F × BudgetInput F)
      → BudgetState F
      → Charger
      → Option (BudgetState F × Charger)
  run_cycles [] s ch = some (s, ch)
  run_cycles ((reads, inp) ∷ cycles) s ch = elim (allocate cfg reads inp s) [
    | none ↦ none
    | some p ↦ run_cycles cycles p.0 (obey p.1.commands ch)
  ]

  run_step :
      (reads : BudgetReads F) (inp : BudgetInput F) (cycles : List (BudgetReads F × BudgetInput F))
      (s : BudgetState F) (ch : Charger) (p : BudgetState F × BudgetResult F)
      → allocate cfg reads inp s ≡ some p
      → run_cycles ((reads, inp) ∷ cycles) s ch ≡ run_cycles cycles p.0 (obey p.1.commands ch)
  unfolding run_cycles
  run_step reads inp cycles s ch p h = simp (run_cycles, h) refl

  -- If the allocator's window holds a reading and an enabled tuner has a first tier, then every run of
  -- cycles returns, by day and by night. If the charger is enabled exactly as the allocator intends and,
  -- where the current of its state is above 0 A, is intended to be enabled and set to that current, then
  -- the same holds after the run of a charger that obeys only the allocator's commands.
  pub run_cycles-Mirrors :
      IsUsable cfg
      → (cycles : List (BudgetReads F × BudgetInput F)) (s : BudgetState F) (ch : Charger)
      → Mirrors s ch
      → (p : BudgetState F × Charger) × (run_cycles cycles s ch ≡ some p) × Mirrors p.0 p.1
  unfolding run_cycles
  run_cycles-Mirrors u [] s ch m = ((s, ch), refl, m)
  run_cycles-Mirrors u ((reads, inp) ∷ cycles) s ch m =
      let c = allocate_total cfg u reads inp s in
      let alloc = tuned_alloc cfg c.plan c.tune_delta in
      let seen = observe cfg reads inp s in
      let p = conclude cfg reads inp c.plan alloc seen in
      let m' = conclude-Mirrors reads inp c.plan alloc seen ch (observe-Mirrors reads inp s ch m) in
      let (q, h, n) = run_cycles-Mirrors u cycles p.0 (obey p.1.commands ch) m' in
      (q, run_step reads inp cycles s ch p c.is_result ∙ h, n)
