-- ===== src/Budget/Lawful.antt =====
-- Which commands for the modes of the batteries the allocator may emit.
use carma_box_v.Base.{
  ◌≡◌, refl, sym, ap, ◌∙◌, ◌⊎◌, inl, inr, Bool, true, false, ◌||◌, List, [], ◌∷◌, some, String,
  arith, All, All-append, All-flat_map, contains, Bool-cases, if◌then◌else◌, str_eq, eq_iff,
  option_cases,
}
use carma_box_v.Base.Int.{ℤ}
use carma_box_v.Base.Floats.{Float}
use carma_box_v.Models.{CommandType, Value, text, flag, set_ems_mode, set_fast_charging}
use carma_box_v.Executor.Types.{Command}
use carma_box_v.ModeChange.Manager.{lookup, assign}
use carma_box_v.ModeChange.Table.{lookup-assign, lookup-assign_other}
use carma_box_v.Dicts.{get, assign_where}
use carma_box_v.Budget.Types.{BudgetConfig, BudgetInput, BudgetState, BudgetResult, BudgetReads}
use carma_box_v.Budget.Tuner.{avg}
use carma_box_v.Budget.Facts.{is_daytime, available_surplus_w}
use carma_box_v.Budget.Batteries.{
  guarded_mode, guard_holds, apply_mode_change_guard, bat_commands_of, bat_commands, tuned_alloc,
}
use carma_box_v.Budget.Charger.{ev_target_of, ev_commands}
use carma_box_v.Budget.Cascade.{Switched, cascade_consumers}
use carma_box_v.Budget.Loads.{
  IsCascade, turns_on, turns_off, keeps, waits, has_none, cascade_consumers-IsCascade,
}
use carma_box_v.Budget.Allocate.{observe, conclude, allocate}
use carma_box_v.Budget.Total.{IsUsable, allocate_total}

-- A predicate on the keys of a dict with their values.
abbrev Entries : {V : Type 0} → (String → V → Type 0) → List (String × V) → Type 0
Entries {V} P d = (k : String) (v : V) → lookup k d ≡ some v → P k v

module _ {V : Type 0} (P : String → V → Type 0) where
  assign-Entries :
      (k : String) (v : V) (d : List (String × V)) → P k v → Entries P d → Entries P (assign k v d)
  assign-Entries k v d p h j w l = elim (Bool-cases (str_eq j k)) [
    | inl e ↦
        let same : j ≡ k = (eq_iff j k).0 e in
        let found : v ≡ w =
          grind (arith, lookup-assign k v d, ap (λ i. lookup i (assign k v d)) same, l) in
        rw (same, sym found) p
    | inr e ↦ h j w (sym (lookup-assign_other j k v d e) ∙ l)
  ]

  assign_all-Entries :
      {A : Type 0} (key : A → String) (val : A → V) (xs : List A) (d : List (String × V))
      → ((x : A) → P (key x) (val x))
      → Entries P d
      → Entries P (assign_where (λ x. true) key val xs d)
  unfolding assign_where
  assign_all-Entries key val [] d p h = h
  assign_all-Entries key val (x ∷ xs) d p h =
      assign_all-Entries key val xs (assign (key x) (val x) d) p
        (assign-Entries (key x) (val x) d (p x) h)

  empty-Entries : Entries P []
  unfolding lookup
  empty-Entries k v h = ground arith

  get-Entries : (k : String) (v : V) (d : List (String × V)) → P k v → Entries P d → P k (get k v d)
  get-Entries k v d p h = elim (option_cases (lookup k d)) [
    | inl (w, l) ↦ rw (get, l) (h k w l)
    | inr l ↦ rw (get, l) p
  ]

-- The mode is the current one, or one of the two is standby.
abbrev pub NoFlip : String → String → Type 0
NoFlip current mode =
    (str_eq current mode || str_eq mode "battery_standby" || str_eq current "battery_standby")
    ≡ true

guarded_mode-NoFlip : (plan_mode current : String) → NoFlip current (guarded_mode plan_mode current)
unfolding guarded_mode
guarded_mode-NoFlip plan_mode current =
    ground (arith, eq_iff current current, eq_iff plan_mode current, eq_iff current plan_mode)

module _ {F : Type 0} ⦃f : Float F⦄ (cfg : BudgetConfig F) where
  -- While the guard holds, each target is the current mode or a change to or from standby.
  targets-NoFlip :
      (plan_modes current_modes : List (String × String)) (avg_w : F) (id : String)
      → guard_holds cfg avg_w ≡ true
      → NoFlip
          (get id "" current_modes)
          (get id "battery_standby" (apply_mode_change_guard cfg plan_modes current_modes avg_w))
  unfolding apply_mode_change_guard
  targets-NoFlip plan_modes current_modes avg_w id g =
      let targets = apply_mode_change_guard cfg plan_modes current_modes avg_w in
      let fits : String → String → Type 0 = λ k v. NoFlip (get k "" current_modes) v in
      let entries : Entries fits targets = simp g (
        assign_all-Entries fits (λ (entry : String × String). entry.0)
          (λ entry. guarded_mode entry.1 (get entry.0 "" current_modes)) plan_modes []
          (λ entry. guarded_mode-NoFlip entry.1 (get entry.0 "" current_modes))
          (empty-Entries fits)) in
      get-Entries fits id "battery_standby" targets (ground arith) entries

  -- Without the guard any change, and else one to or from standby.
  abbrev pub MayWrite : String → String → F → Type 0
  MayWrite current mode avg_w =
      (guard_holds cfg avg_w ≡ false)
      ⊎ ((str_eq mode "battery_standby" || str_eq current "battery_standby") ≡ true)

  -- What a command may be, by its type: a change of mode is for a battery that is not in emergency
  -- recovery, from another mode, and to or from standby while the guard holds; fast charging is only
  -- ever turned off, for a battery that is not in emergency recovery.
  abbrev pub LawfulIn :
      List (String × String) → List String → F → String → CommandType → Value F → Type 0
  LawfulIn current_modes emergency_bats avg_w id set_ems_mode (text mode) =
      (contains id emergency_bats ≡ false)
      × (str_eq (get id "" current_modes) mode ≡ false)
      × MayWrite (get id "" current_modes) mode avg_w
  LawfulIn current_modes emergency_bats avg_w id set_ems_mode _ = ⊥
  LawfulIn current_modes emergency_bats avg_w id set_fast_charging (flag false) =
      contains id emergency_bats ≡ false
  LawfulIn current_modes emergency_bats avg_w id set_fast_charging _ = ⊥
  LawfulIn current_modes emergency_bats avg_w id _ _ = Unit

  abbrev pub IsLawful : List (String × String) → List String → F → Command F → Type 0
  IsLawful current_modes emergency_bats avg_w c =
      LawfulIn current_modes emergency_bats avg_w c.target_id c.command_type c.value

  module _ (current_modes : List (String × String)) (emergency_bats : List String) (avg_w : F) where
    abbrev Lawful : List (Command F) → Type 0
    Lawful cs = All (IsLawful current_modes emergency_bats avg_w) cs

    bat_commands_of-Lawful :
        (plan_modes : List (String × String)) (entry : String × ℤ)
        → let targets = apply_mode_change_guard cfg plan_modes current_modes avg_w in
          Lawful (bat_commands_of targets current_modes emergency_bats entry)
    unfolding bat_commands_of
    bat_commands_of-Lawful plan_modes (id, limit_w) =
        let targets = apply_mode_change_guard cfg plan_modes current_modes avg_w in
        let current = get id "" current_modes in
        let target = get id "battery_standby" targets in
        elim (Bool-cases (contains id emergency_bats)) [
          | inl e ↦ simp e (tt, tt)
          | inr e ↦ elim (Bool-cases (str_eq current target)) [
            | inl same ↦ simp (e, same) (tt, (refl, tt))
            | inr other ↦
                let steady : MayWrite current target avg_w =
                  elim (Bool-cases (guard_holds cfg avg_w)) [
                    | inl g ↦
                        let calm = targets-NoFlip plan_modes current_modes avg_w id g in
                        inr (ground (arith, calm, other))
                    | inr g ↦ inl g
                  ] in
                simp (e, other) ((refl, refl, steady), (tt, (refl, tt)))
          ]
        ]

    ev_commands-Lawful : (t : ℤ) (s : BudgetState F) → Lawful (ev_commands t s)
    unfolding ev_commands
    ev_commands-Lawful t s = ground arith

    cascade-Lawful :
        (inp : BudgetInput F) (alloc : List (String × ℤ)) (now_ts : F) (s : BudgetState F)
        (r : Switched F)
        → IsCascade cfg inp alloc now_ts s r
        → Lawful r.1
    cascade-Lawful inp alloc now_ts s _ (turns_on c m is_off free first e) = (tt, tt)
    cascade-Lawful inp alloc now_ts s _ (turns_off c m is_on free first i) = (tt, tt)
    cascade-Lawful inp alloc now_ts s _ (keeps h) = tt
    cascade-Lawful inp alloc now_ts s _ (waits h) = tt
    cascade-Lawful inp alloc now_ts s _ (has_none h) = tt

    day-Lawful : (b : Bool) (t : ℤ) (s : BudgetState F) → Lawful (if b then ev_commands t s else [])
    day-Lawful true t s = ev_commands-Lawful t s
    day-Lawful false t s = tt

  -- If the allocator's window holds a reading and an enabled tuner has a first tier, a cycle returns,
  -- and each command that it emits keeps to the modes that the inverters report: a mode is written only
  -- where it is not the current one and the battery is not in emergency recovery, and while the grid's
  -- average is steady and the tuner enabled, only to or from standby; fast charging is written only as
  -- off, and not for a battery in emergency recovery.
  pub allocate-IsLawful :
      IsUsable cfg
      → (reads : BudgetReads F) (inp : BudgetInput F) (s : BudgetState F)
      → (p : BudgetState F × BudgetResult F) × (allocate cfg reads inp s ≡ some p)
        × All
            (IsLawful inp.bat_modes p.1.emergency_recovery
              (avg (observe cfg reads inp s).grid_rolling))
            p.1.commands
  unfolding conclude bat_commands
  allocate-IsLawful u reads inp s =
      let c = allocate_total cfg u reads inp s in
      let alloc = tuned_alloc cfg c.plan c.tune_delta in
      let seen = observe cfg reads inp s in
      let calm = avg seen.grid_rolling in
      let bad = c.plan.emergency_recovery in
      let law = IsLawful inp.bat_modes bad calm in
      let p = conclude cfg reads inp c.plan alloc seen in
      let targets = apply_mode_change_guard cfg c.plan.modes inp.bat_modes calm in
      let t = ev_target_of cfg inp (available_surplus_w inp) seen in
      let loads = cascade_consumers cfg inp alloc reads.at_cascade seen in
      let of_bats =
        All-flat_map law (bat_commands_of targets inp.bat_modes bad) alloc
          (λ entry m. bat_commands_of-Lawful inp.bat_modes bad calm c.plan.modes entry) in
      let of_loads =
        cascade-Lawful inp.bat_modes bad calm inp alloc reads.at_cascade seen loads
          (cascade_consumers-IsCascade cfg inp alloc reads.at_cascade seen) in
      let of_ev = day-Lawful inp.bat_modes bad calm (is_daytime inp.hour) t seen in
      (p, c.is_result, All-append law _ _ of_ev (All-append law _ _ of_bats of_loads))
