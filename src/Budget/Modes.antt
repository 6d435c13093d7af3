-- ===== src/Budget/Modes.antt =====
-- Which mode the commands of a cycle leave a battery in.
use carma_box_v.Base.{
  ◌≡◌, refl, ap, ◌∙◌, inl, inr, Bool, true, false, ◌||◌, List, [], ◌∷◌, ◌++◌, some, none, subst,
  String, arith, contains, Bool-cases, if◌then◌else◌, str_eq, eq_iff,
}
use carma_box_v.Base.Int.{ℤ}
use carma_box_v.Base.Floats.{Float}
use carma_box_v.Models.{CommandType, Value, text, set_ems_mode}
use carma_box_v.Executor.Types.{Command}
use carma_box_v.ModeChange.Manager.{lookup, assign}
use carma_box_v.ModeChange.Table.{IsDict, lookup-assign, lookup-assign_other}
use carma_box_v.Dicts.{get, assign_where}
use carma_box_v.Budget.Types.{BudgetConfig, BudgetInput, BudgetState}
use carma_box_v.Budget.Batteries.{
  guarded_mode, guard_holds, apply_mode_change_guard, bat_commands_of, bat_commands,
}
use carma_box_v.Budget.Charger.{ev_commands}
use carma_box_v.Budget.Cascade.{Switched, cascade_consumers}
use carma_box_v.Budget.Loads.{
  IsCascade, turns_on, turns_off, keeps, waits, has_none, cascade_consumers-IsCascade,
}

module _ {V W : Type 0} (val : String × V → W) where
  -- A loop over a dict that sets each of its keys.
  lookup-assign_other_keys :
      (k : String) (d : List (String × V)) (e : List (String × W))
      → lookup k d ≡ none
      → lookup k (assign_where (λ x. true) (λ x. x.0) val d e) ≡ lookup k e
  unfolding assign_where lookup
  lookup-assign_other_keys k [] e h = refl
  lookup-assign_other_keys k ((j, v) ∷ d) e h =
      let other : str_eq k j ≡ false = ground arith in
      lookup-assign_other_keys k d (assign j (val (j, v)) e) (ground arith)
      ∙ lookup-assign_other k j (val (j, v)) e other

  lookup-assign_all :
      (k : String) (v : V) (d : List (String × V)) (e : List (String × W))
      → IsDict d
      → lookup k d ≡ some v
      → lookup k (assign_where (λ x. true) (λ x. x.0) val d e) ≡ some (val (k, v))
  unfolding assign_where lookup
  lookup-assign_all k v [] e h l = ground arith
  lookup-assign_all k v ((j, w) ∷ d) e h l = elim (Bool-cases (str_eq k j)) [
    | inl same ↦
        let key : k ≡ j = (eq_iff k j).0 same in
        let found : v ≡ w = grind (arith, l, same) in
        rw (key, found)
          (lookup-assign_other_keys j d (assign j (val (j, w)) e) h.0
            ∙ lookup-assign j (val (j, w)) e)
    | inr other ↦ lookup-assign_all k v d (assign j (val (j, w)) e) h.1 (ground arith)
  ]

module _ {F : Type 0} where
  -- A command for a battery's mode sets it, any other leaves it.
  abbrev pub written_mode : String → String → CommandType → String → Value F → String
  written_mode id mode set_ems_mode target (text m) = if str_eq id target then m else mode
  written_mode id mode set_ems_mode target _ = mode
  written_mode id mode _ target _ = mode

  -- The mode of a battery after the commands, from its mode before them.
  abbrev pub mode_after : String → String → List (Command F) → String
  mode_after id mode [] = mode
  mode_after id mode (c ∷ cs) =
      mode_after id (written_mode id mode c.command_type c.target_id c.value) cs

  pub mode_after-append :
      (id mode : String) (cs ds : List (Command F))
      → mode_after id mode (cs ++ ds) ≡ mode_after id (mode_after id mode cs) ds
  mode_after-append id mode [] ds = refl
  mode_after-append id mode (c ∷ cs) ds =
      mode_after-append id (written_mode id mode c.command_type c.target_id c.value) cs ds

  pub mode_after-ev_commands :
      (id mode : String) (b : Bool) (t : ℤ) (s : BudgetState F)
      → mode_after id mode (if b then ev_commands t s else []) ≡ mode
  unfolding ev_commands
  mode_after-ev_commands id mode b t s = ground arith

-- What the commands for the batteries do to the mode of one of them.
module _ (targets current_modes : List (String × String)) (bad : List String) (id : String) where
  abbrev target : String
  target = get id "battery_standby" targets

  abbrev current : String
  current = get id "" current_modes

  abbrev outcome : String → String
  outcome mode = if contains id bad || str_eq current target then mode else target

  module _ (F : Type 0) where
    abbrev of_bat : String × ℤ → List (Command F)
    of_bat entry = bat_commands_of targets current_modes bad entry

    abbrev of_bats : List (String × ℤ) → List (Command F)
    of_bats alloc = bat_commands targets current_modes bad alloc

    mode_after_self : (mode : String) (v : ℤ) → mode_after id mode (of_bat (id, v)) ≡ outcome mode
    unfolding bat_commands_of
    mode_after_self mode v = ground (arith, eq_iff id id)

    mode_after-own :
        (mode j : String) (v : ℤ)
        → str_eq id j ≡ true
        → mode_after id mode (of_bat (j, v)) ≡ outcome mode
    mode_after-own mode j v same =
        subst (λ k. mode_after id mode (of_bat (k, v)) ≡ outcome mode) ((eq_iff id j).0 same)
          (mode_after_self mode v)

    mode_after-other :
        (mode j : String) (v : ℤ) → str_eq id j ≡ false → mode_after id mode (of_bat (j, v)) ≡ mode
    unfolding bat_commands_of
    mode_after-other mode j v h = ground arith

    mode_after-outcome :
        (mode : String) (alloc : List (String × ℤ))
        → mode_after id (outcome mode) (of_bats alloc) ≡ outcome mode
    unfolding bat_commands
    mode_after-outcome mode [] = refl
    mode_after-outcome mode ((j, v) ∷ alloc) =
        let set = outcome mode in
        let once : mode_after id set (of_bat (j, v)) ≡ set = elim (Bool-cases (str_eq id j)) [
          | inl same ↦ mode_after-own set j v same ∙ ground arith
          | inr other ↦ mode_after-other set j v other
        ] in
        mode_after-append id set (of_bat (j, v)) (of_bats alloc)
        ∙ ap (λ m. mode_after id m (of_bats alloc)) once
        ∙ mode_after-outcome mode alloc

    mode_after-bats :
        (mode : String) (w : ℤ) (alloc : List (String × ℤ))
        → lookup id alloc ≡ some w
        → mode_after id mode (of_bats alloc) ≡ outcome mode
    unfolding bat_commands lookup
    mode_after-bats mode w [] h = ground arith
    mode_after-bats mode w ((j, v) ∷ alloc) h =
        mode_after-append id mode (of_bat (j, v)) (of_bats alloc)
        ∙ elim (Bool-cases (str_eq id j)) [
          | inl same ↦
              ap (λ m. mode_after id m (of_bats alloc)) (mode_after-own mode j v same)
              ∙ mode_after-outcome mode alloc
          | inr other ↦
              ap (λ m. mode_after id m (of_bats alloc)) (mode_after-other mode j v other)
              ∙ mode_after-bats mode w alloc (ground arith)
        ]

    -- A battery in recovery stays in its mode, any other is set to its target.
    pub mode_after-current :
        (w : ℤ) (alloc : List (String × ℤ))
        → lookup id alloc ≡ some w
        → mode_after id current (of_bats alloc) ≡ (if contains id bad then current else target)
    mode_after-current w alloc h =
        mode_after-bats current w alloc h ∙ ground (arith, eq_iff current target)

module _ {F : Type 0} ⦃f : Float F⦄ (cfg : BudgetConfig F) where
  IsCascade-mode_after :
      (inp : BudgetInput F) (alloc : List (String × ℤ)) (now_ts : F) (s : BudgetState F)
      (id mode : String) (r : Switched F)
      → IsCascade cfg inp alloc now_ts s r
      → mode_after id mode r.1 ≡ mode
  IsCascade-mode_after inp alloc now_ts s id mode _ (turns_on c m is_off free first e) = refl
  IsCascade-mode_after inp alloc now_ts s id mode _ (turns_off c m is_on free first i) = refl
  IsCascade-mode_after inp alloc now_ts s id mode _ (keeps h) = refl
  IsCascade-mode_after inp alloc now_ts s id mode _ (waits h) = refl
  IsCascade-mode_after inp alloc now_ts s id mode _ (has_none h) = refl

  pub mode_after-cascade :
      (inp : BudgetInput F) (alloc : List (String × ℤ)) (now_ts : F) (s : BudgetState F)
      (id mode : String)
      → mode_after id mode (cascade_consumers cfg inp alloc now_ts s).1 ≡ mode
  mode_after-cascade inp alloc now_ts s id mode =
      IsCascade-mode_after inp alloc now_ts s id mode (cascade_consumers cfg inp alloc now_ts s)
        (cascade_consumers-IsCascade cfg inp alloc now_ts s)

  -- The mode to set for a battery that the plan has a mode for.
  pub target-guarded :
      (plan_modes current_modes : List (String × String)) (avg_w : F) (id mode : String)
      → IsDict plan_modes
      → lookup id plan_modes ≡ some mode
      → get id "battery_standby" (apply_mode_change_guard cfg plan_modes current_modes avg_w)
        ≡ (if guard_holds cfg avg_w then guarded_mode mode (get id "" current_modes) else mode)
  unfolding apply_mode_change_guard
  target-guarded plan_modes current_modes avg_w id mode d l =
      elim (Bool-cases (guard_holds cfg avg_w)) [
        | inl g ↦
            let set =
              lookup-assign_all (λ entry. guarded_mode entry.1 (get entry.0 "" current_modes)) id
                mode plan_modes [] d l in
            rw (g, get, set) refl
        | inr g ↦ rw (g, get, l) refl
      ]
