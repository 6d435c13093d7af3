-- ===== src/Machine/Laws.antt =====
-- What `evaluate` promises of its answer: which target it picks, and when it picks none.
use mathlib.Core.Path.{subst}
use mathlib.Core.Option.{some-injective}
use carma_box_v.Base.{
  ◌≡◌, ◌≢◌, refl, ◌∙◌, ◌⊎◌, inl, inr, true, false, List, [], ◌∷◌, Option, none, some, arith,
  if◌then◌else◌, Bool-cases, Option-cases, All,
}
use carma_box_v.Base.Floats.{Float}
use carma_box_v.Models.{Scenario, same_scenario, Snapshot}
use carma_box_v.Models.Laws.{same_scenario_iff}
use carma_box_v.Machine.Entry.{MachineConfig, check_entry, should_exit}
use carma_box_v.Machine.Evaluate.{
  is_allowed, priority, find_allowed, find_any, or_recover, next_scenario,
}

-- The scenarios of a list before the first `t`.
abbrev pub preceding : Scenario → List Scenario → List Scenario
preceding t [] = []
preceding t (s ∷ rest) = if same_scenario s t then [] else s ∷ preceding t rest

or_recover-none : (o o' : Option Scenario) → or_recover o o' ≡ none → o ≡ none
or_recover-none none o' e = refl
or_recover-none (some s) o' e = e

All-preceding :
    (P : Scenario → Type 0) (t s : Scenario) (rest : List Scenario)
    → P s
    → All P (preceding t rest)
    → All P (preceding t (s ∷ rest))
All-preceding P t s rest p ps = elim (Bool-cases (same_scenario s t)) [
  | inl e ↦ rw e tt
  | inr e ↦ rw e (p, ps)
]

module _ {F : Type 0} ⦃f : Float F⦄ (cfg : MachineConfig F) (current : Scenario)
    (snap : Snapshot F) where
  -- Not a target: the current scenario, or one whose entry condition fails.
  abbrev pub Unfit : Scenario → Type 0
  Unfit s = (s ≡ current) ⊎ (check_entry cfg s snap ≡ false)

  -- Not a target of the matrix.
  abbrev pub Declined : Scenario → Type 0
  Declined s = (is_allowed current s ≡ false) ⊎ Unfit s

  -- A target that a loop found, with what it passed over before it.
  abbrev Found : (Scenario → Type 0) → Scenario → List Scenario → Type 0
  Found P t ss = (t ≢ current) × (check_entry cfg t snap ≡ true) × All P (preceding t ss)

  Found-skip :
      (P : Scenario → Type 0) (t s : Scenario) (rest : List Scenario)
      → P s
      → Found P t rest
      → Found P t (s ∷ rest)
  Found-skip P t s rest p (ne, fit, before) = (ne, fit, All-preceding P t s rest p before)

  Found-here :
      (P : Scenario → Type 0) (t s : Scenario) (rest : List Scenario)
      → same_scenario s current ≡ false
      → check_entry cfg s snap ≡ true
      → some s ≡ some t
      → Found P t (s ∷ rest)
  Found-here P t s rest ne fit e =
      let same : s ≡ t = cc in
      rw (← same) (
        λ at_current. ground (arith, same_scenario_iff s current),
        fit,
        rw ((same_scenario_iff s s).1 refl) tt,
      )

  find_allowed-some :
      (t : Scenario) (ss : List Scenario)
      → find_allowed cfg current snap ss ≡ some t
      → (is_allowed current t ≡ true) × Found Declined t ss
  unfolding find_allowed
  find_allowed-some t [] e = cc
  find_allowed-some t (s ∷ rest) e = elim (Bool-cases (same_scenario s current)) [
    | inl h ↦
        let (ok, found) = find_allowed-some t rest (rw h at e) in
        (ok, Found-skip Declined t s rest (inr (inl ((same_scenario_iff s current).0 h))) found)
    | inr h ↦ elim (Bool-cases (is_allowed current s)) [
      | inr h' ↦
          let (ok, found) = find_allowed-some t rest (rw (h, h') at e) in
          (ok, Found-skip Declined t s rest (inl h') found)
      | inl h' ↦ elim (Bool-cases (check_entry cfg s snap)) [
        | inr h'' ↦
            let (ok, found) = find_allowed-some t rest (rw (h, h', h'') at e) in
            (ok, Found-skip Declined t s rest (inr (inr h'')) found)
        | inl h'' ↦
            let e' : some s ≡ some t = rw (h, h', h'') at e in
            (
              subst (λ x. is_allowed current x ≡ true) (some-injective _ _ e') h',
              Found-here Declined t s rest h h'' e',
            )
      ]
    ]
  ]

  find_any-some :
      (t : Scenario) (ss : List Scenario) → find_any cfg current snap ss ≡ some t → Found Unfit t ss
  unfolding find_any
  find_any-some t [] e = cc
  find_any-some t (s ∷ rest) e = elim (Bool-cases (same_scenario s current)) [
    | inl h ↦
        Found-skip Unfit t s rest (inl ((same_scenario_iff s current).0 h))
          (find_any-some t rest (rw h at e))
    | inr h ↦ elim (Bool-cases (check_entry cfg s snap)) [
      | inr h' ↦ Found-skip Unfit t s rest (inr h') (find_any-some t rest (rw (h, h') at e))
      | inl h' ↦ Found-here Unfit t s rest h h' (rw (h, h') at e)
    ]
  ]

  find_allowed-none :
      (ss : List Scenario) → find_allowed cfg current snap ss ≡ none → All Declined ss
  unfolding find_allowed
  find_allowed-none [] e = tt
  find_allowed-none (s ∷ rest) e =
      ground (arith, find_allowed-none rest, same_scenario_iff s current)

  -- The loop passes over what is no target.
  find_allowed-skip :
      (s : Scenario) (rest : List Scenario)
      → Declined s
      → find_allowed cfg current snap (s ∷ rest) ≡ find_allowed cfg current snap rest
  unfolding find_allowed
  find_allowed-skip s rest d = ground (arith, same_scenario_iff s current)

  find_allowed_nowhere :
      (ss : List Scenario) → All Declined ss → find_allowed cfg current snap ss ≡ none
  find_allowed_nowhere [] d = unfold find_allowed in refl
  find_allowed_nowhere (s ∷ rest) (d, ds) =
      find_allowed-skip s rest d ∙ find_allowed_nowhere rest ds

  find_any-none : (ss : List Scenario) → find_any cfg current snap ss ≡ none → All Unfit ss
  unfolding find_any
  find_any-none [] e = tt
  find_any-none (s ∷ rest) e = ground (arith, find_any-none rest, same_scenario_iff s current)

  find_any-skip :
      (s : Scenario) (rest : List Scenario)
      → Unfit s
      → find_any cfg current snap (s ∷ rest) ≡ find_any cfg current snap rest
  unfolding find_any
  find_any-skip s rest d = ground (arith, same_scenario_iff s current)

  find_any_nowhere : (ss : List Scenario) → All Unfit ss → find_any cfg current snap ss ≡ none
  find_any_nowhere [] d = unfold find_any in refl
  find_any_nowhere (s ∷ rest) (d, ds) = find_any-skip s rest d ∙ find_any_nowhere rest ds

  -- How a target is justified: by the matrix, as the first of its targets that fits; or by the
  -- recovery, if the scenario is to be left and the matrix has no target that fits, as the first
  -- scenario that does.
  abbrev pub Justified : Scenario → Type 0
  Justified t =
      ((is_allowed current t ≡ true) × All Declined (preceding t priority))
      ⊎ ((should_exit cfg current snap ≡ true)
          × All Declined priority
          × All Unfit (preceding t priority))

  pub next_scenario-some :
      (t : Scenario)
      → next_scenario cfg current snap ≡ some t
      → (t ≢ current) × (check_entry cfg t snap ≡ true) × Justified t
  unfolding next_scenario
  next_scenario-some t e = elim (Option-cases (find_allowed cfg current snap priority)) [
    | inr (s, found) ↦
        let same : s ≡ t = ground (arith, found) in
        let (ok, rest) = find_allowed-some t priority (rw (← same) found) in
        let (ne, fit, before) = rest in (ne, fit, inl (ok, before))
    | inl nowhere ↦ elim (Bool-cases (should_exit cfg current snap)) [
      | inl leave ↦
          let (ne, fit, before) = find_any-some t priority (rw (nowhere, leave) at e) in
          (ne, fit, inr (leave, find_allowed-none priority nowhere, before))
      | inr stay ↦ let no : none ≡ some t = rw (nowhere, stay) at e in cc
    ]
  ]

  pub next_scenario-none :
      next_scenario cfg current snap ≡ none
      → All Declined priority × (should_exit cfg current snap ≡ true → All Unfit priority)
  unfolding next_scenario
  next_scenario-none e =
      let nowhere : find_allowed cfg current snap priority ≡ none =
        elim (Bool-cases (should_exit cfg current snap)) [
          | inl leave ↦ or_recover-none _ _ (rw leave at e)
          | inr stay ↦ rw stay at e
        ] in
      (
        find_allowed-none priority nowhere,
        λ leave. find_any-none priority (rw (nowhere, leave) at e),
      )

  pub next_scenario_nowhere :
      All Declined priority
      → (should_exit cfg current snap ≡ true → All Unfit priority)
      → next_scenario cfg current snap ≡ none
  unfolding next_scenario
  next_scenario_nowhere d u = elim (Bool-cases (should_exit cfg current snap)) [
    | inl leave ↦ rw (find_allowed_nowhere priority d, leave) (find_any_nowhere priority (u leave))
    | inr stay ↦ rw (stay) (find_allowed_nowhere priority d)
  ]
