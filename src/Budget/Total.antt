-- ===== src/Budget/Total.antt =====
-- When `allocate` returns: which parts of its result stand for which part of the plan.
use carma_box_v.Base.{
  ℕ, zero, suc, ◌-◌, ◌/◌, ◌≡◌, refl, ap, Bool, true, false, List, [], ◌∷◌, ◌++◌, some, none, String,
  arith, length, is_empty, drop, ltb, leb, inl, inr, In, map, ◌&&◌, str_eq, eq_iff, Bool-cases, All,
}
use carma_box_v.Base.Int.{ℤ, pos, ◌*ℤ◌}
use carma_box_v.Base.Floats.{Float, abs}
use carma_box_v.ModeChange.Manager.{lookup}
use carma_box_v.ZeroGrid.Types.{ZeroGridPlan}
use carma_box_v.ZeroGrid.Plan.{plan_banks, plan_zero_grid}
use carma_box_v.ZeroGrid.Contract.{HasLimits, banks_of, with_limits-banks_of}
use carma_box_v.Surplus.Dispatch.{insert_by, sort_by}
use carma_box_v.Budget.Tuner.{direction, correction_of, enabled_delta, tune_grid_delta}
use carma_box_v.Budget.Types.{BudgetConfig, BudgetInput, BudgetState, BudgetReads}
use carma_box_v.Budget.Facts.{nth, push_reading, median}
use carma_box_v.Budget.Batteries.{
  snapshot_of, zg_tuning, zg_bats, zg_limits, default_limits, zero_grid_plan, tuned_alloc,
}
use carma_box_v.Budget.Allocate.{observe, conclude, allocate}

nth_within :
    {A : Type 0} (n : ℕ) (xs : List A) → ltb n (length xs) ≡ true → (x : A) × (nth n xs ≡ some x)
unfolding nth
nth_within n [] h = ground arith
nth_within zero (x ∷ xs) h = (x, refl)
nth_within (suc n) (x ∷ xs) h = nth_within n xs (ground arith)

module _ {A : Type 0} (before : A → A → Bool) where
  length-insert_by : (x : A) (xs : List A) → length (insert_by before x xs) ≡ suc (length xs)
  unfolding insert_by
  length-insert_by x [] = refl
  length-insert_by x (y ∷ ys) = ground (arith, length-insert_by x ys)

  length-sort_by : (xs : List A) → length (sort_by before xs) ≡ length xs
  unfolding sort_by
  length-sort_by [] = refl
  length-sort_by (x ∷ xs) =
      ground (arith, length-sort_by xs, length-insert_by x (sort_by before xs))

length-push : {A : Type 0} (x : A) (xs : List A) → length (xs ++ (x ∷ [])) ≡ suc (length xs)
length-push x [] = refl
length-push x (y ∷ ys) = ap suc (length-push x ys)

length-drop_one : {A : Type 0} (xs : List A) → length (drop 1 xs) ≡ length xs - 1
unfolding drop
length-drop_one [] = refl
length-drop_one (x ∷ xs) = omega arith

module _ {F : Type 0} ⦃f : Float F⦄ where
  length-push_reading :
      (window : ℕ) (grid_power_w : F) (history : List F)
      → leb 1 window ≡ true
      → leb 1 (length (push_reading window grid_power_w history)) ≡ true
  unfolding push_reading
  length-push_reading window grid_power_w history h =
      ground
        (arith, length-push grid_power_w history, length-drop_one (history ++ (grid_power_w ∷ [])))

  median_total :
      (history : List F) → leb 1 (length history) ≡ true → (m : F) × (median history ≡ some m)
  unfolding median
  median_total history h =
      nth_within (length history / 2) (sort_by f.lt history)
        (ground (arith, length-sort_by f.lt history))

All-mapped :
    {A B : Type 0} (P : B → Type 0) (g : A → B) (xs : List A)
    → ((x : A) → In x xs → P (g x))
    → All P (map g xs)
All-mapped P g [] h = tt
All-mapped P g (x ∷ xs) h = (h x (inl refl), All-mapped P g xs (λ y m. h y (inr m)))

module _ {F : Type 0} ⦃f : Float F⦄ (cfg : BudgetConfig F) where
  open f use {lt}

  -- The window holds a reading, and an enabled tuner has a first tier.
  abbrev pub IsUsable : Type 0
  IsUsable =
      (leb 1 cfg.grid_smoothing_window ≡ true)
      × ((cfg.grid_tuner.enabled && is_empty cfg.grid_tuner.tiers_w) ≡ false)

  pub zg_limits-lookup :
      (e : String × F) (socs : List (String × F))
      → In e socs
      → lookup e.0 (zg_limits cfg socs) ≡ some (default_limits cfg)
  unfolding lookup
  zg_limits-lookup e [] m = elim m [ ]
  zg_limits-lookup e (x ∷ socs) (inl same) = rw same (ground (arith, eq_iff x.0 x.0))
  zg_limits-lookup e (x ∷ socs) (inr m) = elim (Bool-cases (str_eq e.0 x.0)) [
    | inl found ↦ rw found refl
    | inr other ↦ rw other (zg_limits-lookup e socs m)
  ]

  pub zg_bats-HasLimits :
      (inp : BudgetInput F) → All (HasLimits (zg_limits cfg inp.bat_socs)) (zg_bats cfg inp)
  zg_bats-HasLimits inp =
      All-mapped (HasLimits (zg_limits cfg inp.bat_socs)) (snapshot_of cfg inp) inp.bat_socs
        (λ e m. (default_limits cfg, zg_limits-lookup e inp.bat_socs m))

  zero_grid_plan_total :
      (inp : BudgetInput F) (w : F) → (p : ZeroGridPlan) × (zero_grid_plan cfg inp w ≡ some p)
  unfolding zero_grid_plan plan_zero_grid
  zero_grid_plan_total inp w =
      let limits = zg_limits cfg inp.bat_socs in
      let banks = banks_of limits (zg_bats cfg inp) (zg_bats-HasLimits inp) in
      (
        plan_banks (zg_tuning cfg) none w banks,
        rw (with_limits-banks_of limits (zg_bats cfg inp) (zg_bats-HasLimits inp)) refl,
      )

  enabled_delta_total :
      (raw : F) (tiers : List F) (corrs : List ℤ)
      → is_empty tiers ≡ false
      → (d : ℤ) × (enabled_delta raw tiers corrs ≡ some d)
  unfolding enabled_delta
  enabled_delta_total raw [] corrs h = ground arith
  enabled_delta_total raw (first ∷ tiers) corrs h = elim (Bool-cases (lt (abs raw) first)) [
    | inl e ↦ (pos 0, rw e refl)
    | inr e ↦ (direction raw *ℤ correction_of (abs raw) (first ∷ tiers) corrs (pos 0), rw e refl)
  ]

  tune_grid_delta_total :
      (raw : F) → IsUsable → (d : ℤ) × (tune_grid_delta raw cfg.grid_tuner ≡ some d)
  unfolding tune_grid_delta
  tune_grid_delta_total raw u = elim (Bool-cases cfg.grid_tuner.enabled) [
    | inl e ↦
        let tiers = cfg.grid_tuner.tiers_w in
        let corrs = cfg.grid_tuner.corrections_w in
        let (d, h) = enabled_delta_total raw tiers corrs (ground (arith, u.1)) in (d, simp e h)
    | inr e ↦ (pos 0, rw e refl)
  ]

  -- What a cycle returns, and where its plan and its correction come from.
  pub record Cycle (reads : BudgetReads F) (inp : BudgetInput F) (s : BudgetState F) : Type 0 where
    pub smoothed_w : F
    pub plan : ZeroGridPlan
    pub tune_delta : ℤ
    pub is_plan : zero_grid_plan cfg inp smoothed_w ≡ some plan
    pub is_result :
        allocate cfg reads inp s
        ≡ some (
            conclude cfg reads inp plan (tuned_alloc cfg plan tune_delta) (observe cfg reads inp s))

  pub allocate_total :
      IsUsable
      → (reads : BudgetReads F) (inp : BudgetInput F) (s : BudgetState F) → Cycle reads inp s
  unfolding allocate observe
  allocate_total u reads inp s =
      let seen = (observe cfg reads inp s).grid_history_w in
      let (w, is_median) =
        median_total seen (length-push_reading cfg.grid_smoothing_window inp.grid_power_w _ u.0) in
      let (plan, is_plan) = zero_grid_plan_total inp w in
      let (d, is_delta) = tune_grid_delta_total inp.grid_power_w u in
      record {
        smoothed_w = w;
        plan = plan;
        tune_delta = d;
        is_plan = is_plan;
        is_result = rw (is_median, is_plan, is_delta) refl;
      }
