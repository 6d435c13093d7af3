-- ===== src/Budget/Planned.antt =====
-- The plan of a cycle: its modes are a dict, and it lists the batteries below their floor.
use carma_box_v.Base.{
  ◌≡◌, refl, sym, ap, ◌∙◌, inl, inr, true, false, ◌||◌, List, [], ◌∷◌, Option, none, some, String,
  arith, In, map, contains, Bool-cases, any, subst, if◌then◌else◌,
}
use carma_box_v.Base.Floats.{Float}
use carma_box_v.ModeChange.Manager.{lookup}
use carma_box_v.ModeChange.Table.{IsDict}
use carma_box_v.Dicts.{keys}
use carma_box_v.Dicts.Fill.{
  assign_where-IsDict, lookup-assign_where, contains-keys, has_key, DistinctBy,
}
use carma_box_v.ZeroGrid.Types.{Bank, ZeroGridPlan}
use carma_box_v.ZeroGrid.Plan.{is_below_floor, forced, plan_banks, plan_zero_grid}
use carma_box_v.ZeroGrid.Distribute.{id_of}
use carma_box_v.ZeroGrid.Contract.{
  name_of, bank, banks_of, with_limits-banks_of, banks_of-DistinctBy, banks_of-In,
}
use carma_box_v.Budget.Types.{BudgetConfig, BudgetInput}
use carma_box_v.Budget.Batteries.{
  snapshot_of, zg_bats, zg_limits, default_limits, zg_tuning, zero_grid_plan,
}
use carma_box_v.Budget.Total.{zg_limits-lookup, zg_bats-HasLimits}

pub In-map : {A B : Type 0} (g : A → B) (x : A) (xs : List A) → In x xs → In (g x) (map g xs)
In-map g x [] m = elim m [ ]
In-map g x (y ∷ xs) (inl e) = inl (ap g e)
In-map g x (y ∷ xs) (inr m) = inr (In-map g x xs m)

abbrev pub from_some : {A : Type 0} → A → Option A → A
from_some a none = a
from_some a (some b) = b

module _ {A B : Type 0} (key : B → String) (g : A → B) where
  any-map :
      (k : String) (xs : List A)
      → any (has_key key k) (map g xs) ≡ any (has_key (λ x. key (g x)) k) xs
  any-map k [] = refl
  any-map k (x ∷ xs) = ap (λ b. has_key key k (g x) || b) (any-map k xs)

  map-DistinctBy : (xs : List A) → DistinctBy (λ x. key (g x)) xs → DistinctBy key (map g xs)
  map-DistinctBy [] d = tt
  map-DistinctBy (x ∷ xs) d = (any-map (key (g x)) xs ∙ d.0, map-DistinctBy xs d.1)

contains-keys-none :
    {V : Type 0} (k : String) (d : List (String × V))
    → lookup k d ≡ none
    → contains k (keys d) ≡ false
unfolding lookup
contains-keys-none k [] h = refl
contains-keys-none k ((j, w) ∷ d) h = ground (arith, contains-keys-none k d)

module _ {F : Type 0} ⦃f : Float F⦄ where
  -- The batteries that are listed for recovery are those below their floor.
  contains-forced :
      (b : Bank F) (banks : List (Bank F))
      → DistinctBy id_of banks
      → In b banks
      → contains (id_of b) (keys (forced banks)) ≡ is_below_floor b
  unfolding forced lookup
  contains-forced b banks d m =
      let set : lookup (id_of b) (forced banks)
          ≡ (if is_below_floor b then some ("charge_battery", b.limits.max_charge_w) else none) =
        lookup-assign_where id_of is_below_floor
          (λ (c : Bank F). ("charge_battery", c.limits.max_charge_w)) b banks [] d m in
      elim (Bool-cases (is_below_floor b)) [
        | inl e ↦
            contains-keys (id_of b) ("charge_battery", b.limits.max_charge_w) (forced banks)
              (set ∙ rw e refl)
            ∙ sym e
        | inr e ↦ contains-keys-none (id_of b) (forced banks) (set ∙ rw e refl) ∙ sym e
      ]

module _ {F : Type 0} ⦃f : Float F⦄ (cfg : BudgetConfig F) (inp : BudgetInput F) where
  abbrev zg_banks : List (Bank F)
  zg_banks = banks_of (zg_limits cfg inp.bat_socs) (zg_bats cfg inp) (zg_bats-HasLimits cfg inp)

  pub zg_bats-DistinctBy :
      DistinctBy (λ (e : String × F). e.0) inp.bat_socs → DistinctBy name_of (zg_bats cfg inp)
  zg_bats-DistinctBy d = map-DistinctBy name_of (snapshot_of cfg inp) inp.bat_socs d

  module _ (w : F) (plan : ZeroGridPlan) (h : zero_grid_plan cfg inp w ≡ some plan) where
    plan-plan_banks : plan_banks (zg_tuning cfg) none w zg_banks ≡ plan
    unfolding zero_grid_plan plan_zero_grid
    plan-plan_banks =
        let limits = zg_limits cfg inp.bat_socs in
        let bats = zg_bats cfg inp in
        let has = zg_bats-HasLimits cfg inp in
        let built = plan_banks (zg_tuning cfg) none w zg_banks in
        let is_built : some built ≡ some plan =
          rw⁻¹ h (rw (with_limits-banks_of limits bats has) refl) in
        ap (from_some built) is_built

    pub plan-IsDict : IsDict plan.modes
    unfolding plan_banks
    plan-IsDict =
        subst (λ (q : ZeroGridPlan). IsDict q.modes) plan-plan_banks
          (assign_where-IsDict (λ b. true) id_of _ zg_banks [] tt)

    pub plan-emergency_recovery :
        (entry : String × F)
        → DistinctBy (λ (e : String × F). e.0) inp.bat_socs
        → In entry inp.bat_socs
        → contains entry.0 plan.emergency_recovery
          ≡ is_below_floor (bank (snapshot_of cfg inp entry) (default_limits cfg))
    unfolding plan_banks
    plan-emergency_recovery entry d m =
        let limits = zg_limits cfg inp.bat_socs in
        let bats = zg_bats cfg inp in
        let has = zg_bats-HasLimits cfg inp in
        let b = snapshot_of cfg inp entry in
        subst
          (λ (q : ZeroGridPlan).
            contains entry.0 q.emergency_recovery ≡ is_below_floor (bank b (default_limits cfg)))
          plan-plan_banks
          (contains-forced (bank b (default_limits cfg)) zg_banks
            (banks_of-DistinctBy limits bats has (zg_bats-DistinctBy d))
            (banks_of-In limits b (default_limits cfg) bats has
              (In-map (snapshot_of cfg inp) entry inp.bat_socs m)
              (zg_limits-lookup cfg entry inp.bat_socs m)))
