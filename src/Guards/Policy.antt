-- ===== src/Guards/Policy.antt =====
-- `GuardPolicy.evaluate`: the grid guard, and the export guard after it.
use carma_box_v.Base.{◌≡◌, Bool, ◌||◌, [], ◌∷◌, ◌++◌, arith, if◌then◌else◌}
use carma_box_v.Base.Int.{pos}
use carma_box_v.Base.Floats.{Float}
use carma_box_v.Models.{set_export_limit, int}
use carma_box_v.Guards.Types.{GuardConfig, GuardInput, GuardState, ClockReads, warning}
use carma_box_v.Guards.Battery.{command, is_ok}
use carma_box_v.Guards.Evaluate.{evaluate, evaluate_export, merge_export, evaluate_policy}

module _ {F : Type 0} ⦃f : Float F⦄ where
  open f use {lt, le, lit}

  -- Export is limited exactly when PV is below 0.5 kW or the price is not above 0.
  abbrev pub limits_export : F → F → Bool
  limits_export pv_kw price = lt pv_kw (lit 5 1) || le price (lit 0 0)

  -- The policy keeps the evaluation of the grid guard, and its state: to the commands it appends one
  -- export limit of 0 for all when export is limited, and then it lifts the level from OK to WARNING
  -- and from no other level. The rest of the evaluation but the violations is untouched.
  pub evaluate_policy_extends :
      (cfg : GuardConfig F) (i : GuardInput F) (pv_kw price : F) (reads : ClockReads F)
      (s : GuardState F)
      → let (s', r) = evaluate cfg i reads s in
        let (s'', r') = evaluate_policy cfg i pv_kw price reads s in
        (s'' ≡ s')
        × (r'.commands ≡ (
            if limits_export pv_kw price
            then r.commands ++ (command "EXPORT" set_export_limit "all" (int (pos 0)) ∷ [])
            else r.commands))
        × (r'.level ≡ (
            if limits_export pv_kw price
            then if is_ok r.level then warning else r.level
            else r.level))
        × (r'.headroom_kw ≡ r.headroom_kw)
        × (r'.replan_needed ≡ r.replan_needed)
        × (r'.batteries_at_floor ≡ r.batteries_at_floor)
  unfolding evaluate_policy evaluate_export merge_export
  evaluate_policy_extends cfg i pv_kw price reads s = ground arith
