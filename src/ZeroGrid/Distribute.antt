-- ===== src/ZeroGrid/Distribute.antt =====
-- core/zero_grid.py: `_distribute`, which splits a target among the batteries.
use carma_box_v.Base.{
  is_empty, ◌-◌, ◌/◌, Bool, true, false, List, [], ◌∷◌, String, length, map, take, drop, last, ltb,
  if◌then◌else◌,
}
use carma_box_v.Base.Floats.{Float, gt, fmax, fmin, sum, abs, is_zero}
use carma_box_v.Dicts.{get, values, assign_all}
use carma_box_v.ZeroGrid.Types.{Bank}
use carma_box_v.ZeroGrid.Gain.{zero_w}

module _ {F : Type 0} ⦃f : Float F⦄ where
  open f use {lt, le, add, sub, mul, div, neg, of_int, lit}

  abbrev pub id_of : Bank F → String
  id_of b = b.snapshot.battery_id

  -- The sort is stable.
  unfoldable pub insert_by_soc : Bank F → List (Bank F) → List (Bank F)
  insert_by_soc b [] = b ∷ []
  insert_by_soc b (c ∷ cs) =
      let rest = insert_by_soc b cs in
      if lt c.snapshot.soc_pct b.snapshot.soc_pct then c ∷ rest else b ∷ c ∷ cs

  unfoldable pub sort_by_soc : List (Bank F) → List (Bank F)
  sort_by_soc [] = []
  sort_by_soc (b ∷ bs) = insert_by_soc b (sort_by_soc bs)

  -- The first SoC of a sorted list, and the last one; 0 where there is none, which is no call's case.
  abbrev pub first_soc : List (Bank F) → F
  first_soc [] = zero_w
  first_soc (b ∷ bs) = b.snapshot.soc_pct

  abbrev pub last_soc : List (Bank F) → F
  last_soc [] = zero_w
  last_soc (b ∷ []) = b.snapshot.soc_pct
  last_soc (b ∷ c ∷ cs) = last_soc (c ∷ cs)

  -- `_cap`
  unfoldable pub cap : Bool → Bank F → F
  cap charging b = of_int (if charging then b.limits.max_charge_w else b.limits.max_discharge_w)

  -- `x or 1.0`
  abbrev pub or_one : F → F
  or_one x = if is_zero x then lit 1 0 else x

  -- A group of batteries takes a magnitude, each in proportion to its cap.
  unfoldable pub share_out : Bool → F → List (Bank F) → List (String × F) → List (String × F)
  share_out charging mag group alloc =
      let total = sum (map (cap charging) group) in
      let sign = if charging then neg (lit 1 0) else lit 1 0 in
      assign_all id_of (λ b. mul (mul sign mag) (div (cap charging b) (or_one total))) group alloc

  -- The share of the primary half, and what it leaves of the target to the other half.
  unfoldable pub spread_apart :
      Bool → F → List (Bank F) → List (Bank F) → List (String × F) → List (String × F)
  spread_apart charging target_mag primary secondary alloc =
      let primary_mag = fmin target_mag (sum (map (cap charging) primary)) in
      let shared = share_out charging primary_mag primary alloc in
      let overflow = sub target_mag primary_mag in
      let secondary_mag = fmin overflow (sum (map (cap charging) secondary)) in
      if is_empty secondary
      then shared
      else if gt overflow zero_w
      then share_out charging secondary_mag secondary shared
      else shared

  unfoldable pub distribute_spread : F → List (Bank F) → List (String × F) → List (String × F)
  distribute_spread target sorted alloc =
      let half = length sorted / 2 in
      let mid = if ltb half 1 then 1 else half in
      let rest = length sorted - mid in
      if lt target zero_w
      then spread_apart true (abs target) (take mid sorted) (drop mid sorted) alloc
      else spread_apart false (abs target) (last mid sorted) (take rest sorted) alloc

  unfoldable pub weight_by_cap : Bool → Bank F → F
  weight_by_cap charging b =
      if gt b.snapshot.cap_kwh zero_w then b.snapshot.cap_kwh else cap charging b

  unfoldable pub weight_by_need : Bool → Bank F → F
  weight_by_need charging b =
      let fraction = div b.snapshot.soc_pct (lit 100 0) in
      fmax zero_w (mul (if charging then sub (lit 1 0) fraction else fraction) b.snapshot.cap_kwh)

  unfoldable pub balance_weights : Bool → Bool → List (Bank F) → List (String × F)
  balance_weights need_based charging bats =
      let by_need = assign_all id_of (weight_by_need charging) bats [] in
      let by_cap = assign_all id_of (weight_by_cap charging) bats [] in
      if need_based then if is_zero (sum (values by_need)) then by_cap else by_need else by_cap

  unfoldable pub distribute_balanced :
      Bool → F → List (Bank F) → List (String × F) → List (String × F)
  distribute_balanced need_based target bats alloc =
      let weights = balance_weights need_based (lt target zero_w) bats in
      let total = or_one (sum (values weights)) in
      assign_all id_of (λ b. div (mul target (get (id_of b) zero_w weights)) total) bats alloc

  unfoldable pub distribute_among : F → Bool → F → List (Bank F) → List (String × F)
  distribute_among spread_aggressive need_based target bats =
      let sorted = sort_by_soc bats in
      let alloc = assign_all id_of (λ b. zero_w) bats [] in
      if gt (sub (last_soc sorted) (first_soc sorted)) spread_aggressive
      then distribute_spread target sorted alloc
      else distribute_balanced need_based target bats alloc

  -- `_distribute`
  unfoldable pub distribute : F → Bool → F → List (Bank F) → List (String × F)
  distribute spread_aggressive need_based target [] = []
  distribute spread_aggressive need_based target (b ∷ []) = (id_of b, target) ∷ []
  distribute spread_aggressive need_based target (b ∷ c ∷ bs) =
      distribute_among spread_aggressive need_based target (b ∷ c ∷ bs)
