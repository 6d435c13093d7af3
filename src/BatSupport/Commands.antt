-- ===== src/BatSupport/Commands.antt =====
-- The commands of a decision to support: whom they are for, and within which limits.
use carma_box_v.Base.{
  ◌≡◌, refl, ◌⊎◌, inl, inr, true, false, List, [], some, String, arith, All, All-flat_map, In,
  Bool-cases,
}
use carma_box_v.Base.Int.{ℤ, pos, ltb_ℤ, leb_ℤ}
use carma_box_v.Base.Floats.{Float}
use carma_box_v.Models.{discharge_pv, same_mode}
use carma_box_v.ModeChange.Manager.{lookup}
use carma_box_v.Dicts.Fill.{DistinctBy, lookup-assign_where}
use carma_box_v.Executor.Types.{Command}
use carma_box_v.BatSupport.Evaluate.{
  SupportConfig, BatInfo, SupportInput, id_of, mode_command, limit_command, commands_for, excess_w,
  clamped, support, proportional_shares, evaluate,
}

module _ {F : Type 0} ⦃f : Float F⦄ (cfg : SupportConfig F) where
  open f use {trunc}

  -- A command for a battery of the cycle: its change to discharge_pv, if it is not in it, or a limit
  -- that is above 0 W, within the battery's own, and the one that the decision reports.
  abbrev pub IsSupport : List (BatInfo F) → List (String × ℤ) → Command F → Type 0
  IsSupport bats per_battery_w c =
      (b : BatInfo F) × In b bats
      × (((c ≡ mode_command b) × (same_mode b.current_mode discharge_pv ≡ false))
          ⊎ ((w : ℤ) × (c ≡ limit_command b w)
              × (ltb_ℤ (pos 0) w ≡ true)
              × (leb_ℤ w (trunc b.max_discharge_w) ≡ true)
              × (lookup b.battery_id per_battery_w ≡ some w)))

  clamped_le :
      (total_w : ℤ) (shares : List (String × F)) (b : BatInfo F)
      → leb_ℤ (clamped cfg total_w shares b) (trunc b.max_discharge_w) ≡ true
  unfolding clamped
  clamped_le total_w shares b = ground arith

  commands_for-IsSupport :
      (bats : List (BatInfo F)) (per_battery_w : List (String × ℤ)) (b : BatInfo F) (w : ℤ)
      → In b bats
      → leb_ℤ w (trunc b.max_discharge_w) ≡ true
      → lookup b.battery_id per_battery_w ≡ some w
      → All (IsSupport bats per_battery_w) (commands_for b w)
  unfolding commands_for
  commands_for-IsSupport bats per_battery_w b w m most found = elim (Bool-cases (leb_ℤ w (pos 0))) [
    | inl e ↦ rw e tt
    | inr e ↦
        let limit : IsSupport bats per_battery_w (limit_command b w) =
          (b, m, inr (w, refl, ground arith, most, found)) in
        elim (Bool-cases (same_mode b.current_mode discharge_pv)) [
          | inl there ↦ rw (e, there) (limit, tt)
          | inr away ↦ rw (e, away) ((b, m, inl (refl, away)), (limit, tt))
        ]
  ]

  support-IsSupport :
      (total_w : ℤ) (bats : List (BatInfo F))
      → DistinctBy id_of bats
      → let d = support cfg total_w bats in All (IsSupport bats d.per_battery_w) d.commands
  unfolding support
  support-IsSupport total_w bats d =
      let alloc = clamped cfg total_w (proportional_shares cfg bats) in
      All-flat_map _ _ bats (λ b m.
        commands_for-IsSupport bats _ b (alloc b) m
          (clamped_le total_w (proportional_shares cfg bats) b)
          (lookup-assign_where id_of {V = ℤ} (λ c. true) alloc b bats [] d m))

  -- If no two batteries share an id, every command of a decision to support is for a battery of the
  -- cycle: its change to discharge_pv, if it is in another mode, or a limit above 0 W that is within the
  -- battery's own and that the decision reports for it.
  pub evaluate-IsSupport :
      (inp : SupportInput F)
      → DistinctBy id_of inp.batteries
      → let d = evaluate cfg inp in All (IsSupport inp.batteries d.per_battery_w) d.commands
  unfolding evaluate
  evaluate-IsSupport inp d =
      let total_w = excess_w cfg inp.total_load_kw in
      elim (Bool-cases (leb_ℤ total_w (pos 0))) [
        | inl spare ↦
            simp spare
              (elim (Bool-cases cfg.enabled) [ inl on ↦ simp on tt | inr off ↦ simp off tt ])
        | inr over ↦ simp over (elim (Bool-cases cfg.enabled) [
          | inl on ↦ simp on (support-IsSupport total_w inp.batteries d)
          | inr off ↦ simp off tt
        ])
      ]
