-- ===== src/Budget/Ramp.antt =====
-- How the current of the EV moves from cycle to cycle.
use carma_box_v.Base.{
  ◌≡◌, refl, sym, ◌⊎◌, inl, inr, Bool, true, false, not, ◌||◌, ◌&&◌, some, arith, leb, Bool-cases,
  subst, if◌then◌else◌,
}
use carma_box_v.Base.Int.{ℤ, pos, negsuc, ◌+ℤ◌, ◌-ℤ◌, ltb_ℤ, leb_ℤ}
use carma_box_v.Base.Floats.{Float, ge}
use carma_box_v.Budget.Types.{BudgetConfig, BudgetInput, BudgetState, BudgetResult, BudgetReads}
use carma_box_v.Budget.Facts.{
  is_daytime, is_fm, ev_wants_charge, bat_can_support_ev, all_bat_full, available_surplus_w,
  count_cycles, ev_power_at_amps,
}
use carma_box_v.Budget.Batteries.{clamp_to, tuned_alloc}
use carma_box_v.Budget.Charger.{ramp_target, allocate_ev_with_ramp, ev_target_of, note_ev}
use carma_box_v.Budget.Allocate.{observe, conclude, allocate}
use carma_box_v.Budget.Total.{IsUsable, allocate_total}

clamp_to_id : (cap x : ℤ) → leb_ℤ (pos 0) x ≡ true → leb_ℤ x cap ≡ true → clamp_to cap x ≡ x
clamp_to_id (pos c) (pos n) low high = ground arith
clamp_to_id (pos c) (negsuc n) low high = ground arith
clamp_to_id (negsuc c) (pos n) low high = ground arith
clamp_to_id (negsuc c) (negsuc n) low high = ground arith

module _ {F : Type 0} ⦃f : Float F⦄ (cfg : BudgetConfig F) where
  -- 0 < `ev_min_amps` <= `ev_max_amps`.
  abbrev pub HasRange : Type 0
  HasRange = (ltb_ℤ (pos 0) cfg.ev_min_amps ≡ true) × (leb_ℤ cfg.ev_min_amps cfg.ev_max_amps ≡ true)

  -- Off, or within the charger's range.
  abbrev pub IsAmps : ℤ → Type 0
  IsAmps amps =
      (amps ≡ pos 0) ⊎ ((leb_ℤ cfg.ev_min_amps amps ≡ true) × (leb_ℤ amps cfg.ev_max_amps ≡ true))

  -- The hour and the batteries allow a charge, and the car wants one.
  abbrev pub may_charge : BudgetInput F → Bool
  may_charge inp =
      is_daytime inp.hour
      && ev_wants_charge inp
      && (is_fm inp.hour || bat_can_support_ev cfg inp || all_bat_full inp cfg)

  abbrev pub covers_start : F → Bool
  covers_start surplus = ge surplus (ev_power_at_amps cfg.ev_min_amps)

  -- How a cycle may set the current, from the counters of that cycle and the current before.
  pub data Ramp (inp : BudgetInput F) (surplus : F) (s : BudgetState F) : ℤ → Type 0 where
    off : may_charge inp ≡ false → Ramp inp surplus s (pos 0)
    wait :
        (inp.ev_charging ≡ false) ⊎ (s.ev_current_amps ≡ pos 0)
        → covers_start surplus ≡ false
        → Ramp inp surplus s (pos 0)
    begin :
        (inp.ev_charging ≡ false) ⊎ (s.ev_current_amps ≡ pos 0)
        → covers_start surplus ≡ true
        → Ramp inp surplus s cfg.ev_min_amps
    hold : inp.ev_charging ≡ true → Ramp inp surplus s s.ev_current_amps
    up :
        inp.ev_charging ≡ true
        → leb cfg.ev_ramp_up_hold_cycles s.consecutive_export_cycles ≡ true
        → Ramp inp surplus s (s.ev_current_amps +ℤ pos 1)
    down :
        inp.ev_charging ≡ true
        → leb cfg.ev_ramp_down_hold_cycles s.consecutive_import_cycles ≡ true
        → Ramp inp surplus s (s.ev_current_amps -ℤ pos 1)

  abbrev Moves : BudgetInput F → F → BudgetState F → ℤ → Type 0
  Moves inp surplus s amps = IsAmps amps × Ramp inp surplus s amps

  abbrev IsIn : ℤ → Type 0
  IsIn a = (leb_ℤ cfg.ev_min_amps a ≡ true) × (leb_ℤ a cfg.ev_max_amps ≡ true)

  clamp_to_within : (x : ℤ) → HasRange → IsAmps x → clamp_to cfg.ev_max_amps x ≡ x
  clamp_to_within x r (inl e) = rw e (ground arith)
  clamp_to_within x r (inr h) = clamp_to_id cfg.ev_max_amps x (ground arith) h.1

  up_IsIn : (a : ℤ) → IsIn a → ltb_ℤ a cfg.ev_max_amps ≡ true → IsIn (a +ℤ pos 1)
  unfolding ◌+ℤ◌
  up_IsIn a h below = ground arith

  down_IsIn : (a : ℤ) → IsIn a → ltb_ℤ cfg.ev_min_amps a ≡ true → IsIn (a -ℤ pos 1)
  unfolding ◌-ℤ◌
  down_IsIn a h above = ground arith

  is_on : (a : ℤ) → IsAmps a → ltb_ℤ (pos 0) a ≡ true → IsIn a
  is_on a (inl e) on =
      let zero_on : ltb_ℤ (pos 0) (pos 0) ≡ true = subst (λ u. ltb_ℤ (pos 0) u ≡ true) e on in
      ground arith
  is_on a (inr h) on = h

  module _ (inp : BudgetInput F) (remaining_w : F) (s : BudgetState F) (r : HasRange) where
    abbrev Result : Type 0
    Result = Moves inp remaining_w s (ramp_target cfg inp remaining_w s)

    idle-Moves :
        IsAmps s.ev_current_amps
        → (ltb_ℤ (pos 0) s.ev_current_amps && inp.ev_charging) ≡ false
        → Result
    unfolding ramp_target
    idle-Moves h e =
        let idle : (inp.ev_charging ≡ false) ⊎ (s.ev_current_amps ≡ pos 0) = elim h [
          | inl zero ↦ inr zero
          | inr within ↦ inl (ground arith)
        ] in
        elim (Bool-cases (ge remaining_w (ev_power_at_amps cfg.ev_min_amps))) [
          | inl e' ↦ simp (e, e') (inr (ground arith, r.1), begin idle e')
          | inr e' ↦ simp (e, e') (inl refl, wait idle e')
        ]

    charging-Moves :
        IsIn s.ev_current_amps
        → (ltb_ℤ (pos 0) s.ev_current_amps && inp.ev_charging) ≡ true
        → Result
    unfolding ramp_target
    charging-Moves h e =
        let a = s.ev_current_amps in
        let charging : inp.ev_charging ≡ true = ground arith in
        elim (Bool-cases (
          leb cfg.ev_ramp_down_hold_cycles s.consecutive_import_cycles
          && ltb_ℤ cfg.ev_min_amps a)) [
            | inl d ↦ simp (e, d) (inr (down_IsIn a h (ground arith)), down charging (ground arith))
            | inr d ↦
                elim (Bool-cases (
                  leb cfg.ev_ramp_up_hold_cycles s.consecutive_export_cycles
                  && ltb_ℤ a cfg.ev_max_amps)) [
                    | inl u ↦
                        simp (e, d, u)
                          (inr (up_IsIn a h (ground arith)), up charging (ground arith))
                    | inr u ↦ simp (e, d, u) (inr h, hold charging)
                  ]
          ]

    ramp_target-Moves : IsAmps s.ev_current_amps → Result
    ramp_target-Moves h = elim (Bool-cases (ltb_ℤ (pos 0) s.ev_current_amps && inp.ev_charging)) [
      | inl e ↦ charging-Moves (is_on s.ev_current_amps h (ground arith)) e
      | inr e ↦ idle-Moves h e
    ]

  choose_may :
      (inp : BudgetInput F) (ramped : ℤ)
      → (if not (is_daytime inp.hour)
          then pos 0
          else if is_fm inp.hour && ev_wants_charge inp
          then ramped
          else if ev_wants_charge inp && (bat_can_support_ev cfg inp || all_bat_full inp cfg)
          then ramped
          else pos 0)
        ≡ (if may_charge inp then ramped else pos 0)
  choose_may inp ramped = ground arith

  ev_target_of-Moves :
      (inp : BudgetInput F) (surplus : F) (s : BudgetState F)
      → HasRange
      → IsAmps s.ev_current_amps
      → Moves inp surplus s (ev_target_of cfg inp surplus s)
  unfolding ev_target_of allocate_ev_with_ramp
  ev_target_of-Moves inp surplus s r h =
      let ramped = ramp_target-Moves inp surplus s r h in
      let clamped = clamp_to_within (ramp_target cfg inp surplus s) r ramped.0 in
      let x = clamp_to cfg.ev_max_amps (ramp_target cfg inp surplus s) in
      let unclamped = subst (Moves inp surplus s) (sym clamped) ramped in
      subst (Moves inp surplus s) (sym (choose_may inp x)) (elim (Bool-cases (may_charge inp)) [
        | inl may ↦ simp may unclamped
        | inr not_may ↦ simp not_may (inl refl, off not_may)
      ])

  pub observe-ev_current_amps :
      (reads : BudgetReads F) (inp : BudgetInput F) (s : BudgetState F)
      → (observe cfg reads inp s).ev_current_amps ≡ s.ev_current_amps
  unfolding observe count_cycles
  observe-ev_current_amps reads inp s = ground arith

  -- If the allocator's window holds a reading, an enabled tuner has a first tier, and the charger's
  -- range is 0 < min <= max, then a cycle that starts with the current off or within that range
  -- returns, the current that it sets is its state's, and is again off or within that range. It is off
  -- where the hour, the batteries or the car forbid a charge. Else, for a car that was not charging or
  -- had no current, it is the least current if the surplus covers that, and off if not. For a car that
  -- charges it is the current before, or 1 A more after enough cycles in a row that exported more than
  -- 100 W, or 1 A less after enough that imported more than 100 W.
  pub allocate-Ramp :
      IsUsable cfg
      → HasRange
      → (reads : BudgetReads F) (inp : BudgetInput F) (s : BudgetState F) → IsAmps s.ev_current_amps
      → (p : BudgetState F × BudgetResult F) × (allocate cfg reads inp s ≡ some p)
        × (p.1.ev_target_amps ≡ p.0.ev_current_amps)
        × IsAmps p.0.ev_current_amps
        × Ramp inp (available_surplus_w inp) (observe cfg reads inp s) p.0.ev_current_amps
  unfolding conclude note_ev
  allocate-Ramp u r reads inp s h =
      let c = allocate_total cfg u reads inp s in
      let seen = observe cfg reads inp s in
      let moves =
        ev_target_of-Moves inp (available_surplus_w inp) seen r
          (subst IsAmps (sym (observe-ev_current_amps reads inp s)) h) in
      (
        conclude cfg reads inp c.plan (tuned_alloc cfg c.plan c.tune_delta) seen,
        c.is_result,
        refl,
        moves.0,
        moves.1,
      )
