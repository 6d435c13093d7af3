-- ===== src/EvController/Ramp.antt =====
-- When the controller changes the car's current, and to what.
use carma_box_v.Base.{
  option_cases, ◌≡◌, refl, sym, ◌⊎◌, inl, inr, Bool, true, false, List, [], ◌∷◌, ◌++◌, Option, none,
  some, arith, In, All, All-In, All-map, Bool-cases,
}
use carma_box_v.Base.Int.{ℤ, ltb_ℤ, leb_ℤ}
use carma_box_v.Base.Floats.{Float, gt}
use carma_box_v.EvController.Types.{EvConfig, EvAction, set_current, EvState, EvInput, EvReads}
use carma_box_v.EvController.Timers.{
  can_ramp, resolve_soc, first_step, reversed, next_step_up, next_step_down,
}
use carma_box_v.EvController.Evaluate.{
  watch_loads, is_over, start_or_wait, ramp_down, ramp_up_or_down, ramp, control_current, regulate,
  on_connect, evaluate_connected, evaluate,
}

-- The steps ascend.
abbrev pub IsAscending : List ℤ → Type 0
IsAscending [] = Unit
IsAscending (x ∷ xs) = All (λ y. leb_ℤ x y ≡ true) xs × IsAscending xs

-- Nothing stands between the two.
abbrev pub Skips : ℤ → ℤ → ℤ → Type 0
Skips low high step = (leb_ℤ step low ≡ true) ⊎ (leb_ℤ high step ≡ true)

-- The step on the other side of the gap from the current.
abbrev pub IsNext : List ℤ → ℤ → ℤ → ℤ → Type 0
IsNext steps low high amps = In amps steps × (ltb_ℤ low high ≡ true) × All (Skips low high) steps

next_step_up_lem :
    (steps : List ℤ) (current_a amps : ℤ)
    → IsAscending steps
    → next_step_up steps current_a ≡ some amps
    → IsNext steps current_a amps amps
unfolding next_step_up
next_step_up_lem [] current_a amps a h = ground arith
next_step_up_lem (x ∷ xs) current_a amps (least, a) h = elim (Bool-cases (ltb_ℤ current_a x)) [
  | inl e ↦
      let found : x ≡ amps = grind (arith, e, h) in
      let skip : (y : ℤ) → leb_ℤ x y ≡ true → Skips current_a amps y =
        λ y o. inr (rw (sym found) o) in
      (
        inl (sym found),
        rw (sym found) e,
        (inr (rw found (ground arith)), All-map _ _ skip xs least),
      )
  | inr e ↦
      let (m, up, rest) = next_step_up_lem xs current_a amps a (grind (arith, e, h)) in
      (inr m, up, (inl (ground arith), rest))
]

abbrev or_else : Option ℤ → Option ℤ → Option ℤ
or_else (some a) o = some a
or_else none o = o

first_step-append :
    (test : ℤ → Bool) (xs ys : List ℤ)
    → first_step test (xs ++ ys) ≡ or_else (first_step test xs) (first_step test ys)
first_step-append test [] ys = refl
first_step-append test (x ∷ xs) ys = ground (arith, first_step-append test xs ys)

first_step-none :
    (test : ℤ → Bool) (xs : List ℤ)
    → first_step test (reversed xs) ≡ none
    → All (λ x. test x ≡ false) xs
first_step-none test [] h = tt
first_step-none test (x ∷ xs) h =
    let split = first_step-append test (reversed xs) (x ∷ []) in
    (ground (arith, split), first_step-none test xs (ground (arith, split)))

next_step_down_lem :
    (steps : List ℤ) (current_a amps : ℤ)
    → IsAscending steps
    → next_step_down steps current_a ≡ some amps
    → IsNext steps amps current_a amps
unfolding next_step_down
next_step_down_lem [] current_a amps a h = ground arith
next_step_down_lem (x ∷ xs) current_a amps (least, a) h =
    let test : ℤ → Bool = λ step. ltb_ℤ step current_a in
    let split = first_step-append test (reversed xs) (x ∷ []) in
    elim (option_cases (first_step test (reversed xs))) [
      | inl (b, found) ↦
          let (m, down, rest) = next_step_down_lem xs current_a amps a (ground (arith, split)) in
          (inr m, down, (inl (All-In _ xs amps least m), rest))
      | inr absent ↦
          let is_x : x ≡ amps = ground (arith, split) in
          let skip : (y : ℤ) → test y ≡ false → Skips amps current_a y =
            λ y o. inr (ground arith) in
          (
            inl (sym is_x),
            rw (sym is_x) (ground (arith, split)),
            (inl (rw is_x (ground arith)), All-map _ _ skip xs (first_step-none test xs absent)),
          )
    ]

module _ {F : Type 0} ⦃f : Float F⦄ (cfg : EvConfig F) (reads : EvReads F) (i : EvInput F) where
  open f use {trunc}

  abbrev pub is_set : EvAction → Bool
  is_set set_current = true
  is_set _ = false

  start_or_wait-not_set : (s : EvState F) → is_set (start_or_wait cfg reads i s).1.action ≡ false
  unfolding start_or_wait
  start_or_wait-not_set s = ground arith

  can_ramp_same :
      (s s' : EvState F)
      → s'.last_start ≡ s.last_start
      → s'.last_ramp ≡ s.last_ramp
      → can_ramp cfg reads.at_check s' ≡ can_ramp cfg reads.at_check s
  unfolding can_ramp
  can_ramp_same s s' e e' = rw (e, e') refl

  resolve_soc-can_ramp :
      (s : EvState F)
      → can_ramp cfg reads.at_check (resolve_soc cfg reads.at_soc i.ev_soc_pct s).0
        ≡ can_ramp cfg reads.at_check s
  unfolding resolve_soc
  resolve_soc-can_ramp s =
      can_ramp_same s (resolve_soc cfg reads.at_soc i.ev_soc_pct s).0 (ground arith) (ground arith)

  watch_loads-can_ramp :
      (s : EvState F)
      → can_ramp cfg reads.at_check (watch_loads i s).0 ≡ can_ramp cfg reads.at_check s
  unfolding watch_loads
  watch_loads-can_ramp s = can_ramp_same s (watch_loads i s).0 (ground arith) (ground arith)

  abbrev pub Ramps : ℤ → Type 0
  Ramps amps =
      ((next_step_up cfg.steps (trunc i.current_amps) ≡ some amps)
        × (gt i.ellevio_headroom_w cfg.ramp_headroom_w ≡ true))
      ⊎ ((next_step_down cfg.steps (trunc i.current_amps) ≡ some amps)
          × (is_over cfg reads i ≡ true)
          × (ltb_ℤ amps cfg.min_amps ≡ false))

  ramp-Ramps :
      (s : EvState F)
      → let r = (ramp cfg reads i s).1 in
        is_set r.action ≡ true → (can_ramp cfg reads.at_check s ≡ true) × Ramps r.target_amps
  unfolding ramp ramp_up_or_down ramp_down
  ramp-Ramps s h = ground arith

  regulate-Ramps :
      (soc : F) (s : EvState F)
      → let r = (regulate cfg reads i soc s).1 in
        is_set r.action ≡ true
        → (i.charging ≡ true) × (can_ramp cfg reads.at_check s ≡ true) × Ramps r.target_amps
  unfolding regulate control_current
  regulate-Ramps soc s h =
      let s' = (watch_loads i s).0 in
      ground (arith, watch_loads-can_ramp s, start_or_wait-not_set s', ramp-Ramps s')

  evaluate-Ramps :
      (s : EvState F)
      → let r = (evaluate cfg reads i s).1 in
        is_set r.action ≡ true
        → (i.charging ≡ true) × (can_ramp cfg reads.at_check s ≡ true) × Ramps r.target_amps
  unfolding evaluate evaluate_connected on_connect
  evaluate-Ramps s h =
      let (s', soc) = resolve_soc cfg reads.at_soc i.ev_soc_pct s in
      let known = record s' { was_connected = true } in
      ground
        (arith, resolve_soc-can_ramp s, can_ramp_same s' known refl refl, regulate-Ramps soc known)

  -- If the configured steps ascend, a new current is the next of them, up or down from the whole
  -- amperes of the current: no step is skipped. It is only for a car that charges, outside of the
  -- cooldowns after a start and after the last ramp; up only with headroom to ramp, down only with too
  -- little headroom, and then not below the least current.
  pub evaluate_ramps :
      (s : EvState F)
      → let r = (evaluate cfg reads i s).1 in
        let current_a = trunc i.current_amps in
        IsAscending cfg.steps
        → is_set r.action ≡ true
        → (i.charging ≡ true)
          × (can_ramp cfg reads.at_check s ≡ true)
          × ((IsNext cfg.steps current_a r.target_amps r.target_amps
                × (gt i.ellevio_headroom_w cfg.ramp_headroom_w ≡ true))
              ⊎ (IsNext cfg.steps r.target_amps current_a r.target_amps
                  × (is_over cfg reads i ≡ true)
                  × (ltb_ℤ r.target_amps cfg.min_amps ≡ false)))
  evaluate_ramps s a h =
      let (charging, due, ramps) = evaluate-Ramps s h in
      let amps = (evaluate cfg reads i s).1.target_amps in
      let current_a = trunc i.current_amps in
      (
        charging,
        due,
        elim ramps [
          | inl (up, room) ↦ inl (next_step_up_lem cfg.steps current_a amps a up, room)
          | inr (down, over, enough) ↦
              inr (next_step_down_lem cfg.steps current_a amps a down, over, enough)
        ],
      )
