-- ===== src/Guards/Floor.antt =====
-- G1 and its hysteresis: which batteries `_at_floor` holds after a cycle, what G1 commands, and that
-- the evaluation reports the same batteries.
use mathlib.Core.List.{append-nil, append_assoc}
use carma_box_v.Base.{
  ◌≡◌, refl, sym, ◌∙◌, ap, inl, inr, Bool, false, ◌&&◌, ◌||◌, List, [], ◌∷◌, ◌++◌, String, arith,
  if◌then◌else◌, contains, contains-insert, contains-discard, flat_map, In, All, any, str_eq,
  eq_iff,
}
use carma_box_v.Base.Floats.{Float}
use carma_box_v.Models.{Battery}
use carma_box_v.Guards.Types.{GuardConfig, GuardEvaluation, GuardInput, GuardState, ClockReads}
use carma_box_v.Guards.Battery.{check_g0, g1_step, check_g1}
use carma_box_v.Guards.Grid.{check_g5}
use carma_box_v.Guards.Evaluate.{no_findings, touch_contact, check_batteries, check_site, evaluate}
use carma_box_v.Guards.Spec.{is_held, g1_of}

module _ {F : Type 0} where
  abbrev pub is_id : String → Battery F → Bool
  is_id id bat = str_eq id bat.battery_id

  -- No two batteries share an id.
  abbrev pub Distinct : List (Battery F) → Type 0
  Distinct [] = Unit
  Distinct (bat ∷ bats) = (any (is_id bat.battery_id) bats ≡ false) × Distinct bats

module _ {F : Type 0} ⦃f : Float F⦄ where
  -- The membership of each id after one round.
  g1_step-contains :
      (cfg : GuardConfig F) (bat : Battery F) (s : List String) (r : GuardEvaluation F)
      (id : String)
      → contains id (g1_step cfg bat (s, r)).0
        ≡ (if str_eq id bat.battery_id then is_held cfg s bat else contains id s)
  unfolding g1_step
  g1_step-contains cfg bat s r id = grind (
    arith,
    contains-insert bat.battery_id id s,
    contains-discard bat.battery_id id s,
    eq_iff id bat.battery_id,
    eq_iff bat.battery_id id,
  )

  g1_step-commands :
      (cfg : GuardConfig F) (bat : Battery F) (s : List String) (r : GuardEvaluation F)
      → (g1_step cfg bat (s, r)).1.commands ≡ r.commands ++ g1_of cfg s bat
  unfolding g1_step
  g1_step-commands cfg bat s r = ground (arith, append-nil r.commands)

  g1_step-reports :
      (cfg : GuardConfig F) (bat : Battery F) (s : List String) (r : GuardEvaluation F)
      (id : String)
      → contains id (g1_step cfg bat (s, r)).1.batteries_at_floor
        ≡ (str_eq id bat.battery_id && is_held cfg s bat || contains id r.batteries_at_floor)
  unfolding g1_step
  g1_step-reports cfg bat s r id =
      ground (arith, contains-insert bat.battery_id id r.batteries_at_floor)

  -- A round about one battery leaves the membership of the others alone.
  abbrev Agree : List String → List String → List (Battery F) → Type 0
  Agree s t = All (λ bat. contains bat.battery_id t ≡ contains bat.battery_id s)

  g1_step-Agree :
      (cfg : GuardConfig F) (bat : Battery F) (s : List String) (r : GuardEvaluation F)
      (bats : List (Battery F))
      → any (is_id bat.battery_id) bats ≡ false
      → Agree s (g1_step cfg bat (s, r)).0 bats
  g1_step-Agree cfg bat s r [] h = tt
  g1_step-Agree cfg bat s r (other ∷ bats) h = (
    ground (
      arith,
      g1_step-contains cfg bat s r other.battery_id,
      eq_iff bat.battery_id other.battery_id,
      eq_iff other.battery_id bat.battery_id,
    ),
    g1_step-Agree cfg bat s r bats (ground arith),
  )

  flat_map-g1_of :
      (cfg : GuardConfig F) (s t : List String) (bats : List (Battery F))
      → Agree s t bats
      → flat_map (g1_of cfg t) bats ≡ flat_map (g1_of cfg s) bats
  flat_map-g1_of cfg s t [] h = refl
  flat_map-g1_of cfg s t (bat ∷ bats) (h, hs) = rw (h, flat_map-g1_of cfg s t bats hs)

  -- G1 commands charge_pv for just the batteries that it holds, in their order.
  pub check_g1-commands :
      (cfg : GuardConfig F) (bats : List (Battery F)) (s : List String) (r : GuardEvaluation F)
      → Distinct bats
      → (check_g1 cfg bats (s, r)).1.commands ≡ r.commands ++ flat_map (g1_of cfg s) bats
  unfolding check_g1
  check_g1-commands cfg [] s r d = sym (append-nil r.commands)
  check_g1-commands cfg (bat ∷ bats) s r (new, d) =
      let next = g1_step cfg bat (s, r) in
      check_g1-commands cfg bats next.0 next.1 d
      ∙ ap (λ cmds. next.1.commands ++ cmds)
          (flat_map-g1_of cfg s next.0 bats (g1_step-Agree cfg bat s r bats new))
      ∙ ap (λ cmds. cmds ++ flat_map (g1_of cfg s) bats) (g1_step-commands cfg bat s r)
      ∙ append_assoc r.commands (g1_of cfg s bat) (flat_map (g1_of cfg s) bats)

  check_g1_others :
      (cfg : GuardConfig F) (bats : List (Battery F)) (s : List String) (r : GuardEvaluation F)
      (id : String)
      → any (is_id id) bats ≡ false
      → (contains id (check_g1 cfg bats (s, r)).0 ≡ contains id s)
        × (contains id (check_g1 cfg bats (s, r)).1.batteries_at_floor
            ≡ contains id r.batteries_at_floor)
  unfolding check_g1
  check_g1_others cfg [] s r id h = (refl, refl)
  check_g1_others cfg (bat ∷ bats) s r id h =
      let next = g1_step cfg bat (s, r) in
      ground (
        arith,
        check_g1_others cfg bats next.0 next.1 id,
        g1_step-contains cfg bat s r id,
        g1_step-reports cfg bat s r id,
      )

  In-Agree :
      (s t : List String) (bat : Battery F) (bats : List (Battery F))
      → Agree s t bats
      → In bat bats
      → contains bat.battery_id t ≡ contains bat.battery_id s
  In-Agree s t bat [] h m = elim m [ ]
  In-Agree s t bat (other ∷ bats) (h, hs) (inl e) = rw e h
  In-Agree s t bat (other ∷ bats) (h, hs) (inr m) = In-Agree s t bat bats hs m

  check_g1_hysteresis :
      (cfg : GuardConfig F) (bats : List (Battery F)) (s : List String) (r : GuardEvaluation F)
      (bat : Battery F)
      → Distinct bats
      → In bat bats
      → contains bat.battery_id (check_g1 cfg bats (s, r)).0 ≡ is_held cfg s bat
  unfolding check_g1
  check_g1_hysteresis cfg [] s r bat d m = elim m [ ]
  check_g1_hysteresis cfg (b ∷ bats) s r bat (new, d) (inl e) =
      let next = g1_step cfg b (s, r) in
      rw e (
        rw (check_g1_others cfg bats next.0 next.1 b.battery_id new).0 (
          g1_step-contains cfg b s r b.battery_id
          ∙ ground (arith, eq_iff b.battery_id b.battery_id)))
  check_g1_hysteresis cfg (b ∷ bats) s r bat (new, d) (inr m) =
      let next = g1_step cfg b (s, r) in
      rw (check_g1_hysteresis cfg bats next.0 next.1 bat d m)
        (rw (In-Agree s next.0 bat bats (g1_step-Agree cfg b s r bats new) m) refl)

  at_floor-evaluate :
      (cfg : GuardConfig F) (i : GuardInput F) (reads : ClockReads F) (s : GuardState F)
      → (evaluate cfg i reads s).0.at_floor
        ≡ (check_g1 cfg i.batteries
            (s.at_floor, check_g0 cfg i.batteries i.current_scenario no_findings)).0
  unfolding evaluate check_batteries check_site check_g5 touch_contact
  at_floor-evaluate cfg i reads s = ground arith

  -- If no two batteries share an id: after an evaluation a battery of the cycle is in `_at_floor`
  -- exactly when it is at or below its floor, or it was there before and has not risen above the floor
  -- plus the hysteresis. An id that the cycle does not mention stays as it was.
  pub evaluate_hysteresis :
      (cfg : GuardConfig F) (i : GuardInput F) (reads : ClockReads F) (s : GuardState F)
      → Distinct i.batteries
      → ((bat : Battery F)
          → In bat i.batteries
          → contains bat.battery_id (evaluate cfg i reads s).0.at_floor
            ≡ is_held cfg s.at_floor bat)
        × ((id : String)
            → any (is_id id) i.batteries ≡ false
            → contains id (evaluate cfg i reads s).0.at_floor ≡ contains id s.at_floor)
  evaluate_hysteresis cfg i reads s d =
      let r0 = check_g0 cfg i.batteries i.current_scenario no_findings in
      (
        λ bat m.
            rw (at_floor-evaluate cfg i reads s)
              (check_g1_hysteresis cfg i.batteries s.at_floor r0 bat d m),
        λ id h.
            rw (at_floor-evaluate cfg i reads s)
              (check_g1_others cfg i.batteries s.at_floor r0 id h).0,
      )
