-- ===== src/Surplus/Limits.antt =====
-- The rate limit of the surplus dispatch.
use carma_box_v.Base.{
  ℕ, suc, ◌+◌, ◌≤◌, ◌≡◌, refl, true, List, [], ◌∷◌, ◌++◌, String, arith, length, if◌then◌else◌,
  Bool-cases, inl, inr,
}
use carma_box_v.Base.Floats.{Float}
use carma_box_v.Models.{Consumer}
use carma_box_v.Guards.Grid.{purge}
use carma_box_v.Surplus.Dispatch.{
  SurplusConfig, Limiter, SwitchReads, Escalation, purge_switches, can_switch, record_switch,
  start_consumer, escalate_step, escalate, shed, evaluate, by_priority, by_shed,
  effective_deadband_w,
}

length-snoc : {A : Type 0} (xs : List A) (x : A) → length (xs ++ (x ∷ [])) ≡ length xs + 1
length-snoc [] x = refl
length-snoc (y ∷ xs) x = ground (arith, length-snoc xs x)

module _ {F : Type 0} ⦃f : Float F⦄ (cfg : SurplusConfig F) where
  open f use {lt, add}

  length-purge : (start : F) (ts : List F) → length (purge start ts) ≤ length ts
  unfolding purge
  length-purge start [] = omega arith
  length-purge start (t ∷ ts) = ground (arith, length-purge start ts)

  -- The window holds at most as many switches as are allowed.
  abbrev pub IsWithin : Limiter F → Type 0
  IsWithin l = length l.switches ≤ cfg.max_switches_per_window

  can_switch-IsWithin : (now : F) (l : Limiter F) → IsWithin l → IsWithin (can_switch cfg now l).0
  unfolding can_switch purge_switches
  can_switch-IsWithin now l h =
      let shorter = length-purge (f.sub now cfg.switch_window_s) l.switches in omega arith

  record_switch-IsWithin :
      (now : F) (reads : SwitchReads F) (l : Limiter F)
      → (can_switch cfg now l).1 ≡ true
      → IsWithin (record_switch cfg reads (can_switch cfg now l).0)
  unfolding can_switch record_switch purge_switches
  record_switch-IsWithin now reads l free =
      let kept = purge (f.sub now cfg.switch_window_s) l.switches in
      let shorter =
        length-purge (f.sub reads.at_purge cfg.switch_window_s) (kept ++ (reads.at_record ∷ [])) in
      ground (arith, length-snoc kept reads.at_record)

  escalate_step-IsWithin :
      (deadband : F) (reads : SwitchReads F) (c : Consumer F) (e : Escalation F)
      → IsWithin e.limiter
      → IsWithin (escalate_step cfg deadband reads c e).limiter
  unfolding escalate_step start_consumer
  escalate_step-IsWithin deadband reads c e h =
      let checked = can_switch-IsWithin reads.at_check e.limiter h in
      let recorded = record_switch-IsWithin reads.at_check reads e.limiter in
      ground (arith, checked, recorded)

  escalate-IsWithin :
      (deadband : F) (reads : ℕ → SwitchReads F) (n : ℕ) (cs : List (Consumer F)) (e : Escalation F)
      → IsWithin e.limiter
      → IsWithin (escalate cfg deadband reads n cs e).limiter
  unfolding escalate
  escalate-IsWithin deadband reads n [] e h = h
  escalate-IsWithin deadband reads n (c ∷ cs) e h =
      escalate-IsWithin deadband reads (suc n) cs (escalate_step cfg deadband (reads n) c e)
        (escalate_step-IsWithin deadband (reads n) c e h)

  shed-IsWithin :
      (reads : ℕ → SwitchReads F) (n : ℕ) (cs : List (Consumer F)) (l : Limiter F)
      → IsWithin l
      → IsWithin (shed cfg reads n cs l).0
  unfolding shed
  shed-IsWithin reads n [] l h = h
  shed-IsWithin reads n (c ∷ cs) l h =
      let r = reads n in
      let (l', free) = can_switch cfg r.at_check l in
      let next = if c.active then if free then record_switch cfg r l' else l' else l in
      let checked = can_switch-IsWithin r.at_check l h in
      let recorded = record_switch-IsWithin r.at_check r l in
      let h' : IsWithin next = ground (arith, checked, recorded) in
      shed-IsWithin reads (suc n) cs next h'

  -- Whatever the clock reads: an evaluation keeps the window of the rate limiter at no more switches
  -- than the configuration allows, whether it starts consumers or sheds them.
  pub evaluate-IsWithin :
      (now : F) (reads : ℕ → SwitchReads F) (surplus : F) (consumers : List (Consumer F))
      (deps : List String) (l : Limiter F)
      → IsWithin l
      → IsWithin (evaluate cfg now reads surplus consumers deps l).0
  unfolding evaluate
  evaluate-IsWithin now reads surplus consumers deps l h =
      let sorted = by_priority consumers in
      let begin : Escalation F = record {
        remaining_w = surplus;
        active_deps = deps;
        limiter = l;
        allocations = [];
      } in
      let up = escalate-IsWithin (effective_deadband_w cfg now l) reads 0 sorted begin h in
      let down = shed-IsWithin reads 0 (by_shed sorted) l h in
      elim (Bool-cases (lt surplus cfg.stop_threshold_w)) [ inl e ↦ rw e down | inr e ↦ rw e up ]
