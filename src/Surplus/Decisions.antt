-- ===== src/Surplus/Decisions.antt =====
-- What an evaluation of the surplus dispatch decides as a whole.
use carma_box_v.Base.{
  append-nil, append_assoc, ℕ, suc, ◌≡◌, refl, sym, ap, ◌∙◌, inl, inr, true, false, ◌&&◌, List, [],
  ◌∷◌, ◌++◌, String, arith, All, All-append, ◌≢◌, In, if◌then◌else◌, Bool-cases,
}
use carma_box_v.Base.Floats.{Float}
use carma_box_v.Models.{Consumer}
use carma_box_v.Surplus.Dispatch.{
  SurplusConfig, start, stop, no_change, Allocation, Limiter, SwitchReads, Escalation, can_switch,
  escalate_step, escalate, shed, evaluate, by_priority, by_shed, effective_deadband_w,
}
use carma_box_v.Surplus.Actions.{
  In-sort_by, ids, names, ids-append, Grounds, entry, Tracks, escalate_step_cases,
  escalate_step-Tracks, escalate_step-Grounds,
}

module _ {F : Type 0} ⦃f : Float F⦄ (cfg : SurplusConfig F) where
  escalate_step-ids :
      (deadband : F) (reads : SwitchReads F) (c : Consumer F) (e : Escalation F)
      → ids (escalate_step cfg deadband reads c e).allocations
        ≡ ids e.allocations ++ (c.consumer_id ∷ [])
  escalate_step-ids deadband reads c e = elim (escalate_step_cases cfg deadband reads c e) [
    | inl k ↦ rw k.0 (ids-append e.allocations (entry cfg c no_change ∷ []))
    | inr k ↦ rw k.0 (ids-append e.allocations (entry cfg c start ∷ []))
  ]

  escalate-ids :
      (deadband : F) (reads : ℕ → SwitchReads F) (n : ℕ) (cs : List (Consumer F)) (e : Escalation F)
      → ids (escalate cfg deadband reads n cs e).allocations ≡ ids e.allocations ++ names cs
  unfolding escalate
  escalate-ids deadband reads n [] e = sym (append-nil (ids e.allocations))
  escalate-ids deadband reads n (c ∷ cs) e =
      let e' = escalate_step cfg deadband (reads n) c e in
      escalate-ids deadband reads (suc n) cs e'
      ∙ rw (escalate_step-ids deadband (reads n) c e)
          (append_assoc (ids e.allocations) (c.consumer_id ∷ []) (names cs))

  shed-ids :
      (reads : ℕ → SwitchReads F) (n : ℕ) (cs : List (Consumer F)) (l : Limiter F)
      → ids (shed cfg reads n cs l).1 ≡ names cs
  unfolding shed
  shed-ids reads n [] l = refl
  shed-ids reads n (c ∷ cs) l = ap (λ ws. c.consumer_id ∷ ws) (shed-ids reads (suc n) cs _)

  escalate-Grounds :
      (all : List (Consumer F)) (deps : List String) (deadband : F) (reads : ℕ → SwitchReads F)
      (n : ℕ) (cs : List (Consumer F)) (e : Escalation F)
      → ((c : Consumer F) → In c cs → In c all)
      → Tracks cfg deps e
      → All (Grounds all deps e.allocations) e.allocations
      → let end = (escalate cfg deadband reads n cs e).allocations in All (Grounds all deps end) end
  unfolding escalate
  escalate-Grounds all deps deadband reads n [] e within tracks h = h
  escalate-Grounds all deps deadband reads n (c ∷ cs) e within tracks h =
      let here = within c (inl refl) in
      escalate-Grounds all deps deadband reads (suc n) cs (escalate_step cfg deadband (reads n) c e)
        (λ d k. within d (inr k)) (escalate_step-Tracks cfg deps deadband (reads n) c e tracks)
        (escalate_step-Grounds cfg all deps deadband (reads n) c e here tracks h)

  shed-Grounds :
      (all : List (Consumer F)) (deps : List String) (seen : List Allocation)
      (reads : ℕ → SwitchReads F) (n : ℕ) (cs : List (Consumer F)) (l : Limiter F)
      → ((c : Consumer F) → In c cs → In c all)
      → All (Grounds all deps seen) (shed cfg reads n cs l).1
  unfolding shed
  shed-Grounds all deps seen reads n [] l within = tt
  shed-Grounds all deps seen reads n (c ∷ cs) l within =
      let free = (can_switch cfg (reads n).at_check l).1 in
      let a = if c.active && free then stop else no_change in
      let this : Grounds all deps seen (entry cfg c a) =
        (λ q. ground arith, λ q. (c, within c (inl refl), refl, ground arith)) in
      (this, shed-Grounds all deps seen reads (suc n) cs _ (λ d k. within d (inr k)))

  escalate_never_stops :
      (deadband : F) (reads : ℕ → SwitchReads F) (n : ℕ) (cs : List (Consumer F)) (e : Escalation F)
      → All (λ a. a.action ≢ stop) e.allocations
      → All (λ a. a.action ≢ stop) (escalate cfg deadband reads n cs e).allocations
  unfolding escalate
  escalate_never_stops deadband reads n [] e h = h
  escalate_never_stops deadband reads n (c ∷ cs) e h =
      let e' = escalate_step cfg deadband (reads n) c e in
      let P : Allocation → Type 0 = λ a. a.action ≢ stop in
      let h' : All (λ a. a.action ≢ stop) e'.allocations =
        elim (escalate_step_cases cfg deadband (reads n) c e) [
          | inl k ↦
              rw k.0 (All-append P e.allocations (entry cfg c no_change ∷ []) h ((λ q. cc), tt))
          | inr k ↦ rw k.0 (All-append P e.allocations (entry cfg c start ∷ []) h ((λ q. cc), tt))
        ] in
      escalate_never_stops deadband reads (suc n) cs e' h'

  shed_never_starts :
      (reads : ℕ → SwitchReads F) (n : ℕ) (cs : List (Consumer F)) (l : Limiter F)
      → All (λ a. a.action ≢ start) (shed cfg reads n cs l).1
  unfolding shed
  shed_never_starts reads n [] l = tt
  shed_never_starts reads n (c ∷ cs) l = (λ q. ground arith, shed_never_starts reads (suc n) cs _)

  -- The decisions of an evaluation are one for each of the consumers sorted by priority, in that
  -- order, or, with the surplus below the stop threshold, sorted by shedding in reverse. Below the
  -- threshold it starts nothing, and from there on it stops nothing.
  pub evaluate-ids :
      (now : F) (reads : ℕ → SwitchReads F) (surplus : F) (consumers : List (Consumer F))
      (deps : List String) (l : Limiter F)
      → let decided = (evaluate cfg now reads surplus consumers deps l).1.allocations in
        (f.lt surplus cfg.stop_threshold_w ≡ true
          → (ids decided ≡ names (by_shed (by_priority consumers)))
            × All (λ a. a.action ≢ start) decided)
        × (f.lt surplus cfg.stop_threshold_w ≡ false
            → (ids decided ≡ names (by_priority consumers)) × All (λ a. a.action ≢ stop) decided)
  unfolding evaluate
  evaluate-ids now reads surplus consumers deps l =
      let sorted = by_priority consumers in
      let deadband = effective_deadband_w cfg now l in
      let begin : Escalation F = record {
        remaining_w = surplus;
        active_deps = deps;
        limiter = l;
        allocations = [];
      } in
      (
        λ e.
            rw e
              (shed-ids reads 0 (by_shed sorted) l, shed_never_starts reads 0 (by_shed sorted) l),
        λ e. rw e (
          escalate-ids deadband reads 0 sorted begin,
          escalate_never_stops deadband reads 0 sorted begin tt,
        ),
      )

  -- A consumer that an evaluation starts is one of those given, is off, and, if it names a dependency,
  -- that is in the given set or is started by the same evaluation; one that it stops is one of those
  -- given and is on.
  pub evaluate-Grounds :
      (now : F) (reads : ℕ → SwitchReads F) (surplus : F) (consumers : List (Consumer F))
      (deps : List String) (l : Limiter F)
      → let decided = (evaluate cfg now reads surplus consumers deps l).1.allocations in
        All (Grounds consumers deps decided) decided
  unfolding evaluate by_priority by_shed
  evaluate-Grounds now reads surplus consumers deps l =
      let sorted = by_priority consumers in
      let deadband = effective_deadband_w cfg now l in
      let begin : Escalation F = record {
        remaining_w = surplus;
        active_deps = deps;
        limiter = l;
        allocations = [];
      } in
      let within : (c : Consumer F) → In c sorted → In c consumers =
        λ c k. In-sort_by _ c consumers k in
      elim (Bool-cases (f.lt surplus cfg.stop_threshold_w)) [
        | inl e ↦ rw e (
            shed-Grounds consumers deps (shed cfg reads 0 (by_shed sorted) l).1 reads 0
              (by_shed sorted) l (λ c k. within c (In-sort_by _ c sorted k)))
        | inr e ↦ rw e (
            escalate-Grounds consumers deps deadband reads 0 sorted begin within (λ r. ground arith)
              tt)
      ]
