-- ===== src/Surplus/Actions.antt =====
-- What the surplus dispatch decides: each consumer once, in order, and what it needs to be started.
use carma_box_v.Base.{
  ◌≡◌, refl, ap, ◌∙◌, ◌⊎◌, inl, inr, Bool, true, false, ◌&&◌, ◌||◌, List, [], ◌∷◌, ◌++◌, String,
  arith, All, All-append, In, contains, contains-insert, insert, str_eq, Bool-cases,
}
use carma_box_v.Base.Floats.{Float}
use carma_box_v.Models.{Consumer}
use carma_box_v.Surplus.Dispatch.{
  SurplusConfig, Action, start, stop, no_change, Allocation, SwitchReads, Escalation,
  start_consumer, escalate_step, insert_by, sort_by, lacks_dependency,
}

module _ {A : Type 0} where
  In-insert_by :
      (before : A → A → Bool) (a x : A) (xs : List A)
      → In a (insert_by before x xs)
      → (a ≡ x) ⊎ In a xs
  unfolding insert_by
  In-insert_by before a x [] h = h
  In-insert_by before a x (y ∷ ys) h =
      let rest = insert_by before x ys in
      elim (Bool-cases (before y x)) [
        | inl e ↦
            let here : In a (y ∷ rest) = rw e at h in
            elim here [
              | inl k ↦ inr (inl k)
              | inr k ↦ elim (In-insert_by before a x ys k) [ inl k ↦ inl k | inr k ↦ inr (inr k) ]
            ]
        | inr e ↦ let here : In a (x ∷ y ∷ ys) = rw e at h in here
      ]

  pub In-sort_by :
      (before : A → A → Bool) (a : A) (xs : List A) → In a (sort_by before xs) → In a xs
  unfolding sort_by
  In-sort_by before a [] h = h
  In-sort_by before a (x ∷ xs) h = elim (In-insert_by before a x (sort_by before xs) h) [
    | inl e ↦ inl e
    | inr k ↦ inr (In-sort_by before a xs k)
  ]

abbrev pub ids : List Allocation → List String
ids [] = []
ids (x ∷ xs) = x.consumer_id ∷ ids xs

abbrev pub names : {F : Type 0} → List (Consumer F) → List String
names [] = []
names (c ∷ cs) = c.consumer_id ∷ names cs

pub ids-append : (xs ys : List Allocation) → ids (xs ++ ys) ≡ ids xs ++ ids ys
ids-append [] ys = refl
ids-append (x ∷ xs) ys = ap (λ zs. x.consumer_id ∷ zs) (ids-append xs ys)

abbrev pub is_start : Action → Bool
is_start start = true
is_start _ = false

-- A consumer of the id was started.
abbrev pub was_started : String → List Allocation → Bool
was_started r [] = false
was_started r (x ∷ xs) = is_start x.action && str_eq r x.consumer_id || was_started r xs

pub was_started-append :
    (r : String) (xs ys : List Allocation)
    → was_started r (xs ++ ys) ≡ (was_started r xs || was_started r ys)
was_started-append r [] ys = refl
was_started-append r (x ∷ xs) ys = ground (arith, was_started-append r xs ys)

module _ {F : Type 0} where
  -- What a start or a stop rests on: a consumer of that id which is off, and whose dependency, if it
  -- names one, is active or was started; or one which is on.
  abbrev pub Grounds : List (Consumer F) → List String → List Allocation → Allocation → Type 0
  Grounds cs deps all a =
      (a.action ≡ start
        → (c : Consumer F) × In c cs
          × (c.consumer_id ≡ a.consumer_id)
          × (c.active ≡ false)
          × (str_eq c.requires_active ""
                || contains c.requires_active deps
                || was_started c.requires_active all
              ≡ true))
      × (a.action ≡ stop
          → (c : Consumer F) × In c cs × (c.consumer_id ≡ a.consumer_id) × (c.active ≡ true))

  Grounds-append :
      (cs : List (Consumer F)) (deps : List String) (all more : List Allocation) (a : Allocation)
      → Grounds cs deps all a
      → Grounds cs deps (all ++ more) a
  Grounds-append cs deps all more a (s, t) = (
    λ e.
        let (c, here, same, off, met) = s e in
        (c, here, same, off, ground (arith, was_started-append c.requires_active all more)),
    t,
  )

  All-Grounds-append :
      (cs : List (Consumer F)) (deps : List String) (all more xs : List Allocation)
      → All (Grounds cs deps all) xs
      → All (Grounds cs deps (all ++ more)) xs
  All-Grounds-append cs deps all more [] h = tt
  All-Grounds-append cs deps all more (x ∷ xs) h =
      (Grounds-append cs deps all more x h.0, All-Grounds-append cs deps all more xs h.1)

module _ {F : Type 0} ⦃f : Float F⦄ (cfg : SurplusConfig F) where
  abbrev pub entry : Consumer F → Action → Allocation
  entry c a = record { consumer_id = c.consumer_id; action = a }

  -- A round of the escalating loop notes the consumer, and starts it only if it may.
  pub escalate_step_cases :
      (deadband : F) (reads : SwitchReads F) (c : Consumer F) (e : Escalation F)
      → let e' = escalate_step cfg deadband reads c e in
        (e'.allocations ≡ e.allocations ++ (entry c no_change ∷ []))
          × (e'.active_deps ≡ e.active_deps)
        ⊎ (e'.allocations ≡ e.allocations ++ (entry c start ∷ []))
          × (e'.active_deps ≡ insert c.consumer_id e.active_deps)
          × (c.active ≡ false)
          × (lacks_dependency c e.active_deps ≡ false)
  unfolding escalate_step start_consumer
  escalate_step_cases deadband reads c e = ground arith

  -- The active dependencies are those given and the consumers started so far.
  abbrev pub Tracks : List String → Escalation F → Type 0
  Tracks deps e =
      (r : String) → contains r e.active_deps ≡ (contains r deps || was_started r e.allocations)

  pub escalate_step-Tracks :
      (deps : List String) (deadband : F) (reads : SwitchReads F) (c : Consumer F)
      (e : Escalation F)
      → Tracks deps e
      → Tracks deps (escalate_step cfg deadband reads c e)
  escalate_step-Tracks deps deadband reads c e h r = elim (escalate_step_cases deadband reads c e) [
    | inl (noted, kept) ↦
        rw (noted, kept)
          (h r ∙ ground (arith, was_started-append r e.allocations (entry c no_change ∷ [])))
    | inr (noted, added, off, met) ↦
        rw (noted, added)
          (contains-insert c.consumer_id r e.active_deps
            ∙ ground (arith, h r, was_started-append r e.allocations (entry c start ∷ [])))
  ]

  pub escalate_step-Grounds :
      (cs : List (Consumer F)) (deps : List String) (deadband : F) (reads : SwitchReads F)
      (c : Consumer F) (e : Escalation F)
      → In c cs
      → Tracks deps e
      → All (Grounds cs deps e.allocations) e.allocations
      → let all = (escalate_step cfg deadband reads c e).allocations in
        All (Grounds cs deps all) all
  escalate_step-Grounds cs deps deadband reads c e here tracks h =
      elim (escalate_step_cases deadband reads c e) [
        | inl (noted, kept) ↦
            let more = entry c no_change ∷ [] in
            let old = All-Grounds-append cs deps e.allocations more e.allocations h in
            let new : Grounds cs deps (e.allocations ++ more) (entry c no_change) =
              (λ q. cc, λ q. cc) in
            rw noted (
              All-append (Grounds cs deps (e.allocations ++ more)) e.allocations more old (new, tt))
        | inr (noted, added, off, met) ↦
            let more = entry c start ∷ [] in
            let old = All-Grounds-append cs deps e.allocations more e.allocations h in
            let new : Grounds cs deps (e.allocations ++ more) (entry c start) = (
              λ q. (
                c,
                here,
                refl,
                off,
                ground (
                  arith,
                  tracks c.requires_active,
                  was_started-append c.requires_active e.allocations more,
                ),
              ),
              λ q. cc,
            ) in
            rw noted (
              All-append (Grounds cs deps (e.allocations ++ more)) e.allocations more old (new, tt))
      ]
