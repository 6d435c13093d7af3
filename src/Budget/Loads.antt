-- ===== src/Budget/Loads.antt =====
-- When the cascade switches a load.
use carma_box_v.Base.{
  ◌≡◌, refl, ap, ◌⊎◌, inl, inr, Bool, true, false, not, ◌&&◌, List, [], ◌∷◌, ◌++◌, String, arith,
  In, All, filter, is_empty, all, leb, Bool-cases, if◌then◌else◌,
}
use carma_box_v.Base.Int.{ℤ, ◌-ℤ◌, leb_ℤ}
use carma_box_v.Base.Floats.{Float, ge, gt}
use carma_box_v.Models.{CommandType, Consumer, nothing, turn_on_consumer, turn_off_consumer}
use carma_box_v.ModeChange.Manager.{assign}
use carma_box_v.Dicts.{get}
use carma_box_v.Surplus.Dispatch.{by_priority, by_shed}
use carma_box_v.Surplus.Actions.{In-sort_by}
use carma_box_v.Budget.Types.{BudgetConfig, BudgetInput, BudgetState}
use carma_box_v.Budget.Facts.{grid_tolerance_w}
use carma_box_v.Budget.Batteries.{bat_command}
use carma_box_v.Budget.Cascade.{
  Switched, is_cooling, switch_first, is_at_max, bat_at_max, sustained_export, cascade_consumers,
}

In-filter :
    {A : Type 0} (p : A → Bool) (x : A) (xs : List A) → In x (filter p xs) → In x xs × (p x ≡ true)
In-filter p x [] m = elim m [ ]
In-filter p x (y ∷ ys) m = elim (Bool-cases (p y)) [
  | inl e ↦
      let split : In x (y ∷ filter p ys) = simp e at m in
      elim split [
        | inl same ↦ (inl same, rw same e)
        | inr rest ↦ let (n, h) = In-filter p x ys rest in (inr n, h)
      ]
  | inr e ↦
      let rest : In x (filter p ys) = simp e at m in
      let (n, h) = In-filter p x ys rest in (inr n, h)
]

module _ {F : Type 0} ⦃f : Float F⦄ (cfg : BudgetConfig F) where
  open f use {lt, neg, lit}

  -- All that come before the load are in their cooldown.
  abbrev pub IsFirst : F → List (String × F) → List (Consumer F) → Consumer F → Type 0
  IsFirst now_ts last_switch cs c =
      (before : List (Consumer F)) × (after : List (Consumer F)) × (cs ≡ before ++ (c ∷ after))
      × All (λ d. is_cooling cfg now_ts last_switch d ≡ true) before

  -- The first load that is not in its cooldown is switched, and the time is noted.
  abbrev pub Switches :
      CommandType → F → List (String × F) → List (Consumer F) → Switched F → Type 0
  Switches t now_ts last_switch cs r =
      (c : Consumer F) × IsFirst now_ts last_switch cs c
      × In c cs
      × (is_cooling cfg now_ts last_switch c ≡ false)
      × (r ≡ (assign c.consumer_id now_ts last_switch, bat_command t c.consumer_id nothing ∷ []))

  -- Nothing is switched, all of them being in their cooldown.
  abbrev pub AllCool : F → List (String × F) → List (Consumer F) → Switched F → Type 0
  AllCool now_ts last_switch cs r =
      (r ≡ (last_switch, [])) × All (λ c. is_cooling cfg now_ts last_switch c ≡ true) cs

  switch_first_lem :
      (t : CommandType) (now_ts : F) (last_switch : List (String × F)) (cs : List (Consumer F))
      → let r = switch_first cfg t now_ts last_switch cs in
        Switches t now_ts last_switch cs r ⊎ AllCool now_ts last_switch cs r
  unfolding switch_first
  switch_first_lem t now_ts last_switch [] = inr (refl, tt)
  switch_first_lem t now_ts last_switch (c ∷ cs) =
      elim (Bool-cases (is_cooling cfg now_ts last_switch c)) [
        | inl e ↦ elim (switch_first_lem t now_ts last_switch cs) [
          | inl (d, (before, after, split, cool), m, free, r) ↦
              inl (d, (c ∷ before, after, ap (λ ds. c ∷ ds) split, (e, cool)), inr m, free, rw e r)
          | inr (r, cool) ↦ inr (rw e r, (e, cool))
        ]
        | inr e ↦ inl (c, ([], cs, refl, tt), inl refl, e, rw e refl)
      ]

  module _ (inp : BudgetInput F) (bat_alloc : List (String × ℤ)) (now_ts : F)
      (s : BudgetState F) where
    abbrev cooling : Consumer F → Bool
    cooling = is_cooling cfg now_ts s.consumer_last_switch_ts

    -- The grid takes more than 100 W, as it did in enough cycles before, and the batteries that are
    -- planned for are at their most.
    abbrev pub exports : Bool
    exports =
        lt inp.grid_power_w (neg grid_tolerance_w)
        && sustained_export cfg s
        && bat_at_max cfg bat_alloc inp.bat_socs

    abbrev pub imports : Bool
    imports = gt inp.grid_power_w grid_tolerance_w

    abbrev pub candidates : List (Consumer F)
    candidates =
        if exports
        then by_priority (filter (λ c. not c.active) inp.consumers)
        else by_shed (filter (λ c. c.active) inp.consumers)

    abbrev pub switched : CommandType → Consumer F → Switched F
    switched t c = (
      assign c.consumer_id now_ts s.consumer_last_switch_ts,
      bat_command t c.consumer_id nothing ∷ [],
    )

    -- The battery has the SoC at which it stops to charge, or its limit is within the headroom of the
    -- most that it may charge with, whatever its SoC and its mode.
    abbrev pub IsNearMost : String × ℤ → Type 0
    IsNearMost (id, limit) =
        (ge (get id (lit 100 0) inp.bat_socs) cfg.bat_charge_stop_soc_pct ≡ true)
        ⊎ (leb_ℤ (cfg.bat_default_max_charge_w -ℤ cfg.bat_at_max_headroom_w) limit ≡ true)

    -- The house exports more than 100 W, has exported for enough cycles, and some battery is planned
    -- for and each that is planned for is near its most.
    abbrev pub HasExcess : Type 0
    HasExcess =
        (lt inp.grid_power_w (neg grid_tolerance_w) ≡ true)
        × (leb cfg.cascade_sustained_cycles s.consecutive_export_cycles ≡ true)
        × (is_empty bat_alloc ≡ false)
        × All IsNearMost bat_alloc

    -- What the cascade may do in a cycle.
    pub data IsCascade : Switched F → Type 0 where
      turns_on :
          (c : Consumer F)
          → In c inp.consumers
          → c.active ≡ false
          → cooling c ≡ false
          → IsFirst now_ts s.consumer_last_switch_ts
              (by_priority (filter (λ d. not d.active) inp.consumers))
              c
          → HasExcess
          → IsCascade (switched turn_on_consumer c)
      turns_off :
          (c : Consumer F)
          → In c inp.consumers
          → c.active ≡ true
          → cooling c ≡ false
          → IsFirst now_ts s.consumer_last_switch_ts
              (by_shed (filter (λ d. d.active) inp.consumers))
              c
          → imports ≡ true
          → IsCascade (switched turn_off_consumer c)
      keeps : (exports ≡ false) × (imports ≡ false) → IsCascade (s.consumer_last_switch_ts, [])
      waits : All (λ c. cooling c ≡ true) candidates → IsCascade (s.consumer_last_switch_ts, [])
      has_none : is_empty inp.consumers ≡ true → IsCascade (s.consumer_last_switch_ts, [])

    all-IsNearMost :
        (alloc : List (String × ℤ))
        → all (is_at_max cfg inp.bat_socs) alloc ≡ true
        → All IsNearMost alloc
    unfolding is_at_max
    all-IsNearMost [] h = tt
    all-IsNearMost ((id, limit) ∷ alloc) h = (ground arith, all-IsNearMost alloc (ground arith))

    exports-HasExcess : exports ≡ true → HasExcess
    unfolding sustained_export bat_at_max
    exports-HasExcess e =
        (ground arith, ground arith, ground arith, all-IsNearMost bat_alloc (ground arith))

    switch_on-IsCascade :
        exports ≡ true
        → IsCascade (
            switch_first cfg turn_on_consumer now_ts s.consumer_last_switch_ts
              (by_priority (filter (λ c. not c.active) inp.consumers)))
    unfolding by_priority
    switch_on-IsCascade e =
        let off = filter (λ (c : Consumer F). not c.active) inp.consumers in
        elim (switch_first_lem turn_on_consumer now_ts s.consumer_last_switch_ts
          (by_priority off)) [
            | inl (c, first, m, free, r) ↦
                let (n, h) = In-filter _ c inp.consumers (In-sort_by _ c off m) in
                rw r (turns_on c n (ground (arith, h)) free first (exports-HasExcess e))
            | inr (r, cool) ↦ rw r (waits (simp e cool))
          ]

    switch_off-IsCascade :
        exports ≡ false
        → imports ≡ true
        → IsCascade (
            switch_first cfg turn_off_consumer now_ts s.consumer_last_switch_ts
              (by_shed (filter (λ c. c.active) inp.consumers)))
    unfolding by_shed
    switch_off-IsCascade e i =
        let on = filter (λ (c : Consumer F). c.active) inp.consumers in
        elim (switch_first_lem turn_off_consumer now_ts s.consumer_last_switch_ts (by_shed on)) [
          | inl (c, first, m, free, r) ↦
              let (n, h) = In-filter _ c inp.consumers (In-sort_by _ c on m) in
              rw r (turns_off c n h free first i)
          | inr (r, cool) ↦ rw r (waits (simp e cool))
        ]

    -- A cycle of the cascade switches at most one load, and notes the time: the first one that is not
    -- in its cooldown, by priority to turn it on and by shedding priority to turn it off. It turns on a
    -- load that is off only while the house exports more than 100 W and has exported for enough cycles,
    -- and only if there are batteries planned for, each of which has at least the SoC at which it stops
    -- to charge (100 % where its SoC is not known), or, whatever its SoC, a limit within the headroom of
    -- the most that it may charge with.
    -- It turns off a load that is on only while the house imports more than 100 W. It switches none
    -- only if neither holds, each candidate is in its cooldown, or there are no loads.
    pub cascade_consumers-IsCascade : IsCascade (cascade_consumers cfg inp bat_alloc now_ts s)
    unfolding cascade_consumers
    cascade_consumers-IsCascade = elim (Bool-cases (is_empty inp.consumers)) [
      | inl none_there ↦ simp none_there (has_none none_there)
      | inr some_there ↦ elim (Bool-cases exports) [
        | inl e ↦ simp (some_there, e) (switch_on-IsCascade e)
        | inr e ↦ elim (Bool-cases imports) [
          | inl i ↦ simp (some_there, e, i) (switch_off-IsCascade e i)
          | inr i ↦ simp (some_there, e, i) (keeps (e, i))
        ]
      ]
    ]
