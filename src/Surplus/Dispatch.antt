-- ===== src/Surplus/Dispatch.antt =====
-- core/surplus_dispatch.py: `SurplusRateLimiter` and `SurplusDispatch`. The reasons of allocations
-- are left out; an action is a constructor.
use carma_box_v.Base.{
  ℕ, suc, Bool, not, ◌&&◌, List, [], ◌∷◌, ◌++◌, String, length, contains, insert, ltb, leb,
  if◌then◌else◌, str_eq,
}
use carma_box_v.Base.Int.{ltb_ℤ}
use carma_box_v.Base.Floats.{Float, fmax}
use carma_box_v.Models.{Consumer}
use carma_box_v.Guards.Grid.{purge}

pub record SurplusConfig (F : Type 0) : Type 0 where
  pub stop_threshold_w : F
  pub max_switches_per_window : ℕ
  pub switch_window_s : F
  pub deadband_w : F
  pub doubled_deadband_w : F
  pub doubled_deadband_s : F

pub data Action : Type 0 where
  start stop no_change : Action

pub record Allocation : Type 0 where
  pub consumer_id : String
  pub action : Action

pub record SurplusResult (F : Type 0) : Type 0 where
  pub allocations : List Allocation
  pub available_surplus_w : F
  pub consumed_w : F

-- The fields of `SurplusRateLimiter` that change.
pub record Limiter (F : Type 0) : Type 0 where
  pub switches : List F
  pub deadband_until : F

-- The readings of the clock that a consumer's turn makes: by `can_switch`, by `record_switch`, and by
-- the purge of `record_switch`.
pub record SwitchReads (F : Type 0) : Type 0 where
  pub at_check : F
  pub at_record : F
  pub at_purge : F

-- What the escalating loop keeps.
pub record Escalation (F : Type 0) : Type 0 where
  pub remaining_w : F
  pub active_deps : List String
  pub limiter : Limiter F
  pub allocations : List Allocation

-- Python's stable `sorted`: an element goes behind those that are to stand before it.
module _ {A : Type 0} where
  unfoldable pub insert_by : (A → A → Bool) → A → List A → List A
  insert_by before x [] = x ∷ []
  insert_by before x (y ∷ ys) =
      let rest = insert_by before x ys in if before y x then y ∷ rest else x ∷ y ∷ ys

  unfoldable pub sort_by : (A → A → Bool) → List A → List A
  sort_by before [] = []
  sort_by before (x ∷ xs) = insert_by before x (sort_by before xs)

module _ {F : Type 0} where
  -- By `priority`, and by `priority_shed` in reverse.
  unfoldable pub by_priority : List (Consumer F) → List (Consumer F)
  by_priority = sort_by (λ c d. ltb_ℤ c.priority d.priority)

  unfoldable pub by_shed : List (Consumer F) → List (Consumer F)
  by_shed = sort_by (λ c d. ltb_ℤ d.priority_shed c.priority_shed)

module _ {F : Type 0} ⦃f : Float F⦄ where
  open f use {lt, add, sub, lit}

  unfoldable pub purge_switches : SurplusConfig F → F → Limiter F → Limiter F
  purge_switches cfg now l = record l { switches = purge (sub now cfg.switch_window_s) l.switches }

  unfoldable pub can_switch : SurplusConfig F → F → Limiter F → Limiter F × Bool
  can_switch cfg now l =
      let l' = purge_switches cfg now l in
      (l', ltb (length l'.switches) cfg.max_switches_per_window)

  unfoldable pub record_switch : SurplusConfig F → SwitchReads F → Limiter F → Limiter F
  record_switch cfg reads l =
      let l' =
        purge_switches cfg reads.at_purge
          (record l { switches = l.switches ++ (reads.at_record ∷ []) }) in
      if leb cfg.max_switches_per_window (length l'.switches)
      then record l' { deadband_until = add reads.at_record cfg.doubled_deadband_s }
      else l'

  unfoldable pub effective_deadband_w : SurplusConfig F → F → Limiter F → F
  effective_deadband_w cfg now l =
      if lt now l.deadband_until then cfg.doubled_deadband_w else cfg.deadband_w

  abbrev pub allocate : Consumer F → Action → Escalation F → Escalation F
  allocate c a e = record e {
    allocations = e.allocations ++ (record { consumer_id = c.consumer_id; action = a } ∷ []);
  }

  -- The consumer names a dependency that is not active.
  abbrev pub lacks_dependency : Consumer F → List String → Bool
  lacks_dependency c deps =
      not (str_eq c.requires_active "") && not (contains c.requires_active deps)

  unfoldable pub start_consumer :
      SurplusConfig F → SwitchReads F → Consumer F → Escalation F → Escalation F
  start_consumer cfg reads c e =
      let started = record e {
        active_deps = insert c.consumer_id e.active_deps;
        remaining_w = sub e.remaining_w c.power_w;
        limiter = record_switch cfg reads e.limiter;
      } in
      allocate c start started

  -- One round of the escalating loop.
  unfoldable pub escalate_step :
      SurplusConfig F → F → SwitchReads F → Consumer F → Escalation F → Escalation F
  escalate_step cfg deadband reads c e =
      let (l', free) = can_switch cfg reads.at_check e.limiter in
      if c.active
      then allocate c no_change (record e { remaining_w = sub e.remaining_w c.power_w })
      else if lacks_dependency c e.active_deps
      then allocate c no_change e
      else if lt e.remaining_w (add c.power_w deadband)
      then allocate c no_change e
      else if not free
      then allocate c no_change (record e { limiter = l' })
      else start_consumer cfg reads c (record e { limiter = l' })

  -- `reads n` are the readings of the n-th turn.
  unfoldable pub escalate :
      SurplusConfig F
      → F
      → (ℕ → SwitchReads F)
      → ℕ
      → List (Consumer F)
      → Escalation F
      → Escalation F
  escalate cfg deadband reads n [] e = e
  escalate cfg deadband reads n (c ∷ cs) e =
      escalate cfg deadband reads (suc n) cs (escalate_step cfg deadband (reads n) c e)

  abbrev pub note : Consumer F → Action → List Allocation → List Allocation
  note c a rest = record { consumer_id = c.consumer_id; action = a } ∷ rest

  -- The loop of `_de_escalate`, on consumers in the order to shed them.
  unfoldable pub shed :
      SurplusConfig F
      → (ℕ → SwitchReads F)
      → ℕ
      → List (Consumer F)
      → Limiter F
      → Limiter F × List Allocation
  shed cfg reads n [] l = (l, [])
  shed cfg reads n (c ∷ cs) l =
      let (l', free) = can_switch cfg (reads n).at_check l in
      let next = if c.active then if free then record_switch cfg (reads n) l' else l' else l in
      let (end, rest) = shed cfg reads (suc n) cs next in
      (end, note c (if c.active && free then stop else no_change) rest)

  -- `SurplusDispatch.evaluate`; `now` is the reading for the deadband. An absent set of dependencies
  -- is the empty one.
  unfoldable pub evaluate :
      SurplusConfig F
      → F
      → (ℕ → SwitchReads F)
      → F
      → List (Consumer F)
      → List String
      → Limiter F
      → Limiter F × SurplusResult F
  evaluate cfg now reads surplus consumers deps l =
      let deadband = effective_deadband_w cfg now l in
      let sorted = by_priority consumers in
      let begin : Escalation F = record {
        remaining_w = surplus;
        active_deps = deps;
        limiter = l;
        allocations = [];
      } in
      let e = escalate cfg deadband reads 0 sorted begin in
      let (l', shed_allocations) = shed cfg reads 0 (by_shed sorted) l in
      if lt surplus cfg.stop_threshold_w
      then (
        l',
        record {
          allocations = shed_allocations;
          available_surplus_w = lit 0 0;
          consumed_w = lit 0 0;
        },
      )
      else (
        e.limiter,
        record {
          allocations = e.allocations;
          available_surplus_w = surplus;
          consumed_w = fmax (lit 0 0) (sub surplus e.remaining_w);
        },
      )
