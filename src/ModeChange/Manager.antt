-- ===== src/ModeChange/Manager.antt =====
-- core/mode_change.py: `ModeChangeManager`, which keeps one request for each battery.
use carma_box_v.Base.{
  Bool, true, false, not, List, [], ◌∷◌, ◌++◌, Option, none, some, String, if◌then◌else◌, str_eq,
}
use carma_box_v.Base.Int.{ℤ, pos}
use carma_box_v.Base.Floats.{Float, gt}
use carma_box_v.ModeChange.Types.{
  Port, ChangeState, idle, complete, failed, Request, TransitionPolicy, ChangeConfig,
}
use carma_box_v.ModeChange.Protocol.{process_request}

-- A dict keyed by texts, in the order of insertion.
module _ {V : Type 0} where
  unfoldable pub lookup : String → List (String × V) → Option V
  lookup k [] = none
  lookup k ((j, v) ∷ m) = if str_eq k j then some v else lookup k m

  unfoldable pub assign : String → V → List (String × V) → List (String × V)
  assign k v [] = (k, v) ∷ []
  assign k v ((j, w) ∷ m) = if str_eq k j then (j, v) ∷ m else (j, w) ∷ assign k v m

  unfoldable pub remove : String → List (String × V) → List (String × V)
  remove k [] = []
  remove k ((j, w) ∷ m) = if str_eq k j then remove k m else (j, w) ∷ remove k m

pub record Manager (F : Type 0) : Type 0 where
  pub config : ChangeConfig F
  pub requests : List (String × Request F)

abbrev pub is_terminal : ChangeState → Bool
is_terminal complete = true
is_terminal failed = true
is_terminal _ = false

-- Not in (IDLE, COMPLETE, FAILED).
abbrev pub is_active : ChangeState → Bool
is_active idle = false
is_active s = not (is_terminal s)

-- `TransitionPolicy()`
abbrev pub full_protocol : TransitionPolicy
full_protocol = record { skip_clear_wait = false; skip_standby = false }

abbrev pub policy_or_full : Option TransitionPolicy → TransitionPolicy
policy_or_full none = full_protocol
policy_or_full (some p) = p

module _ {F : Type 0} where
  unfoldable pub clear_pending : String → Manager F → Manager F
  clear_pending id m = record m { requests = remove id m.requests }

  unfoldable pub is_in_progress : String → Manager F → Bool
  is_in_progress id m = elim (lookup id m.requests) [
    | none ↦ false
    | some req ↦ is_active req.state
  ]

  unfoldable pub get_state : String → Manager F → ChangeState
  get_state id m = elim (lookup id m.requests) [ none ↦ idle | some req ↦ req.state ]

module _ {F : Type 0} ⦃f : Float F⦄ where
  open f use {sub, lit}

  -- The request that `request_change` stores.
  unfoldable pub fresh_request : ChangeConfig F → String → String → ℤ → Bool → Request F
  fresh_request cfg id mode limit fast =
      let policy = policy_or_full (lookup mode cfg.transition_matrix) in
      record {
        battery_id = id;
        target_mode = mode;
        target_limit_w = limit;
        target_fast_charging = fast;
        state = idle;
        step_started_at = lit 0 0;
        retry_count = 0;
        emergency = false;
        skip_clear_wait = policy.skip_clear_wait;
        skip_standby = policy.skip_standby;
      }

  -- A request in progress refuses another, for the same target or not.
  unfoldable pub request_change : String → String → ℤ → Bool → Manager F → Manager F × Bool
  request_change id mode limit fast m = if is_in_progress id m then (m, false) else (
    record m { requests = assign id (fresh_request m.config id mode limit fast) m.requests },
    true,
  )

  unfoldable pub emergency_request : String → String → Bool → Request F
  emergency_request id mode fast = record {
    battery_id = id;
    target_mode = mode;
    target_limit_w = pos 0;
    target_fast_charging = fast;
    state = idle;
    step_started_at = lit 0 0;
    retry_count = 0;
    emergency = true;
    skip_clear_wait = false;
    skip_standby = false;
  }

  unfoldable pub emergency_mode_change : String → String → Bool → Manager F → Manager F × Bool
  emergency_mode_change id mode fast m =
      (record m { requests = assign id (emergency_request id mode fast) m.requests }, true)

  -- `cancel` deletes the request whatever its state; the states differ in what is logged.
  unfoldable pub cancel : String → Manager F → Manager F
  cancel id m = record m { requests = remove id m.requests }

  -- One round of the loop of `process`: `now` is its reading of the clock, and `at` gives that of
  -- `_process_request` for each battery. A finished request is dropped after an hour.
  unfoldable pub process_entry :
      {D : Type 0} (p : Port D)
      → ChangeConfig F
      → F
      → (String → F)
      → String × Request F
      → D
      → List (String × Request F) × D
  process_entry p cfg now at (id, req) d =
      if is_terminal req.state
      then (if gt (sub now req.step_started_at) (lit 3600 0) then [] else (id, req) ∷ [], d)
      else (
        (id, (process_request p cfg (at id) req d).0) ∷ [],
        (process_request p cfg (at id) req d).1,
      )

  unfoldable pub process_all :
      {D : Type 0} (p : Port D)
      → ChangeConfig F
      → F
      → (String → F)
      → List (String × Request F)
      → D
      → List (String × Request F) × D
  process_all p cfg now at [] d = ([], d)
  process_all p cfg now at (entry ∷ rest) d =
      let (kept, d1) = process_entry p cfg now at entry d in
      let (rest', d') = process_all p cfg now at rest d1 in (kept ++ rest', d')

  unfoldable pub process :
      {D : Type 0} (p : Port D) → F → (String → F) → Manager F → D → Manager F × D
  process p now at m d =
      let (rest, d') = process_all p m.config now at m.requests d in
      (record m { requests = rest }, d')
