-- ===== src/Breaker.antt =====
-- adapters/circuit_breaker.py: the three-state breaker that guards an adapter call. A method takes
-- the reading of the injected clock that it makes, and returns the new breaker and its result.
-- `name` and `snapshot`, which only report, are left out.
pub mod Laws
pub mod Runs
mod Tests
use carma_box_v.Base.{ℕ, ◌+◌, Bool, true, false, List, [], ◌∷◌, leb, if◌then◌else◌}
use carma_box_v.Base.Floats.{Float, ge}

-- `opened` is the state "open".
pub data BreakerState : Type 0 where
  closed opened half_open : BreakerState

pub record BreakerConfig (F : Type 0) : Type 0 where
  pub failure_threshold : ℕ
  pub cooldown_s : F
  pub success_threshold : ℕ

pub record Breaker (F : Type 0) : Type 0 where
  pub config : BreakerConfig F
  pub state : BreakerState
  pub consecutive_failures : ℕ
  pub consecutive_successes : ℕ
  pub opened_at : F

module _ {F : Type 0} ⦃f : Float F⦄ where
  open f use {sub, lit}

  -- A breaker as the class builds it: the defaults of its fields.
  pub new : BreakerConfig F → Breaker F
  new cfg = record {
    config = cfg;
    state = closed;
    consecutive_failures = 0;
    consecutive_successes = 0;
    opened_at = lit 0 0;
  }

  pub has_cooled : Breaker F → F → Bool
  has_cooled b now = ge (sub now b.opened_at) b.config.cooldown_s

  allow_in : BreakerState → Breaker F → F → Breaker F × Bool
  allow_in closed b now = (b, true)
  allow_in opened b now =
      if has_cooled b now
      then (record b { state = half_open; consecutive_successes = 0 }, true)
      else (b, false)
  allow_in half_open b now = (b, true)

  pub allow : Breaker F → F → Breaker F × Bool
  unfolding allow_in
  allow b now = allow_in b.state b now

  count_success : Breaker F → Breaker F
  count_success b =
      if leb b.config.success_threshold b.consecutive_successes
      then record b { state = closed; consecutive_failures = 0; consecutive_successes = 0 }
      else b

  success_in : BreakerState → Breaker F → Breaker F
  unfolding count_success
  success_in half_open b =
      count_success (record b { consecutive_successes = b.consecutive_successes + 1 })
  success_in _ b = record b { consecutive_failures = 0 }

  pub on_success : Breaker F → Breaker F
  unfolding success_in
  on_success b = success_in b.state b

  count_failure : Breaker F → F → Breaker F
  count_failure b now =
      if leb b.config.failure_threshold b.consecutive_failures
      then record b { state = opened; opened_at = now }
      else b

  failure_in : BreakerState → Breaker F → F → Breaker F
  unfolding count_failure
  failure_in half_open b now = record b {
    state = opened;
    opened_at = now;
    consecutive_successes = 0;
  }
  failure_in _ b now =
      count_failure (record b { consecutive_failures = b.consecutive_failures + 1 }) now

  pub on_failure : Breaker F → F → Breaker F
  unfolding failure_in
  on_failure b now = failure_in b.state b now

-- One pass through the usage that the class documents: the clock at `allow`, the clock at the
-- report, and how the protected call went.
pub record Attempt (F : Type 0) : Type 0 where
  pub asked : F
  pub reported : F
  pub succeeded : Bool

module _ {F : Type 0} ⦃f : Float F⦄ where
  report : Attempt F → Breaker F → Breaker F
  report a b = if a.succeeded then on_success b else on_failure b a.reported

  -- The result says whether the call was made.
  pub attempt : Breaker F → Attempt F → Breaker F × Bool
  unfolding report
  attempt b a =
      let (b', allowed) = allow b a.asked in if allowed then (report a b', true) else (b, false)

  pub attempts : Breaker F → List (Attempt F) → Breaker F
  attempts b [] = b
  attempts b (a ∷ rest) = attempts (attempt b a).0 rest
