-- ===== src/Breaker/Laws.antt =====
-- The invariant of the breaker, and what each method does in every state.
use carma_box_v.Base.{◌<◌, ◌≡◌, ◌↔◌, false, arith}
use carma_box_v.Base.Floats.{Float}
use carma_box_v.Breaker.{
  closed, opened, half_open, Breaker, BreakerConfig, new, has_cooled, allow, on_success, on_failure,
  Attempt, attempt,
}

-- A closed breaker has seen fewer failures in a row than open it; a breaker on probation has seen
-- fewer successes than close it.
pub record IsValid {F : Type 0} (b : Breaker F) : Type 0 where
  pub below : b.state ≡ closed → b.consecutive_failures < b.config.failure_threshold
  pub probing : b.state ≡ half_open → b.consecutive_successes < b.config.success_threshold

module _ {F : Type 0} ⦃f : Float F⦄ where
  -- A new breaker is valid if one failure at least is needed to open it.
  pub new-IsValid : (cfg : BreakerConfig F) → 0 < cfg.failure_threshold → IsValid (new cfg)
  unfolding new
  new-IsValid cfg h = ground arith

  -- One attempt, whatever the clock reads and however the call goes, keeps a breaker valid.
  pub attempt-IsValid :
      (b : Breaker F) (a : Attempt F)
      → 0 < b.config.failure_threshold
      → 0 < b.config.success_threshold
      → IsValid b
      → IsValid (attempt b a).0
  unfolding attempt allow on_success on_failure
  attempt-IsValid b a hf hs v = ground arith

  -- The call is refused exactly when the breaker is open and has not cooled down, and then nothing
  -- changes.
  pub attempt_refused_iff :
      (b : Breaker F) (a : Attempt F)
      → (((attempt b a).1 ≡ false) ↔ ((b.state ≡ opened) × (has_cooled b a.asked ≡ false)))
        × ((attempt b a).1 ≡ false → (attempt b a).0 ≡ b)
  unfolding attempt allow on_success on_failure
  attempt_refused_iff b a = ground arith
