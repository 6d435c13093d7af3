-- ===== src/Breaker/Tests.antt =====
-- Runs of the breaker, and the theorems at them.
use carma_box_v.Base.{ℕ, ◌≡◌, refl, Bool, true, false, [], ◌∷◌, arith}
use carma_box_v.Base.Int.{◌-ℤ◌, ◌*ℤ◌}
use carma_box_v.Base.Milli.{Milli, milli_float, num}
use carma_box_v.Breaker.{
  closed, opened, BreakerConfig, Breaker, new, has_cooled, allow, on_success, on_failure, Attempt,
  attempt, attempts,
}
use carma_box_v.Breaker.Laws.{IsValid}
use carma_box_v.Breaker.Runs.{attempts_recover}

abbrev config : BreakerConfig Milli
config = record { failure_threshold = 2; cooldown_s = num 30; success_threshold = 2 }

abbrev at : ℕ → Bool → Attempt Milli
at t outcome = record { asked = num t; reported = num t; succeeded = outcome }

abbrev fresh : Breaker Milli
fresh = record {
  config = config;
  state = closed;
  consecutive_failures = 0;
  consecutive_successes = 0;
  opened_at = num 0;
}

abbrev tripped : Breaker Milli
tripped = record fresh { state = opened; consecutive_failures = 2; opened_at = num 8 }

fresh_is_new : new config ≡ fresh
unfolding new ◌*ℤ◌
fresh_is_new = refl

trips : attempts fresh (at 5 false ∷ at 8 false ∷ at 20 true ∷ []) ≡ tripped
unfolding attempts attempt allow on_success on_failure has_cooled ◌-ℤ◌
trips = refl

fresh-IsValid : IsValid fresh
fresh-IsValid = ground arith

attempts_recover_example :
    ((attempts tripped (at 38 true ∷ at 40 true ∷ [])).state ≡ closed)
    × ((attempts tripped (at 38 true ∷ at 40 true ∷ [])).consecutive_failures ≡ 0)
unfolding has_cooled ◌-ℤ◌
attempts_recover_example =
    attempts_recover tripped (at 38 true) (at 40 true ∷ []) refl refl (refl, (refl, tt)) refl
