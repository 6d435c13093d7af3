-- ===== src/Guards/Hours.antt =====
-- The night window of the guards, and the tak that it selects.
use Prim.Native.Nat.{◌%◌}
use carma_box_v.Base.{ℕ, ◌+◌, ◌-◌, ◌<◌, ◌≡◌, ◌↔◌, true, arith}
use carma_box_v.Guards.Types.{GuardConfig}
use carma_box_v.Guards.Grid.{is_night_hour}

-- Hours of the day from 0 to 23: it is night exactly when fewer hours have passed since the night began
-- than the night lasts, counted around midnight, whether or not the window wraps.
pub is_night_hour_iff :
    {F : Type 0} (cfg : GuardConfig F) (hour : ℕ)
    → hour < 24
    → cfg.night_start_hour < 24
    → cfg.night_end_hour < 24
    → (is_night_hour cfg hour ≡ true) ↔ (
        (hour + 24 - cfg.night_start_hour) % 24
        < (cfg.night_end_hour + 24 - cfg.night_start_hour) % 24)
unfolding is_night_hour
is_night_hour_iff cfg hour h hs he = ground arith
