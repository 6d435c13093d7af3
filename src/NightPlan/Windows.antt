-- ===== src/NightPlan/Windows.antt =====
-- When `is_in_window` tells the hours of a window.
use carma_box_v.Base.{ℕ, ◌+◌, ◌≤◌, ◌<◌, ◌≡◌, Bool, true, ◌&&◌, ◌||◌, arith, leb, ltb}
use carma_box_v.NightPlan.Plan.{is_in_window}

-- The hour of the clock is one of the window's, today or tomorrow.
abbrev pub covers : ℕ → ℕ → ℕ → Bool
covers start_hour end_hour now_hour =
    leb start_hour now_hour && ltb now_hour end_hour
    || (leb start_hour (now_hour + 24) && ltb (now_hour + 24) end_hour)

-- For an hour of the clock: a window that starts today and is neither empty nor longer than a day is
-- told by its hours, also with its end given as an hour of the clock before its start. One that starts
-- tomorrow and ends there, or that ends where it starts today, is told to hold every hour.
pub is_in_window_lem :
    (now_hour start_hour end_hour : ℕ)
    → now_hour < 24
    → (start_hour < 24
        → start_hour < end_hour
        → end_hour ≤ start_hour + 24
        → is_in_window now_hour start_hour end_hour ≡ covers start_hour end_hour now_hour)
      × (end_hour < start_hour
          → start_hour < 24
          → is_in_window now_hour start_hour end_hour ≡ covers start_hour (end_hour + 24) now_hour)
      × (24 ≤ start_hour
          → start_hour ≤ end_hour
          → end_hour < 48
          → is_in_window now_hour start_hour end_hour ≡ true)
      × (start_hour < 24 → is_in_window now_hour start_hour start_hour ≡ true)
unfolding is_in_window
is_in_window_lem now_hour start_hour end_hour h = (
  (λ today order day. ground arith),
  (λ before today. ground arith),
  (λ tomorrow order most. ground arith),
  (λ today. ground arith),
)
