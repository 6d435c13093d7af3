-- ===== src/NightPlan/Presence.antt =====
-- core/ev_presence.py: whether the car is at home.
use carma_box_v.Base.{
  ℕ, Bool, true, false, ◌&&◌, ◌||◌, Option, none, some, String, leb, ltb, ◌==◌, if◌then◌else◌,
  str_eq,
}

pub data PresenceSource : Type 0 where
  device_tracker_home device_tracker_away device_tracker_unknown_fallback : PresenceSource
  schedule_weekend schedule_weekday_home_hours schedule_weekday_away_hours : PresenceSource

pub record PresenceConfig : Type 0 where
  pub weekday_home_from_hour : ℕ
  pub weekday_home_until_hour : ℕ
  pub weekend_home_full_day : Bool
  pub saturday_weekday : ℕ
  pub sunday_weekday : ℕ

-- `EVPresenceResult`, without its reason.
pub record Presence : Type 0 where
  pub is_home : Bool
  pub source : PresenceSource

abbrev presence : Bool → PresenceSource → Presence
presence is_home source = record { is_home = is_home; source = source }

unfoldable pub is_weekend : PresenceConfig → ℕ → Bool
is_weekend cfg weekday = (weekday == cfg.saturday_weekday) || (weekday == cfg.sunday_weekday)

abbrev weekday_source : Bool → PresenceSource
weekday_source true = schedule_weekday_home_hours
weekday_source false = schedule_weekday_away_hours

abbrev or_fallback : Option String → PresenceSource → PresenceSource
or_fallback none source = source
or_fallback (some state) source = device_tracker_unknown_fallback

-- The schedule, for a tracker that is absent or says neither.
unfoldable pub by_schedule : PresenceConfig → ℕ → ℕ → Option String → Presence
by_schedule cfg weekday hour tracker =
    let is_home = leb cfg.weekday_home_from_hour hour || ltb hour cfg.weekday_home_until_hour in
    if cfg.weekend_home_full_day && is_weekend cfg weekday
    then presence true schedule_weekend
    else presence is_home (or_fallback tracker (weekday_source is_home))

-- `evaluate`, on the weekday and the hour of `now`.
unfoldable pub evaluate_presence : PresenceConfig → ℕ → ℕ → Option String → Presence
evaluate_presence cfg weekday hour none = by_schedule cfg weekday hour none
evaluate_presence cfg weekday hour (some state) =
    if str_eq state "home"
    then presence true device_tracker_home
    else if str_eq state "not_home" || str_eq state "away"
    then presence false device_tracker_away
    else by_schedule cfg weekday hour (some state)
