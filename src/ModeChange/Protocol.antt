-- ===== src/ModeChange/Protocol.antt =====
-- core/mode_change.py: `_process_request` and `_execute_set_target`, on a request and what the
-- executor acts on. `now` is the reading of the clock that the call makes.
use carma_box_v.Base.{◌+◌, true, false, ◌&&◌, ◌||◌, leb, if◌then◌else◌, str_eq}
use carma_box_v.Base.Int.{pos}
use carma_box_v.Base.Floats.{Float, ge}
use carma_box_v.Models.{mode_value, battery_standby, discharge_pv}
use carma_box_v.ModeChange.Types.{
  Port, ChangeState, idle, clearing, standby_wait, setting_target, verifying, complete, failed,
  Request, ChangeConfig,
}

module _ {F D : Type 0} (p : Port D) where
  open p use {set_ems_mode, set_ems_power_limit, set_fast_charging, get_ems_mode, get_fast_charging}

  -- If the target is discharge_pv and fast charging is still on, it is turned off.
  unfoldable pub clear_fast_charging : Request F → D → D
  clear_fast_charging req d =
      if str_eq req.target_mode (mode_value discharge_pv) && get_fast_charging req.battery_id d
      then set_fast_charging req.battery_id false d
      else d

  unfoldable pub execute_set_target : Request F → D → D
  execute_set_target req d =
      let d1 = clear_fast_charging req d in
      let d2 = set_ems_mode req.battery_id req.target_mode d1 in
      let d3 = set_ems_power_limit req.battery_id req.target_limit_w d2 in
      if req.target_fast_charging then set_fast_charging req.battery_id true d3 else d3

module _ {F D : Type 0} ⦃f : Float F⦄ (p : Port D) where
  open f use {sub}
  open p use {set_ems_mode, set_ems_power_limit, set_fast_charging, get_ems_mode, get_fast_charging}

  unfoldable pub process_idle : ChangeConfig F → F → Request F → D → Request F × D
  process_idle cfg now req d =
      let d2 =
        set_fast_charging req.battery_id false (set_ems_power_limit req.battery_id (pos 0) d) in
      let next = record req { state = setting_target; step_started_at = now } in
      if req.emergency || req.skip_clear_wait
      then (next, execute_set_target p next d2)
      else (record req { state = clearing; step_started_at = now }, d2)

  unfoldable pub process_clearing : ChangeConfig F → F → Request F → D → Request F × D
  process_clearing cfg now req d =
      let next = record req { state = setting_target; step_started_at = now } in
      if ge (sub now req.step_started_at) cfg.clear_wait_s
      then if req.skip_standby then (next, execute_set_target p next d) else (
        record req { state = standby_wait; step_started_at = now },
        set_ems_mode req.battery_id (mode_value battery_standby) d,
      )
      else (req, d)

  unfoldable pub process_standby : ChangeConfig F → F → Request F → D → Request F × D
  process_standby cfg now req d =
      let next = record req { state = setting_target; step_started_at = now } in
      if ge (sub now req.step_started_at) cfg.standby_wait_s
      then (next, execute_set_target p next d)
      else (req, d)

  unfoldable pub process_setting : ChangeConfig F → F → Request F → D → Request F × D
  process_setting cfg now req d =
      if ge (sub now req.step_started_at) cfg.set_wait_s
      then (record req { state = verifying; step_started_at = now }, d)
      else (req, d)

  -- A verification that read another mode than the target.
  unfoldable pub retry : ChangeConfig F → F → Request F → D → Request F × D
  retry cfg now req d =
      let counted = record req { retry_count = req.retry_count + 1 } in
      let next = record counted { state = setting_target; step_started_at = now } in
      if leb cfg.max_retries counted.retry_count
      then (record counted { state = failed }, d)
      else (next, execute_set_target p next d)

  unfoldable pub process_verifying : ChangeConfig F → F → Request F → D → Request F × D
  process_verifying cfg now req d =
      if ge (sub now req.step_started_at) cfg.verify_wait_s
      then if str_eq (get_ems_mode req.battery_id d) req.target_mode
        then (record req { state = complete }, clear_fast_charging p req d)
        else retry cfg now req d
      else (req, d)

  unfoldable pub process_in : ChangeState → ChangeConfig F → F → Request F → D → Request F × D
  process_in idle = process_idle
  process_in clearing = process_clearing
  process_in standby_wait = process_standby
  process_in setting_target = process_setting
  process_in verifying = process_verifying
  process_in complete = λ cfg now req d. (req, d)
  process_in failed = λ cfg now req d. (req, d)

  -- `_process_request`
  unfoldable pub process_request : ChangeConfig F → F → Request F → D → Request F × D
  unfolding process_in
  process_request cfg now req d = process_in req.state cfg now req d
