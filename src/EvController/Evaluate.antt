-- ===== src/EvController/Evaluate.antt =====
-- core/ev_controller.py: `evaluate`, in the order of its checks.
use carma_box_v.Base.{
  is_empty, Bool, true, false, not, ◌&&◌, List, [], ◌∷◌, none, some, String, any, contains, insert,
  str_eq, if◌then◌else◌,
}
use carma_box_v.Base.Int.{ℤ, pos, ltb_ℤ, leb_ℤ}
use carma_box_v.Base.Floats.{Float, ge, gt}
use carma_box_v.Models.{Appliance}
use carma_box_v.EvController.Types.{
  EvConfig, EvAction, no_change, start, stop, set_current, emergency_cut, fix_waiting_in_fully,
  connect_trigger, EvResult, EvState, EvInput, EvReads,
}
use carma_box_v.EvController.Timers.{can_start, can_ramp, resolve_soc, next_step_up, next_step_down}

abbrev pub act : EvAction → EvResult
act a = record { action = a; target_amps = pos 0 }

abbrev pub act_at : EvAction → ℤ → EvResult
act_at a amps = record { action = a; target_amps = amps }

module _ {F : Type 0} where
  abbrev active_ids : List (Appliance F) → List String
  active_ids [] = []
  active_ids (a ∷ apps) =
      let rest = active_ids apps in if a.active then insert a.entity_id rest else rest

  -- The appliances that are active now become those of the last cycle; the answer is whether one of
  -- them is new and holds back the current.
  unfoldable pub watch_loads : EvInput F → EvState F → EvState F × Bool
  watch_loads i s = elim i.appliances [
    | none ↦ (s, false)
    | some apps ↦
        let active = active_ids apps in
        let has_new = any (λ id. not (contains id s.prev_active_appliances)) active in
        let watched = record s { prev_active_appliances = active } in
        if i.ramp_pause_on_new_load && not (is_empty apps)
        then (watched, has_new && i.charging)
        else (watched, false)
  ]

module _ {F : Type 0} ⦃f : Float F⦄ (cfg : EvConfig F) (reads : EvReads F) (i : EvInput F) where
  open f use {lt, trunc}

  abbrev pub lacks_pv : Bool
  lacks_pv = lt i.pv_surplus_w cfg.ramp_headroom_w

  abbrev pub is_over : Bool
  is_over = lt i.ellevio_headroom_w cfg.stop_headroom_w

  unfoldable pub start_or_wait : EvState F → EvState F × EvResult
  start_or_wait s =
      if not (can_start cfg reads.at_check s)
      then (s, act no_change)
      else if gt i.ellevio_headroom_w cfg.start_headroom_w
      then (record s { last_start = reads.at_start }, act_at start cfg.start_amps)
      else (s, act no_change)

  abbrev ramped : EvState F → EvState F
  ramped s = record s { last_ramp = reads.at_ramp }

  abbrev stopped : EvState F → EvState F
  stopped s = record s { last_stop = reads.at_stop }

  unfoldable pub ramp_down : ℤ → EvState F → EvState F × EvResult
  ramp_down current_a s =
      if is_over && leb_ℤ current_a cfg.min_amps
      then (stopped s, act stop)
      else elim (next_step_down cfg.steps current_a) [
        | none ↦ (s, act no_change)
        | some next_down ↦
            if is_over
            then if ltb_ℤ next_down cfg.min_amps
              then (stopped (ramped s), act stop)
              else (ramped s, act_at set_current next_down)
            else (s, act no_change)
      ]

  unfoldable pub ramp_up_or_down : ℤ → EvState F → EvState F × EvResult
  ramp_up_or_down current_a s = elim (next_step_up cfg.steps current_a) [
    | none ↦ ramp_down current_a s
    | some next_up ↦
        if gt i.ellevio_headroom_w cfg.ramp_headroom_w
        then (ramped s, act_at set_current next_up)
        else ramp_down current_a s
  ]

  unfoldable pub ramp : EvState F → EvState F × EvResult
  ramp s =
      if not (can_ramp cfg reads.at_check s)
      then (s, act no_change)
      else ramp_up_or_down (trunc i.current_amps) s

  unfoldable pub control_current : EvState F → EvState F × EvResult
  control_current s =
      if lt i.ellevio_headroom_w cfg.emergency_headroom_w && i.charging
      then (s, act_at emergency_cut cfg.emergency_cut_amps)
      else if not i.charging
      then start_or_wait s
      else ramp s

  abbrev after_loads : EvState F × Bool → EvState F × EvResult
  after_loads (s, true) = (s, act no_change)
  after_loads (s, false) = control_current s

  -- Stopping by day for want of PV power records no stop.
  unfoldable pub regulate : F → EvState F → EvState F × EvResult
  regulate soc s =
      if str_eq i.reason_for_no_current "waiting_in_fully"
      then (s, act fix_waiting_in_fully)
      else if ge soc cfg.target_soc_pct
      then if i.charging then (stopped s, act stop) else (s, act no_change)
      else if not i.is_night && (not i.charging && lacks_pv)
      then (s, act no_change)
      else if not i.is_night && (i.charging && lt i.pv_surplus_w cfg.stop_headroom_w)
      then (s, act stop)
      else after_loads (watch_loads i s)

  unfoldable pub on_connect : EvState F → EvState F × EvResult
  on_connect s =
      if not i.is_night && lacks_pv
      then (s, act no_change)
      else (s, act_at connect_trigger cfg.start_amps)

  unfoldable pub evaluate_connected : F → EvState F → EvState F × EvResult
  evaluate_connected soc s =
      let known = record s { was_connected = true } in
      if not s.was_connected && (not i.charging && lt soc cfg.target_soc_pct)
      then on_connect known
      else regulate soc known

  unfoldable pub evaluate : EvState F → EvState F × EvResult
  evaluate s =
      let (s', soc) = resolve_soc cfg reads.at_soc i.ev_soc_pct s in
      if i.ev_connected
      then evaluate_connected soc s'
      else (record s' { was_connected = false }, act no_change)
