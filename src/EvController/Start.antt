-- ===== src/EvController/Start.antt =====
-- When the controller may start the car.
use carma_box_v.Base.{◌≡◌, refl, ◌⊎◌, Bool, true, false, arith}
use carma_box_v.Base.Floats.{Float, ge, gt}
use carma_box_v.EvController.Types.{
  EvConfig, EvAction, start, connect_trigger, EvResult, EvState, EvInput, EvReads,
}
use carma_box_v.EvController.Timers.{can_start, resolve_soc}
use carma_box_v.EvController.Evaluate.{
  watch_loads, lacks_pv, start_or_wait, ramp_down, ramp_up_or_down, ramp, control_current, regulate,
  on_connect, evaluate_connected, evaluate,
}

module _ {F : Type 0} ⦃f : Float F⦄ (cfg : EvConfig F) (reads : EvReads F) (i : EvInput F) where
  open f use {lt}

  -- The car is to start charging.
  abbrev pub is_start : EvAction → Bool
  is_start start = true
  is_start connect_trigger = true
  is_start _ = false

  ramp-not_start : (s : EvState F) → is_start (ramp cfg reads i s).1.action ≡ false
  unfolding ramp ramp_up_or_down ramp_down
  ramp-not_start s = ground arith

  -- Neither the SoC nor the loads change when the car last stopped.
  can_start_same :
      (s s' : EvState F)
      → s'.last_stop ≡ s.last_stop
      → can_start cfg reads.at_check s' ≡ can_start cfg reads.at_check s
  unfolding can_start
  can_start_same s s' e = rw e refl

  resolve_soc-last_stop :
      (s : EvState F) → (resolve_soc cfg reads.at_soc i.ev_soc_pct s).0.last_stop ≡ s.last_stop
  unfolding resolve_soc
  resolve_soc-last_stop s = ground arith

  resolve_soc-was_connected :
      (s : EvState F)
      → (resolve_soc cfg reads.at_soc i.ev_soc_pct s).0.was_connected ≡ s.was_connected
  unfolding resolve_soc
  resolve_soc-was_connected s = ground arith

  watch_loads-last_stop : (s : EvState F) → (watch_loads i s).0.last_stop ≡ s.last_stop
  unfolding watch_loads
  watch_loads-last_stop s = ground arith

  -- Never by day without a surplus of PV power.
  abbrev pub HasPower : Type 0
  HasPower = (i.is_night ≡ true) ⊎ (lacks_pv cfg reads i ≡ false)

  -- Below its target, outside of the cooldown after a stop, with headroom.
  abbrev pub MayStart : F → EvState F → Type 0
  MayStart soc s =
      (ge soc cfg.target_soc_pct ≡ false)
      × (can_start cfg reads.at_check s ≡ true)
      × (gt i.ellevio_headroom_w cfg.start_headroom_w ≡ true)

  abbrev pub IsNew : F → EvState F → Type 0
  IsNew soc s = (s.was_connected ≡ false) × (lt soc cfg.target_soc_pct ≡ true)

  regulate-MayStart :
      (soc : F) (s : EvState F)
      → let r = (regulate cfg reads i soc s).1 in
        is_start r.action ≡ true
        → (i.charging ≡ false) × (r.target_amps ≡ cfg.start_amps) × HasPower × MayStart soc s
  unfolding regulate control_current start_or_wait
  regulate-MayStart soc s h =
      let same = can_start_same s (watch_loads i s).0 (watch_loads-last_stop s) in
      ground (arith, same, ramp-not_start (watch_loads i s).0)

  -- What an evaluation has that starts the car.
  abbrev pub Starts : F → EvState F → EvResult → Type 0
  Starts soc s r =
      (i.ev_connected ≡ true)
      × (i.charging ≡ false)
      × (r.target_amps ≡ cfg.start_amps)
      × HasPower
      × (IsNew soc s ⊎ MayStart soc s)

  evaluate_connected-Starts :
      (soc : F) (s : EvState F)
      → let r = (evaluate_connected cfg reads i soc s).1 in
        i.ev_connected ≡ true → is_start r.action ≡ true → Starts soc s r
  unfolding evaluate_connected on_connect
  evaluate_connected-Starts soc s c h =
      let known = record s { was_connected = true } in
      ground (arith, regulate-MayStart soc known, can_start_same s known refl)

  -- An evaluation that starts the car, or triggers its start, does so for a connected car that does
  -- not charge, with the configured start current, by night or with a surplus of PV power, and either
  -- for a car that has just been connected below its target, or for one that is not at its target,
  -- outside of the cooldown after the last stop and with headroom to start. The SoC is the one that
  -- `_resolve_soc` gives.
  pub evaluate-Starts :
      (s : EvState F)
      → let r = (evaluate cfg reads i s).1 in
        is_start r.action ≡ true → Starts (resolve_soc cfg reads.at_soc i.ev_soc_pct s).1 s r
  unfolding evaluate
  evaluate-Starts s h =
      let (s', soc) = resolve_soc cfg reads.at_soc i.ev_soc_pct s in
      ground (
        arith,
        evaluate_connected-Starts soc s',
        can_start_same s s' (resolve_soc-last_stop s),
        resolve_soc-was_connected s,
      )
