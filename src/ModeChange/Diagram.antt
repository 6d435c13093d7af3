-- ===== src/ModeChange/Diagram.antt =====
-- The protocol as a diagram of states with guards, and its end after boundedly many cycles.
use carma_box_v.Base.{◌+◌, ◌≤◌, ◌<◌, ◌≡◌, Bool, true, false, ◌||◌, arith}
use carma_box_v.Base.Floats.{Float, ge}
use carma_box_v.ModeChange.Types.{
  Port, ChangeState, idle, clearing, standby_wait, setting_target, verifying, complete, failed,
  Request, ChangeConfig,
}
use carma_box_v.ModeChange.Protocol.{
  process_idle, process_clearing, process_standby, process_setting, process_verifying, retry,
  process_request,
}

module _ {F : Type 0} ⦃f : Float F⦄ (cfg : ChangeConfig F) where
  open f use {sub}

  -- The wait of a state is over; a finished request has nothing to wait for.
  abbrev pub due_in : ChangeState → F → Bool
  due_in idle elapsed = true
  due_in clearing elapsed = ge elapsed cfg.clear_wait_s
  due_in standby_wait elapsed = ge elapsed cfg.standby_wait_s
  due_in setting_target elapsed = ge elapsed cfg.set_wait_s
  due_in verifying elapsed = ge elapsed cfg.verify_wait_s
  due_in _ elapsed = false

  abbrev pub is_due : F → Request F → Bool
  is_due now req = due_in req.state (sub now req.step_started_at)

  -- The edges of the protocol, with what they ask of the request.
  pub data Edge (req : Request F) : ChangeState → ChangeState → Type 0 where
    prepare : req.emergency || req.skip_clear_wait ≡ false → Edge req idle clearing
    prepare_fast : req.emergency || req.skip_clear_wait ≡ true → Edge req idle setting_target
    stand_by : req.skip_standby ≡ false → Edge req clearing standby_wait
    skip : req.skip_standby ≡ true → Edge req clearing setting_target
    set : Edge req standby_wait setting_target
    verify : Edge req setting_target verifying
    confirm : Edge req verifying complete
    try_again : req.retry_count + 1 < cfg.max_retries → Edge req verifying setting_target
    give_up : cfg.max_retries ≤ req.retry_count + 1 → Edge req verifying failed

  module _ {D : Type 0} (p : Port D) where
    -- A cycle takes an edge of the protocol if the wait of the request's state is over, and leaves
    -- the request and the hardware alone if not.
    pub process_request-Edge :
        (now : F) (req : Request F) (d : D)
        → (is_due now req ≡ false → process_request p cfg now req d ≡ (req, d))
          × (is_due now req ≡ true → Edge req req.state (process_request p cfg now req d).0.state)
    unfolding process_request process_idle process_clearing process_standby process_setting
        process_verifying retry
    process_request-Edge now req d = (
      λ h. ground arith,
      λ h.
          grind (
            arith, prepare, prepare_fast, stand_by, skip, set, verify, confirm, try_again, give_up,
          ),
    )
