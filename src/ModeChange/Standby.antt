-- ===== src/ModeChange/Standby.antt =====
-- The full protocol goes through battery_standby: whatever the hardware answers, the first mode that
-- a request under it writes is battery_standby.
use carma_box_v.Base.{◌≡◌, refl, ap, Bool, false, List, [], ◌∷◌, Option, none, some, String, arith}
use carma_box_v.Base.Int.{ℤ}
use carma_box_v.Base.Floats.{Float}
use carma_box_v.Models.{mode_value, battery_standby}
use carma_box_v.ModeChange.Types.{Port, ChangeState, idle, clearing, Request, ChangeConfig}
use carma_box_v.ModeChange.Protocol.{
  clear_fast_charging, execute_set_target, process_idle, process_clearing, process_standby,
  process_setting, process_verifying, retry, process_request,
}
use carma_box_v.ModeChange.Manager.{lookup, policy_or_full, full_protocol, fresh_request}
use carma_box_v.ModeChange.Termination.{cycles}

-- What the executor acts on, and the first mode written to it.
pub record Watched (D : Type 0) : Type 0 where
  pub first : Option String
  pub device : D

abbrev pub or_first : Option String → String → Option String
or_first none m = some m
or_first (some m) _ = some m

module _ {D : Type 0} (p : Port D) where
  abbrev pub watched : Port (Watched D)
  watched = record {
    set_ems_mode =
        λ id m w. record { first = or_first w.first m; device = p.set_ems_mode id m w.device };
    set_ems_power_limit = λ id n w. record w { device = p.set_ems_power_limit id n w.device };
    set_fast_charging = λ id on w. record w { device = p.set_fast_charging id on w.device };
    get_ems_mode = λ id w. p.get_ems_mode id w.device;
    get_fast_charging = λ id w. p.get_fast_charging id w.device;
  }

-- The first mode written when the request is in the state.
abbrev pub first_in : ChangeState → Option String
first_in idle = none
first_in clearing = none
first_in _ = some (mode_value battery_standby)

module _ {F D : Type 0} ⦃f : Float F⦄ (p : Port D) (cfg : ChangeConfig F) where
  -- Nothing skips a step.
  abbrev pub IsFull : Request F → Type 0
  IsFull req = (req.emergency ≡ false) × (req.skip_clear_wait ≡ false) × (req.skip_standby ≡ false)

  process_request-first :
      (now : F) (req : Request F) (w : Watched D)
      → IsFull req
      → w.first ≡ first_in req.state
      → let (req', w') = process_request (watched p) cfg now req w in
        IsFull req' × (w'.first ≡ first_in req'.state)
  unfolding process_request process_idle process_clearing process_standby process_setting
      process_verifying retry clear_fast_charging execute_set_target
  process_request-first now req w full h = ground arith

  cycles-first :
      (ts : List F) (req : Request F) (w : Watched D)
      → IsFull req
      → w.first ≡ first_in req.state
      → let (req', w') = cycles (watched p) cfg ts req w in w'.first ≡ first_in req'.state
  unfolding cycles
  cycles-first [] req w full h = h
  cycles-first (t ∷ ts) req w full h =
      let (req', w') = process_request (watched p) cfg t req w in
      let next = process_request-first t req w full h in cycles-first ts req' w' next.0 next.1

  -- Whatever the hardware answers: a new request for a mode whose policy is the full protocol has
  -- written no mode while it is idle or clearing, and in every later state the first mode it wrote is
  -- battery_standby.
  pub cycles_stand_by_first :
      (ts : List F) (id mode : String) (limit : ℤ) (fast : Bool) (d : D)
      → policy_or_full (lookup mode cfg.transition_matrix) ≡ full_protocol
      → let (req', w') =
          cycles
            (watched p)
            cfg
            ts
            (fresh_request cfg id mode limit fast)
            (record { first = none; device = d }) in
        w'.first ≡ first_in req'.state
  unfolding fresh_request
  cycles_stand_by_first ts id mode limit fast d full =
      cycles-first ts (fresh_request cfg id mode limit fast) (record { first = none; device = d })
        (refl, ap (λ q. q.skip_clear_wait) full, ap (λ q. q.skip_standby) full) refl
