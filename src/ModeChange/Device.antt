-- ===== src/ModeChange/Device.antt =====
-- The protocol on an inverter that does what it is told: it is never told to discharge with fast
-- charging on, and it ends in the mode that was asked for.
use carma_box_v.Base.{
  ◌+◌, ◌*◌, ◌≤◌, ◌<◌, ◌≡◌, refl, inl, inr, Bool, true, false, not, ◌&&◌, ◌||◌, List, [], ◌∷◌,
  String, arith, length, str_eq, eq_iff, Bool-cases, ◌∙◌, subst,
}
use carma_box_v.Base.Int.{ℤ, pos}
use carma_box_v.Base.Floats.{Float, ge}
use carma_box_v.Models.{mode_value, battery_standby, discharge_pv}
use carma_box_v.ModeChange.Types.{
  Port, ChangeState, idle, clearing, standby_wait, setting_target, verifying, complete, failed,
  Request, ChangeConfig,
}
use carma_box_v.ModeChange.Protocol.{
  clear_fast_charging, execute_set_target, process_idle, process_clearing, process_standby,
  process_setting, process_verifying, retry, process_in, process_request,
}
use carma_box_v.ModeChange.Termination.{cycles, AllDue, cycles_terminate}

-- Fast charging is off or the inverter does not discharge.
abbrev pub is_safe : String → Bool → Bool
is_safe mode fast = not (str_eq mode (mode_value discharge_pv) && fast)

-- An inverter, and whether it was safe after each write so far.
pub record Inverter : Type 0 where
  pub mode : String
  pub limit : ℤ
  pub fast : Bool
  pub steady : Bool

abbrev pub inverter : Port Inverter
inverter = record {
  set_ems_mode = λ id m v. record v { mode = m; steady = v.steady && is_safe m v.fast };
  set_ems_power_limit = λ id w v. record v { limit = w };
  set_fast_charging = λ id on v. record v { fast = on; steady = v.steady && is_safe v.mode on };
  get_ems_mode = λ id v. v.mode;
  get_fast_charging = λ id v. v.fast;
}

-- The request does not ask for fast charging in discharge_pv.
abbrev pub IsSensible : {F : Type 0} → Request F → Type 0
IsSensible req = is_safe req.target_mode req.target_fast_charging ≡ true

abbrev pub IsSteady : Inverter → Type 0
IsSteady v = (v.steady ≡ true) × (is_safe v.mode v.fast ≡ true)

module _ {F : Type 0} where
  execute_set_target-IsSteady :
      (req : Request F) (v : Inverter)
      → IsSensible req
      → IsSteady v
      → IsSteady (execute_set_target inverter req v)
  unfolding execute_set_target clear_fast_charging
  execute_set_target-IsSteady req v h s = ground arith

  -- What the inverter holds in each state of the protocol, once its limits are cleared.
  abbrev pub HoldsIn : ChangeState → Request F → Inverter → Type 0
  HoldsIn idle req v = Unit
  HoldsIn clearing req v = (v.limit ≡ pos 0) × (v.fast ≡ false)
  HoldsIn standby_wait req v =
      (v.mode ≡ mode_value battery_standby) × (v.limit ≡ pos 0) × (v.fast ≡ false)
  HoldsIn failed req v = ⊥
  HoldsIn _ req v =
      (v.mode ≡ req.target_mode)
      × (v.limit ≡ req.target_limit_w)
      × (v.fast ≡ req.target_fast_charging)

module _ {F : Type 0} ⦃f : Float F⦄ (cfg : ChangeConfig F) where
  -- What a step keeps.
  abbrev pub Keeps : Request F → Request F × Inverter → Type 0
  Keeps req (req', v') =
      IsSteady v'
      × (req'.target_mode ≡ req.target_mode)
      × (req'.target_limit_w ≡ req.target_limit_w)
      × (req'.target_fast_charging ≡ req.target_fast_charging)

  abbrev pub StepKeeps : (F → Request F → Inverter → Request F × Inverter) → Type 0
  StepKeeps step =
      (now : F) (req : Request F) (v : Inverter)
      → IsSensible req
      → IsSteady v
      → Keeps req (step now req v)

  process_idle-Keeps : StepKeeps (process_idle inverter cfg)
  unfolding process_idle
  process_idle-Keeps now req v h s =
      let next = record req { state = setting_target; step_started_at = now } in
      let v0 : Inverter = record v {
        limit = pos 0;
        fast = false;
        steady = v.steady && is_safe v.mode false;
      } in
      let s0 : IsSteady v0 = ground arith in
      let s1 = execute_set_target-IsSteady next v0 h s0 in
      elim (Bool-cases (req.emergency || req.skip_clear_wait)) [
        | inl e ↦ rw e (s1, refl, refl, refl)
        | inr e ↦ rw e (s0, refl, refl, refl)
      ]

  process_clearing-Keeps : StepKeeps (process_clearing inverter cfg)
  unfolding process_clearing execute_set_target clear_fast_charging
  process_clearing-Keeps now req v h s =
      let next = record req { state = setting_target; step_started_at = now } in
      let s1 = execute_set_target-IsSteady next v h s in
      let standby : is_safe (mode_value battery_standby) v.fast ≡ true = refl in
      let s2 : IsSteady (inverter.set_ems_mode req.battery_id (mode_value battery_standby) v) =
        (rw s.0 refl, standby) in
      elim (Bool-cases (ge (f.sub now req.step_started_at) cfg.clear_wait_s)) [
        | inl e ↦ elim (Bool-cases req.skip_standby) [
          | inl k ↦ rw (e, k) (s1, refl, refl, refl)
          | inr k ↦ rw (e, k) (s2, refl, refl, refl)
        ]
        | inr e ↦ rw e (s, refl, refl, refl)
      ]

  process_standby-Keeps : StepKeeps (process_standby inverter cfg)
  unfolding process_standby
  process_standby-Keeps now req v h s =
      let next = record req { state = setting_target; step_started_at = now } in
      ground (arith, execute_set_target-IsSteady next v h s)

  process_setting-Keeps : StepKeeps (process_setting inverter cfg)
  unfolding process_setting
  process_setting-Keeps now req v h s = ground arith

  process_verifying-Keeps : StepKeeps (process_verifying inverter cfg)
  unfolding process_verifying retry clear_fast_charging
  process_verifying-Keeps now req v h s =
      let counted = record req { retry_count = req.retry_count + 1 } in
      let next = record counted { state = setting_target; step_started_at = now } in
      ground (arith, execute_set_target-IsSteady next v h s)

  process_in-Keeps : (s : ChangeState) → StepKeeps (process_in inverter s cfg)
  unfolding process_in
  process_in-Keeps idle = process_idle-Keeps
  process_in-Keeps clearing = process_clearing-Keeps
  process_in-Keeps standby_wait = process_standby-Keeps
  process_in-Keeps setting_target = process_setting-Keeps
  process_in-Keeps verifying = process_verifying-Keeps
  process_in-Keeps complete = λ now req v h s. (s, refl, refl, refl)
  process_in-Keeps failed = λ now req v h s. (s, refl, refl, refl)

  process_request-Keeps : StepKeeps (process_request inverter cfg)
  unfolding process_request
  process_request-Keeps now req v h s = process_in-Keeps req.state now req v h s

  process_request-HoldsIn :
      (now : F) (req : Request F) (v : Inverter)
      → IsSensible req
      → HoldsIn req.state req v
      → let (req', v') = process_request inverter cfg now req v in HoldsIn req'.state req' v'
  unfolding process_request process_idle process_clearing process_standby process_setting
      process_verifying retry clear_fast_charging execute_set_target
  process_request-HoldsIn now req v h s = ground (arith, eq_iff v.mode req.target_mode)

  -- A run keeps what a step keeps.
  cycles-Keeps :
      (ts : List F) (req : Request F) (v : Inverter)
      → IsSensible req
      → IsSteady v
      → Keeps req (cycles inverter cfg ts req v)
  unfolding cycles
  cycles-Keeps [] req v h s = (s, refl, refl, refl)
  cycles-Keeps (t ∷ ts) req v h s =
      let (req', v') = process_request inverter cfg t req v in
      let k = process_request-Keeps t req v h s in
      let h' : IsSensible req' = rw (k.1, k.3) h in
      let rest = cycles-Keeps ts req' v' h' k.0 in
      (rest.0, rest.1 ∙ k.1, rest.2 ∙ k.2, rest.3 ∙ k.3)

  cycles-HoldsIn :
      (ts : List F) (req : Request F) (v : Inverter)
      → IsSensible req
      → IsSteady v
      → HoldsIn req.state req v
      → let (req', v') = cycles inverter cfg ts req v in HoldsIn req'.state req' v'
  unfolding cycles
  cycles-HoldsIn [] req v h s holds = holds
  cycles-HoldsIn (t ∷ ts) req v h s holds =
      let (req', v') = process_request inverter cfg t req v in
      let k = process_request-Keeps t req v h s in
      let h' : IsSensible req' = rw (k.1, k.3) h in
      cycles-HoldsIn ts req' v' h' k.0 (process_request-HoldsIn t req v h holds)

  -- Fast charging and discharge_pv never meet: on an inverter that starts without both, a request
  -- that does not ask for both runs for any number of cycles without ever having both after a write.
  pub cycles-IsSteady :
      (ts : List F) (req : Request F) (v : Inverter)
      → IsSensible req
      → IsSteady v
      → IsSteady (cycles inverter cfg ts req v).1
  cycles-IsSteady ts req v h s = (cycles-Keeps ts req v h s).0

  -- On an inverter that does what it is told and starts without fast charging in discharge_pv, a new
  -- request that does not ask for both is complete after 2 * max_retries + 3 cycles that each come
  -- after the wait of the state they find, with at least one retry configured, and the inverter then
  -- has the mode, the power limit and the fast charging of the request.
  pub cycles_reach_target :
      (ts : List F) (req : Request F) (v : Inverter)
      → 0 < cfg.max_retries
      → req.state ≡ idle
      → req.retry_count ≡ 0
      → IsSensible req
      → IsSteady v
      → AllDue inverter cfg ts req v
      → 2 * cfg.max_retries + 3 ≤ length ts
      → let (req', v') = cycles inverter cfg ts req v in
        (req'.state ≡ complete)
        × (v'.mode ≡ req.target_mode)
        × (v'.limit ≡ req.target_limit_w)
        × (v'.fast ≡ req.target_fast_charging)
  cycles_reach_target ts req v retries new none_yet h s due enough =
      let (req', v') = cycles inverter cfg ts req v in
      let k = cycles-Keeps ts req v h s in
      let holds = cycles-HoldsIn ts req v h s (rw new _) in
      let end = cycles_terminate inverter cfg ts req v retries new none_yet due enough in
      elim end [
        | inl c ↦
            let held = subst (λ s. HoldsIn s req' v') c.0 holds in
            (c.0, held.0 ∙ k.1, held.1 ∙ k.2, held.2 ∙ k.3)
        | inr g ↦ absurd (subst (λ s. HoldsIn s req' v') g.0 holds)
      ]
