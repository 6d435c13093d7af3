-- ===== src/ModeChange/Simulation.antt =====
-- The protocol does the same through two ports whose reads agree for a battery, as long as their writes
-- keep them alike.
use carma_box_v.Base.{
  ◌≡◌, refl, sym, ◌∙◌, Bool, true, false, ◌&&◌, ◌||◌, List, [], ◌∷◌, String, arith, leb, subst,
  Bool-cases, inl, inr, if◌then◌else◌, str_eq, ◌+◌,
}
use carma_box_v.Base.Int.{ℤ, pos}
use carma_box_v.Base.Floats.{Float, ge}
use carma_box_v.Models.{mode_value, battery_standby, discharge_pv}
use carma_box_v.ModeChange.Types.{
  Port, ChangeState, idle, clearing, standby_wait, setting_target, verifying, complete, failed,
  Request, ChangeConfig,
}
use carma_box_v.ModeChange.Protocol.{
  clear_fast_charging, execute_set_target, process_idle, process_clearing, process_standby,
  process_setting, process_verifying, retry, process_in, process_request,
}
use carma_box_v.ModeChange.Termination.{cycles, AllDue}

pub record IsSimulation {D E : Type 0} (p : Port D) (q : Port E) (id : String) (R : D → E → Type 0)
    : Type 0 where
  pub modes :
      (m : String) (d : D) (v : E) → R d v → R (p.set_ems_mode id m d) (q.set_ems_mode id m v)
  pub limits :
      (w : ℤ) (d : D) (v : E)
      → R d v
      → R (p.set_ems_power_limit id w d) (q.set_ems_power_limit id w v)
  pub fasts :
      (on : Bool) (d : D) (v : E)
      → R d v
      → R (p.set_fast_charging id on d) (q.set_fast_charging id on v)
  pub reads_mode : (d : D) (v : E) → R d v → p.get_ems_mode id d ≡ q.get_ems_mode id v
  pub reads_fast : (d : D) (v : E) → R d v → p.get_fast_charging id d ≡ q.get_fast_charging id v

module _ {D E : Type 0} (p : Port D) (q : Port E) (R : D → E → Type 0) where
  abbrev Sim : String → Type 0
  Sim id = IsSimulation p q id R

  -- Two results of a step: the same request, and alike.
  abbrev Alike : {F : Type 0} → Request F × D → Request F × E → Type 0
  Alike x y = (x.0 ≡ y.0) × R x.1 y.1

  module _ {F : Type 0} (req : Request F) (sim : Sim req.battery_id) where
    clear_fast_charging-R :
        (d : D) (v : E) → R d v → R (clear_fast_charging p req d) (clear_fast_charging q req v)
    unfolding clear_fast_charging
    clear_fast_charging-R d v r =
        rw (sim.reads_fast d v r)
          (elim (Bool-cases (
            str_eq req.target_mode (mode_value discharge_pv)
            && q.get_fast_charging req.battery_id v)) [
              | inl e ↦ rw e (sim.fasts false d v r)
              | inr e ↦ rw e r
            ])

    execute_set_target-R :
        (d : D) (v : E) → R d v → R (execute_set_target p req d) (execute_set_target q req v)
    unfolding execute_set_target
    execute_set_target-R d v r =
        let id = req.battery_id in
        let d1 = clear_fast_charging p req d in
        let v1 = clear_fast_charging q req v in
        let d2 = p.set_ems_mode id req.target_mode d1 in
        let v2 = q.set_ems_mode id req.target_mode v1 in
        let d3 = p.set_ems_power_limit id req.target_limit_w d2 in
        let v3 = q.set_ems_power_limit id req.target_limit_w v2 in
        let r3 : R d3 v3 =
          sim.limits req.target_limit_w d2 v2
            (sim.modes req.target_mode d1 v1 (clear_fast_charging-R d v r)) in
        elim (Bool-cases req.target_fast_charging) [
          | inl e ↦ simp e (sim.fasts true d3 v3 r3)
          | inr e ↦ simp e r3
        ]

module _ {F D E : Type 0} ⦃f : Float F⦄ (p : Port D) (q : Port E) (R : D → E → Type 0)
    (cfg : ChangeConfig F) (now : F) where
  open f use {sub}

  abbrev if_alike :
      (b : Bool) (x x' : Request F × D) (y y' : Request F × E)
      → Alike p q R x y
      → Alike p q R x' y'
      → Alike p q R (if b then x else x') (if b then y else y')
  if_alike true x x' y y' h h' = h
  if_alike false x x' y y' h h' = h'

  module _ (req : Request F) (sim : Sim p q R req.battery_id) (d : D) (v : E) (r : R d v) where
    abbrev id : String
    id = req.battery_id

    abbrev next : Request F
    next = record req { state = setting_target; step_started_at = now }

    set_target_alike :
        (d : D) (v : E)
        → R d v
        → Alike p q R (next, execute_set_target p next d) (next, execute_set_target q next v)
    set_target_alike d v r = (refl, execute_set_target-R p q R next sim d v r)

    process_idle_alike : Alike p q R (process_idle p cfg now req d) (process_idle q cfg now req v)
    unfolding process_idle
    process_idle_alike =
        let d1 = p.set_ems_power_limit id (pos 0) d in
        let v1 = q.set_ems_power_limit id (pos 0) v in
        let r2 = sim.fasts false d1 v1 (sim.limits (pos 0) d v r) in
        if_alike (req.emergency || req.skip_clear_wait) _ _ _ _ (set_target_alike _ _ r2) (refl, r2)

    process_clearing_alike :
        Alike p q R (process_clearing p cfg now req d) (process_clearing q cfg now req v)
    unfolding process_clearing
    process_clearing_alike =
        if_alike (ge (sub now req.step_started_at) cfg.clear_wait_s) _ _ _ _
          (if_alike req.skip_standby _ _ _ _ (set_target_alike d v r)
            (refl, sim.modes (mode_value battery_standby) d v r))
          (refl, r)

    process_standby_alike :
        Alike p q R (process_standby p cfg now req d) (process_standby q cfg now req v)
    unfolding process_standby
    process_standby_alike =
        if_alike (ge (sub now req.step_started_at) cfg.standby_wait_s) _ _ _ _
          (set_target_alike d v r) (refl, r)

    process_setting_alike :
        Alike p q R (process_setting p cfg now req d) (process_setting q cfg now req v)
    unfolding process_setting
    process_setting_alike =
        if_alike (ge (sub now req.step_started_at) cfg.set_wait_s) _ _ _ _ (refl, r) (refl, r)

    retry_alike : Alike p q R (retry p cfg now req d) (retry q cfg now req v)
    unfolding retry
    retry_alike =
        let again = record next { retry_count = req.retry_count + 1 } in
        if_alike (leb cfg.max_retries (req.retry_count + 1)) _ _ _ _ (refl, r)
          (refl, execute_set_target-R p q R again sim d v r)

    process_verifying_alike :
        Alike p q R (process_verifying p cfg now req d) (process_verifying q cfg now req v)
    unfolding process_verifying
    process_verifying_alike = rw (sim.reads_mode d v r) (
        if_alike (ge (sub now req.step_started_at) cfg.verify_wait_s) _ _ _ _
          (if_alike (str_eq (q.get_ems_mode id v) req.target_mode) _ _ _ _
            (refl, clear_fast_charging-R p q R req sim d v r) retry_alike)
          (refl, r))

    process_in_alike :
        (s : ChangeState)
        → Alike p q R (process_in p s cfg now req d) (process_in q s cfg now req v)
    unfolding process_in
    process_in_alike idle = process_idle_alike
    process_in_alike clearing = process_clearing_alike
    process_in_alike standby_wait = process_standby_alike
    process_in_alike setting_target = process_setting_alike
    process_in_alike verifying = process_verifying_alike
    process_in_alike complete = (refl, r)
    process_in_alike failed = (refl, r)

    pub process_request_alike :
        Alike p q R (process_request p cfg now req d) (process_request q cfg now req v)
    unfolding process_request
    process_request_alike = process_in_alike req.state

module _ {F D E : Type 0} ⦃f : Float F⦄ (p : Port D) (q : Port E) (R : D → E → Type 0)
    (cfg : ChangeConfig F) (id : String) (sim : IsSimulation p q id R) where
  process_request-battery_id :
      (now : F) (req : Request F) (v : E)
      → (process_request q cfg now req v).0.battery_id ≡ req.battery_id
  unfolding process_request process_idle process_clearing process_standby process_setting
      process_verifying retry
  process_request-battery_id now req v = ground arith

  abbrev step_alike :
      (now : F) (req : Request F) (d : D) (v : E)
      → req.battery_id ≡ id
      → R d v
      → Alike p q R (process_request p cfg now req d) (process_request q cfg now req v)
  step_alike now req d v same r =
      process_request_alike p q R cfg now req (subst (λ j. IsSimulation p q j R) (sym same) sim) d v
        r

  -- A request through the cycles of a run.
  pub cycles_alike :
      (ts : List F) (req : Request F) (d : D) (v : E)
      → req.battery_id ≡ id
      → R d v
      → Alike p q R (cycles p cfg ts req d) (cycles q cfg ts req v)
  unfolding cycles
  cycles_alike [] req d v same r = (refl, r)
  cycles_alike (t ∷ ts) req d v same r =
      let (e, r') = step_alike t req d v same r in
      let (req', v') = process_request q cfg t req v in
      let d' = (process_request p cfg t req d).1 in
      subst (λ (x : Request F). Alike p q R (cycles p cfg ts x d') (cycles q cfg ts req' v'))
        (sym e) (cycles_alike ts req' d' v' (process_request-battery_id t req v ∙ same) r')

  pub AllDue-alike :
      (ts : List F) (req : Request F) (d : D) (v : E)
      → req.battery_id ≡ id
      → R d v
      → AllDue p cfg ts req d
      → AllDue q cfg ts req v
  AllDue-alike [] req d v same r due = tt
  AllDue-alike (t ∷ ts) req d v same r due =
      let (e, r') = step_alike t req d v same r in
      let d' = (process_request p cfg t req d).1 in
      let (req', v') = process_request q cfg t req v in
      (
        due.0,
        AllDue-alike ts req' d' v' (process_request-battery_id t req v ∙ same) r'
            (subst (λ (x : Request F). AllDue p cfg ts x d') e due.1),
      )
