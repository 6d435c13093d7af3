-- ===== src/Executor/Simulate.antt =====
-- The mode change protocol over the executor's port: what it does to an inverter of a site.
use carma_box_v.Base.{
  ◌+◌, ◌*◌, ◌<◌, ◌≤◌, ◌≡◌, refl, ap, ◌∙◌, true, List, String, arith, contains, length, eq_iff,
}
use carma_box_v.Base.Floats.{Float}
use carma_box_v.ModeChange.Types.{Port, Request, ChangeConfig, idle, complete}
use carma_box_v.ModeChange.Termination.{cycles, AllDue}
use carma_box_v.ModeChange.Device.{Inverter, inverter, is_safe, IsSensible, cycles_reach_target}
use carma_box_v.ModeChange.Simulation.{IsSimulation, cycles_alike, AllDue-alike}
use carma_box_v.Executor.Site.{Site, obedient}
use carma_box_v.Executor.Ports.{
  port, port_set_ems_mode, port_set_ems_power_limit, port_set_fast_charging, port_get_ems_mode,
  port_get_fast_charging,
}

module _ {F : Type 0} ⦃f : Float F⦄ (cfg : ChangeConfig F) (inverters consumers : List String) where
  abbrev site_port : Port Site
  site_port = port (obedient {F = F} inverters consumers)

  -- The site's inverter of the id is the one inverter.
  abbrev Shows : String → Site → Inverter → Type 0
  Shows id s v = (s.modes id ≡ v.mode) × (s.limits id ≡ v.limit) × (s.fast id ≡ v.fast)

  site_port-IsSimulation :
      (id : String) → contains id inverters ≡ true → IsSimulation site_port inverter id (Shows id)
  unfolding port_set_ems_mode port_set_ems_power_limit port_set_fast_charging port_get_ems_mode
      port_get_fast_charging
  site_port-IsSimulation id known = record {
    modes = λ m s v h. ground (arith, known, eq_iff id id, h);
    limits = λ w s v h. ground (arith, known, eq_iff id id, h);
    fasts = λ on s v h. ground (arith, known, eq_iff id id, h);
    reads_mode = λ s v h. ground (arith, known, eq_iff id id, h);
    reads_fast = λ s v h. ground (arith, known, eq_iff id id, h);
  }

  -- On a site whose inverters do what they are told, through the executor's port: a new request for a
  -- registered inverter that holds no fast charging in discharge_pv, and which does not ask for both, is
  -- complete after 2 * max_retries + 3 cycles that each come after the wait of the state they find, with
  -- at least one retry configured, and that inverter then has the mode, the power limit and the fast
  -- charging of the request.
  pub port_cycles_reach_target :
      (ts : List F) (req : Request F) (s : Site)
      → contains req.battery_id inverters ≡ true
      → 0 < cfg.max_retries
      → req.state ≡ idle
      → req.retry_count ≡ 0
      → IsSensible req
      → is_safe (s.modes req.battery_id) (s.fast req.battery_id) ≡ true
      → AllDue site_port cfg ts req s
      → 2 * cfg.max_retries + 3 ≤ length ts
      → let (req', s') = cycles site_port cfg ts req s in
        (req'.state ≡ complete)
        × (s'.modes req.battery_id ≡ req.target_mode)
        × (s'.limits req.battery_id ≡ req.target_limit_w)
        × (s'.fast req.battery_id ≡ req.target_fast_charging)
  port_cycles_reach_target ts req s known retries new none_yet sensible safe due enough =
      let id = req.battery_id in
      let v : Inverter = record {
        mode = s.modes id;
        limit = s.limits id;
        fast = s.fast id;
        steady = true;
      } in
      let sim = site_port-IsSimulation id known in
      let shown : Shows id s v = (refl, refl, refl) in
      let due' = AllDue-alike site_port inverter (Shows id) cfg id sim ts req s v refl shown due in
      let (e, shows) =
        cycles_alike site_port inverter (Shows id) cfg id sim ts req s v refl shown in
      let (mode, limit, fast) = shows in
      let (done, m, l, o) =
        cycles_reach_target cfg ts req v retries new none_yet sensible (refl, safe) due' enough in
      (ap (λ (r : Request F). r.state) e ∙ done, mode ∙ m, limit ∙ l, fast ∙ o)
