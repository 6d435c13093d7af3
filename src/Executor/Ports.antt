-- ===== src/Executor/Ports.antt =====
-- core/executor.py: the executor as the port of the mode change manager.
use carma_box_v.Base.{Bool, false, String, contains, if◌then◌else◌}
use carma_box_v.Base.Int.{ℤ}
use carma_box_v.Models.{mode_value, battery_standby}
use carma_box_v.ModeChange.Types.{Port}
use carma_box_v.Executor.Types.{Outcome, returned, raised, Adapters}

-- The result of a call that returns. A port whose adapter raises is not modelled.
abbrev answer : {A : Type 0} → A → Outcome A → A
answer a (returned b) = b
answer a raised = a

module _ {F D : Type 0} (io : Adapters F D) where
  -- An inverter that is not registered takes no write.
  abbrev write_known : String → (D → D × Outcome Bool) → D → D × Outcome Bool
  write_known id write d = if contains id io.inverters then write d else (d, returned false)

  unfoldable pub port_set_ems_mode : String → String → D → D × Outcome Bool
  port_set_ems_mode id mode = write_known id (io.set_ems_mode id mode)

  unfoldable pub port_set_ems_power_limit : String → ℤ → D → D × Outcome Bool
  port_set_ems_power_limit id watts = write_known id (io.set_ems_power_limit id watts)

  unfoldable pub port_set_fast_charging : String → Bool → D → D × Outcome Bool
  port_set_fast_charging id on = write_known id (io.set_fast_charging id on)

  unfoldable pub port_get_ems_mode : String → D → Outcome String
  port_get_ems_mode id d =
      if contains id io.inverters
      then io.get_ems_mode id d
      else returned (mode_value battery_standby)

  unfoldable pub port_get_fast_charging : String → D → Outcome Bool
  port_get_fast_charging id d =
      if contains id io.inverters then io.get_fast_charging id d else returned false

  -- The port on adapters that do not raise.
  abbrev pub port : Port D
  port = record {
    set_ems_mode = λ id mode d. (port_set_ems_mode id mode d).0;
    set_ems_power_limit = λ id watts d. (port_set_ems_power_limit id watts d).0;
    set_fast_charging = λ id on d. (port_set_fast_charging id on d).0;
    get_ems_mode = λ id d. answer "" (port_get_ems_mode id d);
    get_fast_charging = λ id d. answer false (port_get_fast_charging id d);
  }
