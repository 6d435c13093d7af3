-- ===== src/Executor/Handlers.antt =====
-- core/executor.py: one handler for each type of command, and the dispatch.
use Prim.Native.String.{slice}
use package.text.Mathlib.Text.{find?}
use carma_box_v.Base.{
  Bool, true, false, not, ◌&&◌, Option, none, some, String, contains, str_eq, if◌then◌else◌,
}
use carma_box_v.Base.Int.{ℤ, pos, eqb_ℤ}
use carma_box_v.Base.Floats.{Float, is_zero}
use carma_box_v.Models.{
  CommandType, set_ems_mode, set_ems_power_limit, set_fast_charging, set_ev_current,
  start_ev_charging, stop_ev_charging, turn_on_consumer, turn_off_consumer, climate_set_temp,
  climate_set_mode, set_export_limit, no_op, Value, int, float, text, flag, nothing, mode_value,
  discharge_pv, charge_pv,
}
use carma_box_v.ModeChange.Manager.{request_change, assign}
use carma_box_v.Executor.Types.{
  Outcome, returned, raised, Command, Adapters, Conversions, ExecReads,
}
use carma_box_v.Executor.Monad.{M, ret, ◌>>=◌, ◌>>◌, call, read, when, ignore, or_false}

module _ {F : Type 0} (conv : Conversions F) where
  -- `str(value)`
  unfoldable pub str_of : Value F → String
  str_of (int a) = conv.text_of_int a
  str_of (float x) = conv.text_of_float x
  str_of (text s) = s
  str_of (flag true) = "True"
  str_of (flag false) = "False"
  str_of nothing = "None"

module _ {F : Type 0} ⦃f : Float F⦄ (conv : Conversions F) where
  open f use {le, lit, trunc}

  -- `bool(value)`
  unfoldable pub is_truthy : Value F → Bool
  is_truthy (int a) = not (eqb_ℤ a (pos 0))
  is_truthy (float x) = not (is_zero x)
  is_truthy (text s) = not (str_eq s "")
  is_truthy (flag b) = b
  is_truthy nothing = false

  abbrev pub parsed : Option ℤ → Outcome ℤ
  parsed none = raised
  parsed (some a) = returned a

  -- `int(value)`
  unfoldable pub to_int : Value F → Outcome ℤ
  to_int (int a) = returned a
  to_int (float x) = returned (trunc x)
  to_int (text s) = parsed (conv.int_of_text s)
  to_int (flag true) = returned (pos 1)
  to_int (flag false) = returned (pos 0)
  to_int nothing = raised

  -- `int(value or default)`
  unfoldable pub int_or : ℤ → Value F → Outcome ℤ
  int_or default v = if is_truthy v then to_int v else returned default

-- The domain of an entity: what stands before its first dot.
unfoldable pub domain_of : String → String
domain_of id = elim (find? id ".") [ none ↦ "climate" | some i ↦ slice id 0 i ]

module _ {F D : Type 0} ⦃f : Float F⦄ (conv : Conversions F) (io : Adapters F D) where
  abbrev pub has_inverter : String → Bool
  has_inverter id = contains id io.inverters

  abbrev pub stop_fast_charging : String → M F D (Unit {0})
  stop_fast_charging id = ignore (call (io.set_fast_charging id false))

  -- B7: fast charging that is on is turned off before discharge_pv.
  unfoldable pub clear_before_discharge : String → M F D (Unit {0})
  clear_before_discharge id =
      read (io.get_fast_charging id) >>= λ on. when on (stop_fast_charging id)

  unfoldable pub before_discharge : String → String → M F D (Unit {0})
  before_discharge id mode =
      when (str_eq mode (mode_value discharge_pv) && has_inverter id) (clear_before_discharge id)

  -- The limit is read to log an alert about it in charge_pv.
  unfoldable pub before_charge : String → String → M F D (Unit {0})
  before_charge id mode =
      when (str_eq mode (mode_value charge_pv) && has_inverter id)
        (ignore (read (io.get_ems_power_limit id)))

  unfoldable pub request_mode : ExecReads F → String → String → M F D Bool
  request_mode reads id mode w =
      let (manager, accepted) = request_change id mode (pos 0) false w.executor.mode_manager in
      let changed =
        if accepted
        then assign id reads.at_change w.executor.last_mode_change
        else w.executor.last_mode_change in
      (
        record w {
          executor = record w.executor { mode_manager = manager; last_mode_change = changed };
        },
        returned accepted,
      )

  unfoldable pub exec_set_ems_mode : ExecReads F → Command F → M F D Bool
  exec_set_ems_mode reads cmd = do
    let id = cmd.target_id
    let mode = str_of conv cmd.value
    before_discharge id mode
    before_charge id mode
    request_mode reads id mode

  -- The commands that need an inverter, the charger or a consumer: without it they fail.
  abbrev pub only_if : Bool → M F D Bool → M F D Bool
  only_if true m = m
  only_if false m = ret false

  abbrev pub lift : {A : Type 0} → Outcome A → M F D A
  lift r w = (w, r)

  unfoldable pub exec_set_ems_power_limit : Command F → M F D Bool
  exec_set_ems_power_limit cmd = only_if (has_inverter cmd.target_id) (do
    watts ← lift (int_or conv (pos 0) cmd.value)
    call (io.set_ems_power_limit cmd.target_id watts))

  unfoldable pub exec_set_fast_charging : Command F → M F D Bool
  exec_set_fast_charging cmd =
      only_if (has_inverter cmd.target_id)
        (call (io.set_fast_charging cmd.target_id (is_truthy conv cmd.value)))

  unfoldable pub exec_set_ev_current : Command F → M F D Bool
  exec_set_ev_current cmd =
      only_if io.has_charger
        (do amps ← lift (int_or conv (pos 6) cmd.value); call (io.set_current amps))

  unfoldable pub exec_consumer : (String → D → D × Outcome Bool) → Command F → M F D Bool
  exec_consumer turn cmd = only_if (contains cmd.target_id io.consumers) (call (turn cmd.target_id))

  unfoldable pub exec_set_export_limit : Command F → M F D Bool
  exec_set_export_limit cmd = only_if (has_inverter cmd.target_id) (do
    watts ← lift (int_or conv (pos 0) cmd.value)
    or_false (call (io.set_export_limit cmd.target_id watts)))

  unfoldable pub exec_climate_set_temp : Command F → M F D Bool
  exec_climate_set_temp cmd =
      only_if io.has_api
        (call (io.call_service (domain_of cmd.target_id) "set_temperature" cmd.target_id cmd.value))

  unfoldable pub exec_climate_set_mode : Command F → M F D Bool
  exec_climate_set_mode cmd = only_if io.has_api (
      call (
        io.call_service (domain_of cmd.target_id) "set_hvac_mode" cmd.target_id
          (text (str_of conv cmd.value))))

  -- `_handlers`
  unfoldable pub handle : CommandType → ExecReads F → Command F → M F D Bool
  handle set_ems_mode reads = exec_set_ems_mode reads
  handle set_ems_power_limit reads = exec_set_ems_power_limit
  handle set_fast_charging reads = exec_set_fast_charging
  handle set_ev_current reads = exec_set_ev_current
  handle start_ev_charging reads = λ cmd. only_if io.has_charger (call io.start_charging)
  handle stop_ev_charging reads = λ cmd. only_if io.has_charger (call io.stop_charging)
  handle turn_on_consumer reads = exec_consumer io.turn_on
  handle turn_off_consumer reads = exec_consumer io.turn_off
  handle climate_set_temp reads = exec_climate_set_temp
  handle climate_set_mode reads = exec_climate_set_mode
  handle set_export_limit reads = exec_set_export_limit
  handle no_op reads = λ cmd. ret true

  -- `_dispatch`
  unfoldable pub dispatch : ExecReads F → Command F → M F D Bool
  dispatch reads cmd = or_false (handle cmd.command_type reads cmd)
