-- ===== src/Executor/Types.antt =====
-- core/executor.py: commands, the audit trail, and the adapters as an interface.
use carma_box_v.Base.{ℕ, Bool, List, Option, String}
use carma_box_v.Base.Int.{ℤ}
use carma_box_v.Models.{CommandType, Value}
use carma_box_v.ModeChange.Manager.{Manager}

-- What a call of an adapter ends in: its result, or an exception.
pub data Outcome {ℓ} (A : Type ℓ) : Type ℓ where
  returned : A → Outcome A
  raised : Outcome A

-- core/models.py: `Command`, without its human-readable reason.
pub record Command (F : Type 0) : Type 0 where
  pub command_type : CommandType
  pub target_id : String
  pub value : Value F
  pub rule_id : String

-- The adapters on what they act on, a type `D`: those of the inverters, the EV charger, the loads and
-- Home Assistant's services. `inverters` and `consumers` are the keys of the executor's dicts. A read
-- changes nothing; any call may raise.
pub record Adapters (F D : Type 0) : Type 0 where
  pub inverters : List String
  pub has_charger : Bool
  pub consumers : List String
  pub has_api : Bool
  pub set_ems_mode : String → String → D → D × Outcome Bool
  pub set_ems_power_limit : String → ℤ → D → D × Outcome Bool
  pub set_fast_charging : String → Bool → D → D × Outcome Bool
  pub set_export_limit : String → ℤ → D → D × Outcome Bool
  pub get_ems_mode : String → D → Outcome String
  pub get_fast_charging : String → D → Outcome Bool
  pub get_ems_power_limit : String → D → Outcome ℤ
  pub set_current : ℤ → D → D × Outcome Bool
  pub start_charging : D → D × Outcome Bool
  pub stop_charging : D → D × Outcome Bool
  pub turn_on : String → D → D × Outcome Bool
  pub turn_off : String → D → D × Outcome Bool
  pub call_service : String → String → String → Value F → D → D × Outcome Bool

-- Python's `str(x)` of an int and a float, and `int(s)` of a text, where it is one.
pub record Conversions (F : Type 0) : Type 0 where
  pub text_of_int : ℤ → String
  pub text_of_float : F → String
  pub int_of_text : String → Option ℤ

pub record ExecutorConfig (F : Type 0) : Type 0 where
  pub mode_change_cooldown_s : F
  pub audit_maxlen : ℕ

-- `AuditEntry`, without the reason; the error of a refusal by the rate limit is a flag.
pub record AuditEntry (F : Type 0) : Type 0 where
  pub timestamp : F
  pub command_type : CommandType
  pub target_id : String
  pub value : Value F
  pub rule_id : String
  pub success : Bool
  pub was_rate_limited : Bool

-- The fields of `CommandExecutor` that change; `audit` is oldest first.
pub record Executor (F : Type 0) : Type 0 where
  pub mode_manager : Manager F
  pub last_mode_change : List (String × F)
  pub audit : List (AuditEntry F)

pub record ExecutionResult (F : Type 0) : Type 0 where
  pub commands_total : ℕ
  pub commands_succeeded : ℕ
  pub commands_failed : ℕ
  pub commands_rate_limited : ℕ
  pub audit_entries : List (AuditEntry F)

-- The readings of the clock that one command may make: for the rate limit, at an accepted mode
-- change, and for its audit entry.
pub record ExecReads (F : Type 0) : Type 0 where
  pub at_check : F
  pub at_change : F
  pub at_audit : F
