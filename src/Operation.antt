-- ===== src/Operation.antt =====
-- The durable operation values of harness/operation/operation.go and the call status of
-- harness/tool/tool.go.
pub mod Output
pub mod Step
pub mod SkillUse
pub mod RemoteJob
pub mod Machine
pub mod Value
pub mod Shell
pub mod ViewImage
pub mod Local
pub mod Examples
pub mod Manager
use heuristic.Prelude.{ℕ, ℤ, String, List, Bool, true, false}
use heuristic.Llm.{JsonValue}

pub data Status : Type 0 where
  ready awaiting canceling completed failed canceled : Status
  other : String → Status

pub record Spec : Type 0 where
  pub max_output_length : ℤ
  pub type : String
  pub version : ℕ
  pub state : JsonValue
  pub idempotency : JsonValue

pub record Operation : Type 0 where
  pub max_output_length : ℤ
  pub id : String
  pub type : String
  pub version : ℕ
  pub status : Status
  pub state : JsonValue
  pub idempotency : JsonValue

-- `operationIsTerminal` of the coordinator, `terminalOperationStatus` of the store and
-- `localOperationFinished` of the manager are this one switch.
unfoldable pub is_terminal : Status → Bool
is_terminal completed = true
is_terminal failed = true
is_terminal canceled = true
is_terminal _ = false

pub record CallStatus : Type 0 where
  pub error : String
  pub error_truncated : Bool
  pub waiting_for : List String
