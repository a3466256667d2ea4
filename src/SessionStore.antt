-- ===== src/SessionStore.antt =====
-- harness/sessionstore/sessionstore.go: the items of a session's history.
pub mod Head
pub mod State
pub mod Replay
pub mod Codec
pub mod Files
pub mod Refusal
pub mod Positions
pub mod Consistent
pub mod Invariant
pub mod Resume
pub mod Log
pub mod Inherit
pub mod Examples
use heuristic.Prelude.{ℕ, String, List, Option, Bool, true, false}
use heuristic.Llm.{Response}
use heuristic.Operation.{Operation, CallStatus}
use heuristic.Session.{Session, Turn}
use heuristic.Inbox.{Input}

pub data ItemKind : Type 0 where
  fork input turn model_response tool_call_status : ItemKind
  other : String → ItemKind

pub record Fork : Type 0 where
  pub parent_id : String
  pub previous_turn_id : String

pub record ModelResponse : Type 0 where
  pub turn_id : String
  pub response : Response

pub record ToolCallStatus : Type 0 where
  pub turn_id : String
  pub call_id : String
  pub status : CallStatus
  pub operations : List Operation

-- `Item.Data` is `any`; these are the types that the program stores there.
pub data ItemData : Type 0 where
  of_fork : Fork → ItemData
  of_input : Input → ItemData
  of_turn : Turn → ItemData
  of_model_response : ModelResponse → ItemData
  of_tool_call_status : ToolCallStatus → ItemData

pub record Item : Type 0 where
  pub sequence : ℕ
  pub recorded_at : ℕ
  pub kind : ItemKind
  pub content : ItemData

pub record Snapshot : Type 0 where
  pub session : Session

pub record ResumeState : Type 0 where
  pub snapshot : Snapshot
  pub operations : List Operation
  pub external_input_ids : List String

-- "Item Data is Fork, inbox.Input, session.Turn, ModelResponse, or ToolCallStatus according to Kind."
abbrev pub Fits : ItemKind → ItemData → Type 0
Fits ItemKind.fork (of_fork v) = Unit
Fits ItemKind.input (of_input v) = Unit
Fits ItemKind.turn (of_turn v) = Unit
Fits ItemKind.model_response (of_model_response v) = Unit
Fits ItemKind.tool_call_status (of_tool_call_status v) = Unit
Fits k v = ⊥

abbrev pub IsTyped : Item → Type 0
IsTyped i = Fits i.kind i.content
