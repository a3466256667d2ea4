-- ===== src/Llm.antt =====
-- The model-facing data of harness/llm/model.go: messages, tool calls, requests and responses.
-- A Go string type with named constants is a data type of those constants with `other` for the
-- rest; `any` is a sum of the types that the program stores in it. A tool's JSON schema is opaque.
use heuristic.Prelude.{Bool, true, false, Option, none, some, List, String, ℤ}

-- `jsontext.Value`: nil, or the bytes of the value.
abbrev pub JsonValue : Type 0
JsonValue = Option String

-- The bytes of a value; those of nil are the empty ones.
abbrev pub bytes : JsonValue → String
bytes none = ""
bytes (some s) = s

pub data Role : Type 0 where
  user assistant system : Role
  other : String → Role

pub data ItemType : Type 0 where
  message tool_call tool_result reasoning : ItemType
  other : String → ItemType

pub record Message : Type 0 where
  pub role : Role
  pub text : String
  pub phase : String

pub record ToolCall : Type 0 where
  pub call_id : String
  pub name : String
  pub arguments : String

pub data ToolResultKind : Type 0 where
  text image : ToolResultKind
  other : String → ToolResultKind

pub record ToolResultOutput : Type 0 where
  pub kind : ToolResultKind
  pub value : String

pub record ToolResult : Type 0 where
  pub call_id : String
  pub output : List ToolResultOutput

pub record Reasoning : Type 0 where
  pub summary : List String
  pub raw : JsonValue

pub data Content : Type 0 where
  of_message : Message → Content
  of_tool_call : ToolCall → Content
  of_tool_result : ToolResult → Content
  of_reasoning : Reasoning → Content

pub record Item : Type 0 where
  pub provider_id : String
  pub type : ItemType
  pub content : Content

pub record Tool : Type 0 where
  pub type : String
  pub name : String
  pub description : String
  pub parameters : String

pub data ReasoningEffort : Type 0 where
  low medium high x_high max : ReasoningEffort
  other : String → ReasoningEffort

-- `ReasoningEffort.Valid`
unfoldable pub is_valid_effort : ReasoningEffort → Bool
is_valid_effort (ReasoningEffort.other s) = false
is_valid_effort _ = true

pub record Model : Type 0 where
  pub id : String
  pub max_output_tokens : Option ℤ
  pub reasoning_effort : ReasoningEffort

pub record Request : Type 0 where
  pub model : Model
  pub input : List Item
  pub tools : List Tool

pub data StopReason : Type 0 where
  complete max_output_tokens refused : StopReason
  other : String → StopReason

pub record Usage : Type 0 where
  pub input_tokens : ℤ
  pub cached_input_tokens : ℤ
  pub cache_write_input_tokens : ℤ
  pub output_tokens : ℤ
  pub reasoning_tokens : ℤ
  pub raw : JsonValue

pub record Failure : Type 0 where
  pub code : String
  pub message : String

pub record Response : Type 0 where
  pub id : String
  pub stop : StopReason
  pub output : List Item
  pub usage : Usage
  pub failure : Option Failure
