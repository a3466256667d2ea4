-- ===== src/Json.antt =====
-- The JSON library, encoding/json, as far as the program calls it: a parameter, since its code is
-- not the program's. Each decoder takes the bytes, and gives `none` where `json.Unmarshal` fails.
use heuristic.Prelude.{String, Bool, Option}
use heuristic.Llm.{JsonValue, ReasoningEffort}

-- `ControlMode` of harness/inbox/inbox.go.
pub data ControlMode : Type 0 where
  stop_hard stop_when_idle heartbeat update_settings : ControlMode
  other : String → ControlMode

-- The anonymous `envelope` of `DecodeControlMessage`.
pub record Envelope : Type 0 where
  pub mode : ControlMode
  pub reason : String
  pub parameters : JsonValue

pub record Settings : Type 0 where
  pub reasoning_effort : ReasoningEffort

pub record Json : Type 0 where
  -- `jsontext.Value.IsValid`
  pub is_valid : String → Bool
  pub unmarshal_envelope : String → Option Envelope
  pub unmarshal_settings : String → Option Settings
  pub unmarshal_text : String → Option String
