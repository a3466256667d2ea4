-- ===== src/ContextBuilder.antt =====
-- harness/contextbuilder/builder.go: the model request, built in memory. Items are staged until a
-- turn commits them. `none` is a run-time panic: a failed type assertion or index.
use heuristic.Prelude.{
  String, Bool, true, false, ◌&&◌, Option, none, some, List, [], ◌∷◌, ◌++◌, if◌then◌else◌, ◌==◌,
  nat_eq, string_eq, pair_eq,
}
use mathlib.Core.Option
use Prim.Native.String.{◌++◌ as ◌++ₛ◌}
use heuristic.Json.{Json, ControlMode, update_settings, heartbeat}
use heuristic.Llm.{
  bytes, Role, user, ItemType, Content, of_message, of_tool_result, of_reasoning, Item,
  ToolResultKind, text, ToolResultOutput, Reasoning, Tool, Model, Request, Response,
}
use heuristic.Inbox.{Input, InputKind, external, ControlMessage}

-- `ToolCallRunningPayload`
abbrev pub running_payload : String
running_payload =
    "Tool call is still running. Its result arrives in a later turn: continue with independent work, or end your turn to wait for it."

pub record Builder : Type 0 where
  pub request : Request
  pub preamble : String
  pub system_prompt : String
  pub committed_prefix : List Item
  pub staged_suffix : List Item

pub data BuilderError : Type 0 where
  not_external : InputKind → BuilderError
  malformed_text : BuilderError

abbrev pub message_item : Role → String → Item
message_item role body = record {
  provider_id = "";
  type = ItemType.message;
  content = of_message (record { role = role; text = body; phase = "" });
}

abbrev pub tool_result_item : String → List ToolResultOutput → Item
tool_result_item call_id output = record {
  provider_id = "";
  type = ItemType.tool_result;
  content = of_tool_result (record { call_id = call_id; output = output });
}

abbrev pub stage : Item → Builder → Builder
stage item b = record b { staged_suffix = b.staged_suffix ++ item ∷ [] }

add_decoded : Option String → Builder → Option BuilderError × Builder
add_decoded none b = (some malformed_text, b)
add_decoded (some body) b = (none, stage (message_item user body) b)

add_external : Json → Input → InputKind → Builder → Option BuilderError × Builder
unfolding add_decoded
add_external j input external b = add_decoded (j.unmarshal_text (bytes input.payload)) b
add_external j input k b = (some (not_external k), b)

-- `AddExternalInput`: its error, and the builder as it leaves it.
unfoldable pub add_external_input : Json → Input → Builder → Option BuilderError × Builder
unfolding add_external
add_external_input j input b = add_external j input input.kind b

add_control : ControlMessage → ControlMode → Builder → Option Builder
add_control m update_settings b = elim m.parameters [
  | none ↦ none
  | some settings ↦ some (record b {
    request = record b.request {
      model = record b.request.model { reasoning_effort = settings.reasoning_effort };
    };
  })
]
add_control m heartbeat b = some (stage (message_item user m.reason) b)
add_control m mode b = some b

-- `AddControlMessage`
unfoldable pub add_control_message : ControlMessage → Builder → Option Builder
unfolding add_control
add_control_message m b = add_control m m.mode b

-- `SetModel`
abbrev pub set_model : Model → Builder → Builder
set_model model b = record b { request = record b.request { model = model } }

replace_first : Item → List Item → Option (List Item)
replace_first item [] = none
replace_first item (x ∷ xs) = some (item ∷ xs)

-- `SetSystemPrompt`; `trim` is `strings.TrimSpace`.
unfoldable pub set_system_prompt : (String → String) → String → Builder → Option Builder
unfolding replace_first
set_system_prompt trim prompt b =
    Option.map
      (λ (prefix : List Item). record b { system_prompt = prompt; committed_prefix = prefix })
      (replace_first (message_item Role.system (trim (b.preamble ++ₛ "\n\n" ++ₛ prompt)))
        b.committed_prefix)

-- `AddModelResponse`
abbrev pub add_model_response : Response → Builder → Builder
add_model_response r b = record b { committed_prefix = b.committed_prefix ++ r.output }

-- `AddReasoning`
abbrev pub add_reasoning : Reasoning → Builder → Builder
add_reasoning r =
    stage (record { provider_id = ""; type = ItemType.reasoning; content = of_reasoning r })

-- `AddTool`
abbrev pub add_tool : Tool → Builder → Builder
add_tool t b = record b { request = record b.request { tools = b.request.tools ++ t ∷ [] } }

abbrev pub running_output : List ToolResultOutput
running_output = record { kind = text; value = running_payload } ∷ []

is_text : ToolResultKind → Bool
is_text text = true
is_text _ = false

-- `slices.Equal(result.Output, runningOutput)`
unfoldable pub is_running : List ToolResultOutput → Bool
unfolding is_text
is_running (o ∷ []) = is_text o.kind && o.value == running_payload
is_running _ = false

-- The test of `slices.DeleteFunc`: is it the running result of the call?
is_placeholder : String → ItemType → Content → Option Bool
unfolding is_running
is_placeholder call_id ItemType.tool_result (of_tool_result r) =
    some (r.call_id == call_id && is_running r.output)
is_placeholder call_id ItemType.tool_result c = none
is_placeholder call_id t c = some false

unfoldable pub delete_placeholders : String → List Item → Option (List Item)
unfolding is_placeholder
delete_placeholders call_id [] = some []
delete_placeholders call_id (i ∷ is) =
    let rest = delete_placeholders call_id is in
    elim (is_placeholder call_id i.type i.content) [
      | none ↦ none
      | some true ↦ rest
      | some false ↦ Option.map (λ (l : List Item). i ∷ l) rest
    ]

-- `AddToolResult`
unfoldable pub add_tool_result : String → List ToolResultOutput → Bool → Builder → Option Builder
unfolding delete_placeholders
add_tool_result call_id payload running b =
    let shown = if running then running_output else payload in
    Option.map
      (λ (l : List Item). record b { staged_suffix = l ++ tool_result_item call_id shown ∷ [] })
      (delete_placeholders call_id b.staged_suffix)

-- `Commit`
abbrev pub commit : Builder → Builder
commit b = record b { committed_prefix = b.committed_prefix ++ b.staged_suffix; staged_suffix = [] }

-- `Build`; it never fails.
abbrev pub build : Builder → Request
build b = record b.request { input = b.committed_prefix ++ b.staged_suffix }
