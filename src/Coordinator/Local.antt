-- ===== src/Coordinator/Local.antt =====
-- `addItemToLocalState` of harness/coordinator/loop.go and what it calls: the state that the
-- coordinator derives from the items of its session, live and when it restores them.
use heuristic.Prelude.{
  ◌+◌, String, Bool, true, false, ◌&&◌, ◌||◌, not, Option, none, some, List, [], ◌∷◌, ◌++◌,
  if◌then◌else◌, ◌==◌, nat_eq, string_eq, pair_eq, contains, discard,
}
use heuristic.Prelude.Exec.{Result, ok, err, pure, modify, ◌>>◌}
use heuristic.Prelude.Map
use heuristic.Json.{ControlMode, heartbeat}
use heuristic.Llm.{
  ToolCall, ToolResult, ToolResultOutput, ToolResultKind, ItemType, Content, of_tool_call, Response,
}
use heuristic.Llm
use heuristic.Operation.{Operation, is_terminal}
use heuristic.Session.{Turn, TurnType, compaction}
use heuristic.Inbox.{
  Input, InputKind, external, control, InputError, ControlMessage, validate, decode_control_message,
}
use heuristic.SessionStore.{
  Item, ItemKind, ItemData, of_fork, of_input, of_turn, of_model_response, of_tool_call_status,
  ModelResponse, ToolCallStatus,
}
use heuristic.ContextBuilder.{
  Builder, BuilderError, add_external_input, add_control_message, add_model_response,
  add_tool_result, commit,
}
use heuristic.Coordinator.{
  World, Translator, Coordinator, ToolCallKey, ToolCallState, M, wrong_data, unsupported_kind,
  invalid_input, context_refused, result_refused, panicked, clear_tool_grace, is_empty,
}

-- The builder after a call that may panic.
abbrev pub with_builder : Option Builder → M (Unit {0})
with_builder none c = (err panicked, c)
with_builder (some b) c = (ok tt, record c { context_builder = b })

abbrev pub available : Coordinator → Coordinator
available c = record c { available_inputs = c.available_inputs + 1 }

-- `addOperationToLocalState`
abbrev pub add_operation : Operation → Coordinator → Coordinator
add_operation v c = record c { operations = Map.insert v.id v c.operations }

unfoldable pub add_operations : List Operation → Coordinator → Coordinator
add_operations [] c = c
add_operations (v ∷ vs) c = add_operations vs (add_operation v c)

unfoldable pub add_tool_call : String → ItemType → Content → M (Unit {0})
add_tool_call turn_id ItemType.tool_call (of_tool_call call) c = (
  ok tt,
  record c {
    tool_calls =
        Map.insert (turn_id, call.call_id)
          (record { tool_call = call; status = none; operations = [] }) c.tool_calls;
  },
)
add_tool_call turn_id ItemType.tool_call d c = (err panicked, c)
add_tool_call turn_id t d c = (ok tt, c)

-- `addToolCallsToLocalState`
unfoldable pub add_tool_calls : String → List Llm.Item → M (Unit {0})
unfolding add_tool_call
add_tool_calls turn_id [] = pure tt
add_tool_calls turn_id (i ∷ is) = do
  add_tool_call turn_id i.type i.content
  add_tool_calls turn_id is

-- Go's `call.operations[id] = struct{}{}` for each ID.
unfoldable pub insert_all : List String → List String → List String
insert_all [] s = s
insert_all (id ∷ rest) s = insert_all rest (if contains s id then s else s ++ id ∷ [])

unfoldable pub with_call_status : ToolCallStatus → Option ToolCallState → Coordinator → Coordinator
unfolding insert_all
with_call_status v none c = c
with_call_status v (some call) c = record c {
  tool_calls =
      Map.insert (v.turn_id, v.call_id)
        (record call {
          status = some v.status;
          operations = insert_all v.status.waiting_for call.operations;
        })
        c.tool_calls;
}

-- `addToolCallOperationsToLocalState`
unfoldable pub add_tool_call_operations : ToolCallStatus → Coordinator → Coordinator
unfolding with_call_status
add_tool_call_operations v c = with_call_status v (Map.lookup (v.turn_id, v.call_id) c.tool_calls) c

-- Deleting from the set of calls in grace.
abbrev pub leave_grace : ToolCallKey → Coordinator → Coordinator
leave_grace key c =
    let left = discard c.grace_tool_calls key in
    record c { grace_tool_calls = left; grace = if is_empty left then false else c.grace }

-- `finishToolCall`
unfoldable pub finish_tool_call : ToolCallKey → Coordinator → Coordinator
finish_tool_call key c =
    available (leave_grace key (record c { tool_calls = Map.erase key c.tool_calls }))

terminal_at : Option Operation → Bool
terminal_at none = false
terminal_at (some v) = is_terminal v.status

unfoldable pub all_terminal : List (String × Operation) → List String → Bool
unfolding terminal_at
all_terminal ops [] = true
all_terminal ops (id ∷ ids) = terminal_at (Map.lookup id ops) && all_terminal ops ids

-- A missing call is the zero value, which waits for nothing.
call_operations : Option ToolCallState → List String
call_operations none = []
call_operations (some call) = call.operations

-- `toolCallOperationsAreTerminal`
unfoldable pub tool_call_operations_are_terminal : ToolCallKey → Coordinator → Bool
unfolding call_operations all_terminal
tool_call_operations_are_terminal key c =
    all_terminal c.operations (call_operations (Map.lookup key c.tool_calls))

-- The operations that a result is made of; `none` where the loop returns early.
unfoldable pub collect_operations :
    List String → List (String × Operation) → List String → Option (List Operation)
collect_operations known ops [] = some []
collect_operations known ops (id ∷ ids) =
    let rest = collect_operations known ops ids in
    if not (contains known id) then none else elim (Map.lookup id ops) [
      | none ↦ none
      | some v ↦ elim rest [ none ↦ none | some vs ↦ some (v ∷ vs) ]
    ]

-- `toolCallRequiresTranslator`
unfoldable pub requires_translator : ToolCallStatus → Bool
requires_translator v =
    v.status.error == "" || not (is_empty v.status.waiting_for) || not (is_empty v.operations)

error_output : String → List ToolResultOutput
error_output message = record { kind = ToolResultKind.text; value = message } ∷ []

-- The result of a call whose tool is not available.
unfoldable pub unavailable_result : ToolCallStatus → M (Unit {0})
unfolding error_output
unavailable_result v c =
    if requires_translator v
    then (ok tt, c)
    else (do
      with_builder (add_tool_result v.call_id (error_output v.status.error) false c.context_builder)
      modify (finish_tool_call (v.turn_id, v.call_id)))
        c

unfoldable pub show_result : ToolCallStatus → Option ToolResult → M (Unit {0})
show_result v none c = (err (result_refused v.call_id), c)
show_result v (some result) c =
    let running = not (tool_call_operations_are_terminal (v.turn_id, v.call_id) c) in
    (do
      with_builder (add_tool_result v.call_id result.output running c.context_builder)
      if running then pure tt else modify (finish_tool_call (v.turn_id, v.call_id)))
      c

unfoldable pub translated_result :
    ToolCallStatus → Translator → Option (List Operation) → M (Unit {0})
unfolding show_result
translated_result v t none c = (ok tt, c)
translated_result v t (some ops) c = show_result v (t.translate_result v.call_id v.status ops) c

unfoldable pub call_result : World → ToolCallStatus → Option ToolCallState → M (Unit {0})
unfolding unavailable_result translated_result
call_result w v none c = (ok tt, c)
call_result w v (some call) c = elim (w.resolve call.tool_call.name) [
  | none ↦ unavailable_result v c
  | some t ↦
      translated_result v t (collect_operations call.operations c.operations v.status.waiting_for) c
]

-- `addToolResultToLocalState`
unfoldable pub add_tool_result_to_local_state : World → ToolCallStatus → M (Unit {0})
unfolding call_result
add_tool_result_to_local_state w v c =
    call_result w v (Map.lookup (v.turn_id, v.call_id) c.tool_calls) c

pub is_heartbeat : ControlMode → Bool
is_heartbeat heartbeat = true
is_heartbeat _ = false

unfoldable pub add_decoded_control : Result InputError ControlMessage → M (Unit {0})
unfolding is_heartbeat
add_decoded_control (err e) c = (err (invalid_input e), c)
add_decoded_control (ok m) c =
    (do
      with_builder (add_control_message m c.context_builder)
      modify (λ c. if is_heartbeat m.mode then available c else c))
      c

unfoldable pub add_external_result : Option BuilderError × Builder → M (Unit {0})
add_external_result (some e, b) c = (err (context_refused e), record c { context_builder = b })
add_external_result (none, b) c = (ok tt, available (record c { context_builder = b }))

unfoldable pub add_valid_input : World → Input → InputKind → M (Unit {0})
unfolding add_decoded_control add_external_result
add_valid_input w input external c =
    add_external_result (add_external_input w.json input c.context_builder) c
add_valid_input w input control c = add_decoded_control (decode_control_message w.json input) c
add_valid_input w input k c = (ok tt, c)

-- The case of an input.
unfoldable pub add_input : World → Input → M (Unit {0})
unfolding add_valid_input
add_input w input c = elim (validate w.json input) [
  | some e ↦ (err (invalid_input e), c)
  | none ↦ add_valid_input w input input.kind c
]

-- The case of a turn.
unfoldable pub add_turn : Turn → Coordinator → Coordinator
add_turn turn c = record c {
  current_turn_id = turn.id;
  current_turn_type = turn.type;
  current_turn_inputs = c.available_inputs;
  context_builder = commit c.context_builder;
}

is_compaction : TurnType → Bool
is_compaction compaction = true
is_compaction _ = false

-- Is the response that of the current, compacting turn?
unfoldable pub is_compaction_response : ModelResponse → Coordinator → Bool
unfolding is_compaction
is_compaction_response r c = is_compaction c.current_turn_type && r.turn_id == c.current_turn_id

-- The case of a model response.
unfoldable pub add_response : ModelResponse → M (Unit {0})
unfolding is_compaction_response
add_response r c =
    if is_compaction_response r c
    then (ok tt, c)
    else add_tool_calls r.turn_id r.response.output (record c {
      context_builder = add_model_response r.response c.context_builder;
      delivered_inputs =
          if r.turn_id == c.current_turn_id then c.current_turn_inputs else c.delivered_inputs;
    })

-- The case of a tool-call status.
unfoldable pub add_status : World → ToolCallStatus → M (Unit {0})
add_status w v c =
    add_tool_result_to_local_state w v (add_tool_call_operations v (add_operations v.operations c))

unfoldable pub add_data : World → ItemKind → ItemData → M (Unit {0})
unfolding add_input add_turn add_response add_status
add_data w ItemKind.fork (of_fork v) c =
    (ok tt, clear_tool_grace (record c { tool_calls = []; operations = [] }))
add_data w ItemKind.input (of_input v) c = add_input w v c
add_data w ItemKind.turn (of_turn v) c = (ok tt, add_turn v c)
add_data w ItemKind.model_response (of_model_response v) c = add_response v c
add_data w ItemKind.tool_call_status (of_tool_call_status v) c = add_status w v c
add_data w (ItemKind.other k) d c = (err (unsupported_kind (ItemKind.other k)), c)
add_data w k d c = (err (wrong_data k), c)

-- `addItemToLocalState`; the item that it returns is the one that it was given.
unfoldable pub add_item_to_local_state : World → Item → M (Unit {0})
unfolding add_data
add_item_to_local_state w item = add_data w item.kind item.content
