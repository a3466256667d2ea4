-- ===== src/Coordinator/Schedule.antt =====
-- Translating, storing and reconciling tool calls, and handing operations to the manager
-- (harness/coordinator/loop.go). A Go map is iterated over the entries that it has at the start:
-- no round adds a key, and each deletes at most its own.
use heuristic.Prelude.{
  ℕ, ◌+◌, String, Bool, false, ◌||◌, not, Option, none, some, List, [], ◌∷◌, ◌++◌, map,
  if◌then◌else◌, ◌==◌, nat_eq, string_eq, pair_eq, pos, length,
}
use heuristic.Prelude.Exec.{ok, err, pure, raise, get, modify, ◌>>=◌, ◌>>◌}
use heuristic.Prelude.Map
use heuristic.Llm.{ToolCall}
use heuristic.Operation.{Operation, Spec, CallStatus, Status, is_terminal}
use heuristic.SessionStore.{
  Item, ItemKind, ItemData, of_input, of_turn, of_model_response, of_tool_call_status,
  ToolCallStatus,
}
use heuristic.Coordinator.{
  World, ToolCallKey, ToolCallState, M, unsupported_kind, untranslated, panicked, stored,
  dispatched, perform, is_empty,
}
use heuristic.Coordinator.Local.{
  add_operations, add_item_to_local_state, tool_call_operations_are_terminal,
}

-- An item as the loop makes it: the store sets its sequence and time.
abbrev pub new_item : ItemKind → ItemData → Item
new_item kind content = record { sequence = 0; recorded_at = 0; kind = kind; content = content }

unfoldable pub store_data : World → Item → ItemKind → ItemData → M (Unit {0})
store_data w item ItemKind.input (of_input v) = perform w (stored item)
store_data w item ItemKind.turn (of_turn v) = perform w (stored item)
store_data w item ItemKind.model_response (of_model_response v) = perform w (stored item)
store_data w item ItemKind.tool_call_status (of_tool_call_status v) = perform w (stored item)
store_data w item ItemKind.fork d = raise (unsupported_kind ItemKind.fork)
store_data w item (ItemKind.other k) d = raise (unsupported_kind (ItemKind.other k))
store_data w item k d = raise panicked

-- `storeItemInSessionStore`
unfoldable pub store_item : World → Item → M (Unit {0})
unfolding store_data
store_item w item = store_data w item item.kind item.content

-- Every live item is added to the local state and then stored.
unfoldable pub record_item : World → Item → M (Unit {0})
unfolding store_item
record_item w item = do add_item_to_local_state w item; store_item w item

-- `toolCallContext.Submit`: the operation of a spec under a new ID.
abbrev pub submitted_operation : String → Spec → Operation
submitted_operation id spec = record {
  max_output_length = spec.max_output_length;
  id = id;
  type = spec.type;
  version = spec.version;
  status = Status.ready;
  state = spec.state;
  idempotency = spec.idempotency;
}

unfoldable pub submitted_operations : World → ℕ → List Spec → List Operation
submitted_operations w n [] = []
submitted_operations w n (spec ∷ rest) =
    submitted_operation (w.uuid n) spec ∷ submitted_operations w (n + 1) rest

-- `ErrorStatus` of a call whose tool is not available.
abbrev pub unavailable : World → ToolCall → CallStatus
unavailable w call = record {
  error = (w.unavailable_error call.name).0;
  error_truncated = (w.unavailable_error call.name).1;
  waiting_for = [];
}

-- What `Translate` submits and answers.
unfoldable pub translate_call : World → ℕ → ToolCall → List Operation × CallStatus
unfolding submitted_operations
translate_call w n call = elim (w.resolve call.name) [
  | none ↦ ([], unavailable w call)
  | some t ↦ (
    submitted_operations w n (t.translate (λ k. w.uuid (n + k)) call).0,
    (t.translate (λ k. w.uuid (n + k)) call).1,
  )
]

-- The status item that records a translated call.
abbrev pub call_status : ToolCallKey → List Operation × CallStatus → ToolCallStatus
call_status key translated = record {
  turn_id = key.0;
  call_id = key.1;
  status = translated.1;
  operations = translated.0;
}

-- `scheduleToolCall`
unfoldable pub schedule_tool_call : World → ToolCallKey → ToolCall → M ToolCallStatus
unfolding record_item translate_call
schedule_tool_call w key call = do
  c ← get
  let translated = translate_call w c.uuids call
  let status = call_status key translated
  modify (λ c. add_operations translated.0 (record c { uuids = c.uuids + length translated.0 }))
  record_item w (new_item ItemKind.tool_call_status (of_tool_call_status status))
  pure status

-- The loop of `scheduleToolCalls` over the calls at its start.
unfoldable pub schedule_entries :
    World → List (ToolCallKey × ToolCallState) → M (List ToolCallStatus)
unfolding schedule_tool_call
schedule_entries w [] = pure []
schedule_entries w ((key, call) ∷ rest) = elim call.status [
  | some s ↦ schedule_entries w rest
  | none ↦ (do
    status ← schedule_tool_call w key call.tool_call
    statuses ← schedule_entries w rest
    pure (status ∷ statuses))
]

-- `scheduleToolCalls`
unfoldable pub schedule_tool_calls : World → M (List ToolCallStatus)
unfolding schedule_entries
schedule_tool_calls w c = schedule_entries w c.tool_calls c

-- A missing entry of Go's map reads as the zero value.
abbrev zero_operation : Operation
zero_operation = record {
  max_output_length = pos 0;
  id = "";
  type = "";
  version = 0;
  status = Status.other "";
  state = none;
  idempotency = none;
}

or_zero : Option Operation → Operation
or_zero none = zero_operation
or_zero (some v) = v

unfoldable pub waited_operations : List (String × Operation) → List String → List Operation
unfolding or_zero
waited_operations ops = map (λ id. or_zero (Map.lookup id ops))

unfoldable pub reconcile_call : World → ToolCallKey → Option ToolCallState → M (List ToolCallStatus)
unfolding record_item waited_operations
reconcile_call w key none c = (err (untranslated key.1), c)
reconcile_call w key (some call) c = elim call.status [
  | none ↦ (err (untranslated key.1), c)
  | some s ↦
      let status = call_status key (waited_operations c.operations s.waiting_for, s) in
      (do
        record_item w (new_item ItemKind.tool_call_status (of_tool_call_status status))
        after ← get
        pure (elim (Map.lookup key after.tool_calls) [ none ↦ status ∷ [] | some x ↦ [] ]))
        c
]

unfoldable pub reconcile_key : World → ToolCallKey → M (List ToolCallStatus)
unfolding reconcile_call
reconcile_key w key c =
    if not (tool_call_operations_are_terminal key c)
    then (ok [], c)
    else reconcile_call w key (Map.lookup key c.tool_calls) c

unfoldable pub reconcile_keys : World → List ToolCallKey → M (List ToolCallStatus)
unfolding reconcile_key
reconcile_keys w [] = pure []
reconcile_keys w (key ∷ rest) = do
  done ← reconcile_key w key
  others ← reconcile_keys w rest
  pure (done ++ others)

-- `reconcileToolCalls`
unfoldable pub reconcile_tool_calls : World → M (List ToolCallStatus)
unfolding reconcile_keys
reconcile_tool_calls w c = reconcile_keys w (map (λ e. e.0) c.tool_calls) c

-- `toolCallStatusesRequireModelResponse`
unfoldable pub require_model_response : List ToolCallStatus → Bool
require_model_response [] = false
require_model_response (v ∷ rest) =
    (not (v.status.error == "") || is_empty v.status.waiting_for) || require_model_response rest

-- `dispatchOperationToManager`
unfoldable pub dispatch_operation : World → Operation → M (Unit {0})
dispatch_operation w v = if is_terminal v.status then pure tt else perform w (dispatched v)

unfoldable pub dispatch_each : World → List Operation → M (Unit {0})
unfolding dispatch_operation
dispatch_each w [] = pure tt
dispatch_each w (v ∷ vs) = do dispatch_operation w v; dispatch_each w vs

-- `dispatchOperationsToManager`
unfoldable pub dispatch_operations : World → M (Unit {0})
unfolding dispatch_each
dispatch_operations w c = dispatch_each w (map (λ e. e.1) c.operations) c
