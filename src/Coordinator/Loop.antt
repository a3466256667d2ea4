-- ===== src/Coordinator/Loop.antt =====
-- `Run` of harness/coordinator/loop.go: one round of its select, with what it slurps from the two
-- channels after the event.
use heuristic.Prelude.{
  ◌+◌, String, Bool, true, false, ◌&&◌, ◌||◌, not, Option, none, some, List, [], ◌∷◌, ◌++◌, map,
  if◌then◌else◌, ◌==◌, nat_eq, string_eq, pair_eq,
}
use heuristic.Prelude.Exec.{Result, ok, err, pure, raise, get, modify, ◌>>=◌, ◌>>◌}
use heuristic.Json.{ControlMode, stop_hard, stop_when_idle, update_settings}
use heuristic.Llm.{Response}
use heuristic.Operation.{Operation, is_terminal}
use heuristic.Session.{Turn, regular}
use heuristic.Inbox.{
  Input, InputKind, external, control, InputError, ControlMessage, decode_control_message,
}
use heuristic.SessionStore.{
  ItemKind, of_input, of_turn, of_model_response, ModelResponse, ToolCallStatus,
}
use heuristic.ContextBuilder.{build}
use heuristic.Coordinator.{
  World, Coordinator, ToolCallKey, M, invalid_input, model_failed, heartbeat_malformed, saved,
  cancelled, requested, submitted, perform, is_empty, has_pending_inputs, no_pending_inputs,
  clear_tool_grace, interrupt_model,
}
use heuristic.Coordinator.Local.{add_operation, is_compaction_response}
use heuristic.Coordinator.Schedule.{
  new_item, record_item, schedule_tool_calls, reconcile_tool_calls, require_model_response,
  dispatch_each,
}

unfoldable pub is_stop_hard : ControlMode → Bool
is_stop_hard stop_hard = true
is_stop_hard _ = false

pub is_stop_when_idle : ControlMode → Bool
is_stop_when_idle stop_when_idle = true
is_stop_when_idle _ = false

-- `acceptStop`
unfoldable pub accept_stop : ControlMessage → Coordinator → Coordinator
unfolding is_stop_hard
accept_stop request c = if is_stop_hard c.stop.mode then c else record c { stop = request }

unfoldable pub any_pending : List (String × Operation) → Bool
any_pending [] = false
any_pending ((id, v) ∷ ops) = not (is_terminal v.status) || any_pending ops

-- `hasPendingOperations`
abbrev pub has_pending_operations : Coordinator → Bool
has_pending_operations c = any_pending c.operations

-- `isIdle`
unfoldable pub is_idle : Coordinator → Bool
is_idle c =
    not c.cancel_model
    && no_pending_inputs c
    && is_empty c.tool_calls
    && not (has_pending_operations c)

-- `isWaitingForOnlyToolCalls`
unfoldable pub is_waiting_for_only_tool_calls : Coordinator → Bool
unfolding is_stop_hard
is_waiting_for_only_tool_calls c =
    not c.cancel_model
    && not (is_stop_hard c.stop.mode)
    && no_pending_inputs c
    && not (is_empty c.tool_calls)

-- The loop of `cancelOperations`: an error is kept, and the others are cancelled all the same.
unfoldable pub cancel_each : World → String → List (String × Operation) → M (Unit {0})
cancel_each w reason [] c = (ok tt, c)
cancel_each w reason ((id, v) ∷ ops) c =
    if is_terminal v.status
    then cancel_each w reason ops c
    else elim (perform w (cancelled id reason) c).0 [
      | ok u ↦ cancel_each w reason ops (perform w (cancelled id reason) c).1
      | err e ↦ (err e, (cancel_each w reason ops (perform w (cancelled id reason) c).1).1)
    ]

-- `cancelOperations`
unfoldable pub cancel_operations : World → M (Unit {0})
unfolding cancel_each
cancel_operations w c = cancel_each w c.stop.reason c.operations c

-- `handleStop`
unfoldable pub handle_stop : World → M Bool
unfolding cancel_operations
handle_stop w = do
  c ← get
  if c.cancellation_requested then pure tt else (do
    modify interrupt_model
    cancel_operations w
    modify (λ c. record c { cancellation_requested = true }))
  c ← get
  pure (not (has_pending_operations c))

-- `requestModelResponse`
unfoldable pub request_model_response : World → M (Unit {0})
request_model_response w = do
  modify interrupt_model
  c ← get
  let request = build c.context_builder
  let turn : Turn = record {
    id = w.uuid c.uuids;
    previous_turn_id = c.current_turn_id;
    type = regular;
  }
  modify (λ c. record c { uuids = c.uuids + 1 })
  record_item w (new_item ItemKind.turn (of_turn turn))
  modify (λ c. record c { cancel_model = true; call_model = false })
  perform w (requested turn.id request)

-- The rest of `handleInboxInput` for a control message.
unfoldable pub accept_control : ControlMessage → ControlMode → Coordinator → Coordinator
unfolding accept_stop
accept_control m update_settings c = c
accept_control m stop_hard c = clear_tool_grace (accept_stop m c)
accept_control m stop_when_idle c = clear_tool_grace (accept_stop m c)
accept_control m mode c = clear_tool_grace c

unfoldable pub accept_decoded : Result InputError ControlMessage → M (Unit {0})
unfolding accept_control
accept_decoded (err e) = raise (invalid_input e)
accept_decoded (ok m) = modify (accept_control m m.mode)

unfoldable pub after_input : World → Input → InputKind → M (Unit {0})
unfolding accept_decoded
after_input w input control = accept_decoded (decode_control_message w.json input)
after_input w input k = modify clear_tool_grace

-- `handleInboxInput`
unfoldable pub handle_inbox_input : World → Input → M (Unit {0})
unfolding after_input
handle_inbox_input w input = do
  record_item w (new_item ItemKind.input (of_input input))
  after_input w input input.kind

pub is_external : InputKind → Bool
is_external external = true
is_external _ = false

-- `handleInboxInputs`, which `processInputs` calls.
unfoldable pub handle_inbox_inputs : World → List Input → M (Unit {0})
unfolding handle_inbox_input is_external
handle_inbox_inputs w [] = pure tt
handle_inbox_inputs w (input ∷ rest) = do
  handle_inbox_input w input
  modify (λ c. if is_external input.kind then record c { call_model = true } else c)
  handle_inbox_inputs w rest

-- `handleOperationUpdate`
unfoldable pub handle_operation_update : World → Operation → M (Unit {0})
handle_operation_update w v = do modify (add_operation v); perform w (saved v)

-- `processOperations`
unfoldable pub process_operations : World → List Operation → M (Unit {0})
unfolding handle_operation_update
process_operations w [] = pure tt
process_operations w (v ∷ vs) = do handle_operation_update w v; process_operations w vs

-- `handleModelResponse`
unfoldable pub handle_model_response : World → ModelResponse → M (List ToolCallStatus)
handle_model_response w r = do
  record_item w (new_item ItemKind.model_response (of_model_response r))
  c ← get
  if is_compaction_response r c then pure [] else (do
    statuses ← schedule_tool_calls w
    modify (λ c. record c { call_model = require_model_response statuses })
    pure statuses)

abbrev pub status_keys : List ToolCallStatus → List ToolCallKey
status_keys = map λ v. (v.turn_id, v.call_id)

unfoldable pub dispatch_statuses : World → List ToolCallStatus → M (Unit {0})
dispatch_statuses w [] = pure tt
dispatch_statuses w (v ∷ vs) = do dispatch_each w v.operations; dispatch_statuses w vs

-- The grace period of `processModelResponse`, unless the model is to be called at once.
unfoldable pub start_grace : List ToolCallStatus → Coordinator → Coordinator
start_grace statuses c =
    if not c.call_model && not (is_empty statuses)
    then record c { grace_tool_calls = c.grace_tool_calls ++ status_keys statuses; grace = true }
    else c

-- `processModelResponse`; `none` is a response whose `err` is set.
unfoldable pub process_model_response : World → String → Option Response → M (Unit {0})
unfolding dispatch_statuses start_grace
process_model_response w turn_id none = do modify interrupt_model; raise (model_failed turn_id)
process_model_response w turn_id (some response) = do
  modify interrupt_model
  statuses ← handle_model_response w (record { turn_id = turn_id; response = response })
  dispatch_statuses w statuses
  modify (start_grace statuses)

unfoldable pub submit_heartbeat : World → Option String → M (Unit {0})
submit_heartbeat w none c = (err heartbeat_malformed, c)
submit_heartbeat w (some payload) c =
    perform w (submitted (record { id = w.uuid c.uuids; kind = control; payload = some payload }))
      (record c { uuids = c.uuids + 1 })

-- `postHeartbeat`
unfoldable pub post_heartbeat : World → M (Unit {0})
unfolding submit_heartbeat
post_heartbeat w c =
    submit_heartbeat w (w.heartbeat_payload (w.sort_calls (map (λ e. e.1.tool_call) c.tool_calls)))
      c

-- `processEvents` with what it slurped.
unfoldable pub process_events : World → List Input → List Operation → M Bool
process_events w inputs updates = do
  handle_inbox_inputs w inputs
  process_operations w updates
  reconcile_tool_calls w
  c ← get
  pure (c.call_model || (has_pending_inputs c && not c.cancel_model && is_empty c.grace_tool_calls))

-- What the select of `Run` receives.
pub data Event : Type 0 where
  received : Input → Event
  updated : Operation → Event
  heartbeat_due grace_due : Event
  responded : String → Option Response → Event

-- Can the select take the case? A nil channel and a response that nobody waits for cannot be taken:
-- the loop reads and drops the latter.
unfoldable pub is_enabled : World → Coordinator → Event → Bool
is_enabled w c (received input) = true
is_enabled w c (updated v) = true
is_enabled w c heartbeat_due = w.has_heartbeat && is_waiting_for_only_tool_calls c
is_enabled w c grace_due = c.grace
is_enabled w c (responded turn_id r) = c.cancel_model && turn_id == c.current_turn_id

unfoldable pub handle_event : World → Event → M (Unit {0})
handle_event w (received input) = handle_inbox_inputs w (input ∷ [])
handle_event w (updated v) = process_operations w (v ∷ [])
handle_event w heartbeat_due = post_heartbeat w
handle_event w grace_due = modify clear_tool_grace
handle_event w (responded turn_id r) = process_model_response w turn_id r

pub data Verdict : Type 0 where
  continues stops : Verdict

-- The end of a round, once the events are processed.
unfoldable pub conclude : World → Bool → M Verdict
unfolding is_stop_hard is_stop_when_idle
conclude w call_model c =
    if is_stop_hard c.stop.mode
    then (do stopped ← handle_stop w; pure (if stopped then stops else continues)) c
    else (do
      if call_model then (do request_model_response w; modify clear_tool_grace) else pure tt
      c ← get
      pure (if is_stop_when_idle c.stop.mode && is_idle c then stops else continues))
        c

-- One round of the loop.
unfoldable pub round : World → Event → List Input → List Operation → M Verdict
unfolding handle_event conclude
round w event inputs updates = do
  handle_event w event
  call_model ← process_events w inputs updates
  conclude w call_model
