-- ===== src/Coordinator/Examples.antt =====
-- The event loop at a concrete world: one tool, whose call starts one operation.
use heuristic.Prelude.{
  String, ◌≡◌, refl, true, false, none, some, [], ◌∷◌, map, arith, if◌then◌else◌, ◌==◌, nat_eq,
  string_eq, pair_eq, pos, contains,
}
use heuristic.Prelude.Exec.{◌>>=◌, ok}
use heuristic.Prelude.Map
use heuristic.Fixtures.{plain}
use heuristic.Json.{stop_hard}
use heuristic.Llm.{ItemType, of_tool_call, complete, Response, low}
use heuristic.Operation.{is_terminal}
use heuristic.Inbox.{validate, Input, external}
use heuristic.SessionStore.{of_turn}
use heuristic.Session.{regular}
use heuristic.ContextBuilder.{Builder, add_external_input, add_tool_result}
use heuristic.Coordinator.{
  World, Translator, Coordinator, Effect, stored, dispatched, requested, perform, new_coordinator,
}
use heuristic.Coordinator.Loop.{
  received, responded, is_stop_hard, handle_inbox_inputs, process_events, process_operations,
  request_model_response, process_model_response, handle_model_response, is_enabled, round,
}
use heuristic.Coordinator.Begin.{begin}
use heuristic.Coordinator.Local.{
  add_item_to_local_state, add_tool_calls, add_tool_result_to_local_state, add_tool_call_operations,
  add_operations, collect_operations, tool_call_operations_are_terminal,
}
use heuristic.Coordinator.Counters.{IsCounted, round-IsCounted, begin-IsCounted}
use heuristic.Coordinator.WriteAhead.{IsWriteAhead, round-IsWriteAhead}
use heuristic.Coordinator.HardStop.{IsStopped, same, round-IsStopped}
use heuristic.Coordinator.Schedule.{
  new_item, record_item, dispatch_each, require_model_response, schedule_tool_calls,
  reconcile_tool_calls,
}
use heuristic.SessionStore.{ItemKind}
use heuristic.SessionStore.Codec.Examples.{log_codec}
use heuristic.SessionStore.Examples.{one_turn}
use heuristic.SessionStore.Files.Examples.{calm}
use heuristic.SessionStore.Files.Calls.{page}
use heuristic.SessionStore.Replay.{replay_record}
use heuristic.SessionStore.State.{append_turn_item}
use heuristic.SessionStore.Head.{append_turn}
use heuristic.Coordinator.Begin.{restore_items}
use heuristic.Coordinator.History.{load_history, loaded, load_history-restore_items}

abbrev sleeper : Translator
sleeper = record {
  translate = λ ids call. (
    record {
      max_output_length = pos 0;
      type = "sleep";
      version = 1;
      state = some call.arguments;
      idempotency = none;
    }
        ∷ [],
    record { error = ""; error_truncated = false; waiting_for = ids 0 ∷ [] },
  );
  translate_result = λ id status ops. some (record { call_id = id; output = [] });
}

abbrev world : World
world = record {
  json = plain;
  uuid = λ n. if n == 0 then "o" else "p";
  accepts = λ done e. true;
  resolve = λ name. if name == "sleep" then some sleeper else none;
  unavailable_error = λ name. ("no tool", false);
  has_heartbeat = true;
  sort_calls = λ calls. calls;
  heartbeat_payload = λ calls. some "beat";
}

abbrev builder : Builder
builder = record {
  request = record {
    model = record { id = "m"; max_output_tokens = none; reasoning_effort = low };
    input = [];
    tools = [];
  };
  preamble = "";
  system_prompt = "";
  committed_prefix = [];
  staged_suffix = [];
}

abbrev idle : Coordinator
idle = new_coordinator builder

-- The model was asked in turn "t".
abbrev asked : Coordinator
asked = record idle { current_turn_id = "t"; current_turn_type = regular; cancel_model = true }

abbrev stopped : Coordinator
stopped = record idle { stop = record { mode = stop_hard; reason = "stop"; parameters = none } }

abbrev sleep_response : Response
sleep_response = record {
  id = "r";
  stop = complete;
  output =
      record {
        provider_id = "";
        type = ItemType.tool_call;
        content = of_tool_call (record { call_id = "c"; name = "sleep"; arguments = "1" });
      }
      ∷ [];
  usage = record {
    input_tokens = pos 0;
    cached_input_tokens = pos 0;
    cache_write_input_tokens = pos 0;
    output_tokens = pos 0;
    reasoning_tokens = pos 0;
    raw = none;
  };
  failure = none;
}

abbrev hello : Input
hello = record { id = "i"; kind = external; payload = some "hello" }

-- What a call is, for the tests.
abbrev label : Effect → String
label (stored item) = "stored"
label (dispatched v) = v.id
label (requested turn r) = turn
label e = "other"

-- A response with a tool call: the response and the status are stored, then the operation starts.
round-tool_call :
    map label (round world (responded "t" (some sleep_response)) [] [] asked).1.effects
    ≡ "stored" ∷ "stored" ∷ "o" ∷ []
unfolding round ◌>>=◌ process_model_response handle_model_response record_item
    add_item_to_local_state add_tool_calls perform schedule_tool_calls Map.insert
    add_tool_result_to_local_state Map.lookup add_tool_call_operations add_operations
    collect_operations contains add_tool_result tool_call_operations_are_terminal is_terminal
    dispatch_each process_events handle_inbox_inputs process_operations reconcile_tool_calls
    require_model_response
round-tool_call = refl

-- An input: it is stored, and a turn after it, for which the model is asked.
round-input :
    map label (round world (received hello) [] [] idle).1.effects ≡ "stored" ∷ "stored" ∷ "o" ∷ []
unfolding round ◌>>=◌ handle_inbox_inputs record_item add_item_to_local_state validate
    add_external_input perform process_events process_operations reconcile_tool_calls
    request_model_response
round-input = refl

round-IsWriteAhead_example :
    IsWriteAhead [] (round world (responded "t" (some sleep_response)) [] [] asked).1.effects
round-IsWriteAhead_example =
    round-IsWriteAhead world (responded "t" (some sleep_response)) [] [] asked

round-IsStopped_example : IsStopped [] (round world (received hello) [] [] stopped).1
unfolding is_enabled is_stop_hard
round-IsStopped_example =
    round-IsStopped world (received hello) [] [] [] stopped refl
      (record { hard = refl; interrupted = refl; quiet = same })

round-IsCounted_example : IsCounted (round world (received hello) [] [] idle).1
round-IsCounted_example =
    round-IsCounted world (received hello) [] [] idle
      (record { answered = omega arith; given = omega arith })

begin-IsCounted_example :
    IsCounted
      (begin world
        (new_item ItemKind.turn
            (of_turn (record { id = "t"; previous_turn_id = ""; type = regular }))
          ∷ [])
        []
        (new_coordinator builder)).1
begin-IsCounted_example =
    begin-IsCounted world
      (new_item ItemKind.turn (of_turn (record { id = "t"; previous_turn_id = ""; type = regular }))
        ∷ [])
      [] builder

load_history-restore_items_example :
    load_history 2 world
      (λ after limit. ok (page plain log_codec calm after limit one_turn.items))
      (new_coordinator builder)
    ≡ loaded (restore_items world one_turn.items (new_coordinator builder))
unfolding replay_record append_turn_item append_turn contains
load_history-restore_items_example =
    load_history-restore_items plain log_codec calm world one_turn.items (new_coordinator builder)
      (refl, tt)
