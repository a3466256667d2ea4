-- ===== src/Operation/Examples/Managers.antt =====
-- Witnesses on the operation manager: a skill use from its addition to its last update.
use heuristic.Prelude.{string_eq, String, ◌≡◌, refl, false, some, List, [], ◌∷◌, pos}
use heuristic.Operation.Manager.Round.{
  receive_add, accept_counted, add_local, add_step, receive_primitive, handle_running, handled,
  take_update,
}
use heuristic.Operation.Manager.Accept.{accept_step, start_all}
use heuristic.Operation.Manager.{is_startable, is_completion, increase, decrement}
use heuristic.Operation.Local.{plain, initialize_local, handle_local, advance_local_operation}
use heuristic.Operation.SkillUse.{
  skill_use_read_correlation, advance_skill_use, skill_use_operation_state, dispatch_skill_use_read,
  await_skill_use, skill_use_step, advance_from, advance_awaiting_skill_use, typed_event,
  read_event, is_nonempty,
}
use heuristic.Operation.Step.{Step, encoded}
use heuristic.Operation.{is_terminal}
use heuristic.Prelude.{contains}
use heuristic.Prelude.Map.{lookup, insert, erase}
use heuristic.Primitive.{
  PrimitiveEvent, EventType, EventResult, io_read_output, io_read_completed, read_output,
  read_completed,
}
use heuristic.Operation.{Operation, Status, ready, awaiting, completed}
use heuristic.Operation.Local.Runs.{machine, IsOrderly, rounds-IsOrderly}
use heuristic.Operation.Manager.{local, Manager, new_manager}
use heuristic.Operation.Manager.Round.{Received, adds, takes, primitive, round, rounds}
use heuristic.Operation.Examples.{codec}
use heuristic.Operation.Examples.Codecs.{libraries, shells, images, skill_state, remotes}
use heuristic.Operation.Examples.Operations.{skill, skill_use}

abbrev read_event_of : String → EventType → EventResult → PrimitiveEvent
read_event_of id type result = record {
  type = type;
  source = id;
  correlation_id = skill_use_read_correlation;
  result = result;
}

abbrev received : List Received
received =
    adds (skill_use ready)
    ∷ primitive (read_event_of "s" io_read_output (read_output 0 (7 ∷ [])))
    ∷ takes
    ∷ primitive (read_event_of "s" io_read_completed (read_completed 1))
    ∷ []

abbrev read_so_far : Status → Operation
read_so_far status = record (skill_use status) {
  state = (codec skill_state).encode (record skill { content = 7 ∷ [] });
}

abbrev finished : Manager (machine libraries shells images)
finished = record {
  operations = [];
  accepted = "s" ∷ [];
  pending_updates = read_so_far awaiting ∷ read_so_far completed ∷ [];
  sent = skill_use awaiting ∷ [];
  active_primitives = pos 0;
  closed = [];
}

run_finished :
    rounds
      (machine libraries shells images)
      remotes
      []
      received
      (new_manager (machine libraries shells images) [])
    ≡ some finished
unfolding rounds round receive_add accept_counted add_local add_step receive_primitive
    handle_running handled take_update accept_step start_all is_startable is_completion increase
    decrement initialize_local handle_local advance_local_operation advance_skill_use
    skill_use_operation_state dispatch_skill_use_read await_skill_use skill_use_step advance_from
    advance_awaiting_skill_use typed_event read_event is_nonempty encoded is_terminal contains
    lookup insert erase
run_finished = refl

rounds-IsOrderly_example : IsOrderly finished
rounds-IsOrderly_example =
    rounds-IsOrderly libraries shells images [] received finished run_finished

abbrev added : Manager (machine libraries shells images)
added = record {
  operations =
      ("s", record { operation = skill_use awaiting; canceled = false; runner = local plain }) ∷ [];
  accepted = "s" ∷ [];
  pending_updates = skill_use awaiting ∷ [];
  sent = [];
  active_primitives = pos 1;
  closed = [];
}

abbrev chunk : PrimitiveEvent
chunk = read_event_of "s" io_read_output (read_output 0 (7 ∷ []))

abbrev chunk_read : Step
chunk_read = record { operation = some (read_so_far awaiting); dispatches = [] }
