-- ===== src/Coordinator/Begin.antt =====
-- What `Run` of harness/coordinator/loop.go does before its loop: the local state is restored from
-- the items and operations of the session, and the work that they leave open is started.
use heuristic.Prelude.{
  ◌||◌, Option, none, some, List, [], ◌∷◌, if◌then◌else◌, nat_eq, string_eq, pair_eq,
}
use heuristic.Prelude.Exec.{err, pure, get, modify, ◌>>=◌, ◌>>◌}
use heuristic.Prelude.Map
use heuristic.Operation.{Operation}
use heuristic.SessionStore.{Item, ItemKind, ItemData, of_tool_call_status}
use heuristic.Coordinator.{
  World, Coordinator, M, CoordinatorError, tool_missing, has_pending_inputs,
}
use heuristic.Coordinator.Local.{add_operation, add_item_to_local_state, requires_translator}
use heuristic.Coordinator.Schedule.{
  schedule_tool_calls, reconcile_tool_calls, require_model_response, dispatch_operations,
}
use heuristic.Coordinator.Loop.{request_model_response}

-- `restoreItem`: a call that still needs its translator must find its tool.
unfoldable pub restorable : World → ItemKind → ItemData → Coordinator → Option CoordinatorError
restorable w ItemKind.tool_call_status (of_tool_call_status v) c =
    if requires_translator v
    then elim (Map.lookup (v.turn_id, v.call_id) c.tool_calls) [
      | none ↦ none
      | some call ↦ elim (w.resolve call.tool_call.name) [
        | none ↦ some (tool_missing v.call_id)
        | some t ↦ none
      ]
    ]
    else none
restorable w k d c = none

unfoldable pub restore_item : World → Item → M (Unit {0})
unfolding restorable
restore_item w item c = elim (restorable w item.kind item.content c) [
  | some e ↦ (err e, c)
  | none ↦ add_item_to_local_state w item c
]

-- The items of the session's pages, in order.
unfoldable pub restore_items : World → List Item → M (Unit {0})
unfolding restore_item
restore_items w [] = pure tt
restore_items w (i ∷ is) = do restore_item w i; restore_items w is

unfoldable pub restore_operations : List Operation → Coordinator → Coordinator
restore_operations [] c = c
restore_operations (v ∷ vs) c = restore_operations vs (add_operation v c)

-- `restore`
unfoldable pub restore : World → List Item → List Operation → M (Unit {0})
unfolding restore_items restore_operations
restore w items operations = do restore_items w items; modify (restore_operations operations)

-- What `Run` does before its loop, `restore` included.
unfoldable pub begin : World → List Item → List Operation → M (Unit {0})
unfolding restore
begin w items operations = do
  restore w items operations
  statuses ← schedule_tool_calls w
  reconcile_tool_calls w
  dispatch_operations w
  c ← get
  if require_model_response statuses || has_pending_inputs c
      then request_model_response w
      else pure tt
