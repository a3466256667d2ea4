-- ===== src/SessionStore/Replay.antt =====
-- The second half of `decodeLog` and `replayItem` of harness/sessionstore/localfile/codec.go: the
-- records of a log, decoded from JSON, are applied in order to the state of an empty session.
use heuristic.Prelude.{
  ℕ, ◌+◌, not, List, [], ◌∷◌, ltb, if◌then◌else◌, ◌==◌, nat_eq, string_eq, pair_eq, length,
}
use heuristic.Prelude.Exec.{Result, ok, err, Exec}
use heuristic.Json.{Json}
use heuristic.Operation.{Operation}
use heuristic.SessionStore.{
  Item, ItemKind, ItemData, of_input, of_turn, of_model_response, of_tool_call_status,
}
use heuristic.SessionStore.Head.{StoreError, panicked, save_operation}
use heuristic.SessionStore.State.{
  StoredState, append_input_item, append_turn_item, append_model_response_item,
  append_tool_call_status_item, inherit_item,
}

pub record ItemRecord : Type 0 where
  pub item : Item
  pub operations : List Operation

-- `decodedRecord`, whose `Type` says which of the two fields is meant.
pub data DecodedRecord : Type 0 where
  of_item : ItemRecord → DecodedRecord
  of_operation : Operation → DecodedRecord

pub data DecodeError : Type 0 where
  -- An error of the state's own method.
  refused : StoreError → DecodeError
  unexpected_kind inherited_initializes inherited_operation : DecodeError

abbrev pub refusal :
    Result StoreError (Unit {0}) × StoredState → Result DecodeError (Unit {0}) × StoredState
refusal (ok u, s) = (ok u, s)
refusal (err e, s) = (err (refused e), s)

unfoldable pub replay_data :
    Json → List Operation → ℕ → ItemKind → ItemData → Exec StoredState DecodeError (Unit {0})
replay_data j operations at ItemKind.input (of_input v) s = refusal (append_input_item j v at s)
replay_data j operations at ItemKind.turn (of_turn v) s = refusal (append_turn_item v at s)
replay_data j operations at ItemKind.model_response (of_model_response v) s =
    refusal (append_model_response_item v at s)
replay_data j operations at ItemKind.tool_call_status (of_tool_call_status v) s =
    refusal (append_tool_call_status_item j v operations at s)
replay_data j operations at ItemKind.input v s = (err (refused panicked), s)
replay_data j operations at ItemKind.turn v s = (err (refused panicked), s)
replay_data j operations at ItemKind.model_response v s = (err (refused panicked), s)
replay_data j operations at ItemKind.tool_call_status v s = (err (refused panicked), s)
replay_data j operations at k v s = (err unexpected_kind, s)

-- `replayItem`
unfoldable pub replay_item : Json → ItemRecord → Exec StoredState DecodeError (Unit {0})
unfolding replay_data
replay_item j r s = replay_data j r.operations r.item.recorded_at r.item.kind r.item.content s

-- `saveOperation` on the head that the state embeds.
unfoldable pub save_operation_item : Json → Operation → Exec StoredState StoreError (Unit {0})
save_operation_item j v s =
    let (r, head) = save_operation j v s.head in (r, record s { head = head })

-- One record of owned history.
unfoldable pub replay_record : Json → DecodedRecord → Exec StoredState DecodeError (Unit {0})
unfolding replay_item save_operation_item
replay_record j (of_item r) s = replay_item j r s
replay_record j (of_operation v) s = refusal (save_operation_item j v s)

-- `value.inheritItem` of a record of inherited history.
unfoldable pub inherit_record : ItemRecord → StoredState → Result DecodeError StoredState
inherit_record r s =
    if not (length r.operations == 0)
    then err inherited_initializes
    else elim (inherit_item r.item s) [ ok s' ↦ ok s' | err e ↦ err (refused e) ]

-- The replay loop of `decodeLog`: `replayed` counts the items so far, of which the first
-- `inherited` are taken over from a parent.
unfoldable pub replay :
    Json → ℕ → ℕ → List DecodedRecord → StoredState → Result DecodeError StoredState
unfolding inherit_record
replay j inherited replayed [] s = ok s
replay j inherited replayed (of_item r ∷ rest) s =
    if ltb replayed inherited
    then elim (inherit_record r s) [
      | err e ↦ err e
      | ok s' ↦ replay j inherited (replayed + 1) rest s'
    ]
    else elim (replay_item j r s).0 [
      | err e ↦ err e
      | ok u ↦ replay j inherited (replayed + 1) rest (replay_item j r s).1
    ]
replay j inherited replayed (of_operation v ∷ rest) s =
    if ltb replayed inherited then err inherited_operation else elim (save_operation_item j v s).0 [
      | err e ↦ err (refused e)
      | ok u ↦ replay j inherited replayed rest (save_operation_item j v s).1
    ]
