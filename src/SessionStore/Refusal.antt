-- ===== src/SessionStore/Refusal.antt =====
-- A refused record leaves no trace.
use heuristic.Prelude.{ℕ, ◌≡◌, refl, ap, List, arith, nat_eq, string_eq, pair_eq}
use heuristic.Prelude.Exec.{Result, ok, err}
use heuristic.Json.{Json}
use heuristic.Operation.{Operation}
use heuristic.Session.{Turn}
use heuristic.Inbox.{Input}
use heuristic.SessionStore.{
  Item, ItemKind, ItemData, of_input, of_turn, of_model_response, of_tool_call_status,
  ModelResponse, ToolCallStatus,
}
use heuristic.SessionStore.Head.{
  SessionHead, StoreError, append_input, append_turn, append_model_response,
  append_tool_call_status, save_operation,
}
use heuristic.SessionStore.State.{
  recorded, StoredState, append_input_item, append_turn_item, append_model_response_item,
  append_tool_call_status_item,
}
use heuristic.SessionStore.Replay.{
  refusal, replay_data, DecodedRecord, of_item, of_operation, DecodeError, replay_record,
  replay_item,
}

module _ (j : Json) (at : ℕ) (head : SessionHead) (e : StoreError) where
  input_refused :
      (v : Input) → (append_input j v at head).0 ≡ err e → (append_input j v at head).1 ≡ head
  unfolding append_input
  input_refused v h = ground arith

  turn_refused : (v : Turn) → (append_turn v at head).0 ≡ err e → (append_turn v at head).1 ≡ head
  unfolding append_turn
  turn_refused v h = ground arith

  response_refused :
      (v : ModelResponse)
      → (append_model_response v at head).0 ≡ err e
      → (append_model_response v at head).1 ≡ head
  unfolding append_model_response
  response_refused v h = ground arith

  status_refused :
      (v : ToolCallStatus) (operations : List Operation)
      → (append_tool_call_status j v operations at head).0 ≡ err e
      → (append_tool_call_status j v operations at head).1 ≡ head
  unfolding append_tool_call_status
  status_refused v operations h = ground arith

  save_refused :
      (v : Operation) → (save_operation j v head).0 ≡ err e → (save_operation j v head).1 ≡ head
  unfolding save_operation
  save_refused v h = ground arith

recorded_refused :
    (s : StoredState) (f : Item → Item) (m : Result StoreError Item × SessionHead) {e : DecodeError}
    → ((e' : StoreError) → m.0 ≡ err e' → m.1 ≡ s.head)
    → (refusal (recorded s f m)).0 ≡ err e
    → (refusal (recorded s f m)).1 ≡ s
unfolding recorded
recorded_refused s f (err e', head) same h =
    ap (λ (x : SessionHead). record s { head = x }) (same e' refl)
recorded_refused s f (ok item, head) same h = cc

saved_refused :
    (s : StoredState) (m : Result StoreError (Unit {0}) × SessionHead) {e : DecodeError}
    → ((e' : StoreError) → m.0 ≡ err e' → m.1 ≡ s.head)
    → (refusal (m.0, record s { head = m.1 })).0 ≡ err e
    → (refusal (m.0, record s { head = m.1 })).1 ≡ s
saved_refused s (err e', head) same h =
    ap (λ (x : SessionHead). record s { head = x }) (same e' refl)
saved_refused s (ok u, head) same h = cc

module _ (j : Json) (operations : List Operation) (at : ℕ) (s : StoredState) {e : DecodeError} where
  data_refused :
      (k : ItemKind) (d : ItemData)
      → (replay_data j operations at k d s).0 ≡ err e
      → (replay_data j operations at k d s).1 ≡ s
  unfolding replay_data append_input_item append_turn_item append_model_response_item
      append_tool_call_status_item
  data_refused ItemKind.input (of_input v) h =
      recorded_refused s _ _ (λ e'. input_refused j at s.head e' v) h
  data_refused ItemKind.turn (of_turn v) h =
      recorded_refused s _ _ (λ e'. turn_refused j at s.head e' v) h
  data_refused ItemKind.model_response (of_model_response v) h =
      recorded_refused s _ _ (λ e'. response_refused j at s.head e' v) h
  data_refused ItemKind.tool_call_status (of_tool_call_status v) h =
      recorded_refused s _ _ (λ e'. status_refused j at s.head e' v operations) h
  data_refused _ d h = ground arith

-- A record that the state refuses, with whatever error, leaves the state, its head and its items
-- alike, exactly as it was.
pub replay_record-refused :
    (j : Json) (r : DecodedRecord) (s : StoredState) {e : DecodeError}
    → (replay_record j r s).0 ≡ err e
    → (replay_record j r s).1 ≡ s
unfolding replay_record replay_item
replay_record-refused j (of_item r) s h =
    data_refused j r.operations r.item.recorded_at s r.item.kind r.item.content h
replay_record-refused j (of_operation v) s h =
    saved_refused s (save_operation j v s.head) (λ e'. save_refused j 0 s.head e' v) h
