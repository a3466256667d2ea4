-- ===== src/SessionStore/Log.antt =====
-- A whole log: the loop of `decodeLog` over the records of a session that inherits none.
use heuristic.Prelude.{
  ℕ, ◌+◌, ◌≤◌, ◌<◌, ◌≡◌, subst, inl, inr, false, List, [], ◌∷◌, arith, ltb, nat_eq, string_eq,
  pair_eq, length, length-append,
}
use heuristic.Prelude.Exec.{Result-cases, Result, ok, err}
use heuristic.Json.{Json}
use heuristic.Operation.{Operation}
use heuristic.SessionStore.{
  Item, ItemKind, ItemData, of_input, of_turn, of_model_response, of_tool_call_status,
}
use heuristic.SessionStore.Head.{StoreError, SessionHead, sequence_mod}
use heuristic.SessionStore.State.{
  StoredState, recorded, append_input_item, append_turn_item, append_model_response_item,
  append_tool_call_status_item,
}
use heuristic.SessionStore.Replay.{
  DecodedRecord, ItemRecord, of_item, of_operation, replay_data, replay_item, save_operation_item,
  replay_record, replay,
}
use heuristic.SessionStore.Invariant.{IsWellFormed, refusal-state, replay_record-IsWellFormed}

recorded-length :
    (s : StoredState) (f : Item → Item) (m : Result StoreError Item × SessionHead)
    → length (recorded s f m).1.items ≤ length s.items + 1
unfolding recorded
recorded-length s f (err e, head) = omega arith
recorded-length s f (ok item, head) = omega (arith, length-append s.items (f item ∷ []))

module _ (j : Json) (operations : List Operation) (at : ℕ) (s : StoredState) where
  replay_data-length :
      (k : ItemKind) (d : ItemData)
      → length (replay_data j operations at k d s).1.items ≤ length s.items + 1
  unfolding replay_data append_input_item append_turn_item append_model_response_item
      append_tool_call_status_item
  replay_data-length ItemKind.input (of_input v) =
      rw (refusal-state (append_input_item j v at s)) (recorded-length s _ _)
  replay_data-length ItemKind.input _ = omega arith
  replay_data-length ItemKind.turn (of_turn v) =
      rw (refusal-state (append_turn_item v at s)) (recorded-length s _ _)
  replay_data-length ItemKind.turn _ = omega arith
  replay_data-length ItemKind.model_response (of_model_response v) =
      rw (refusal-state (append_model_response_item v at s)) (recorded-length s _ _)
  replay_data-length ItemKind.model_response _ = omega arith
  replay_data-length ItemKind.tool_call_status (of_tool_call_status v) =
      rw (refusal-state (append_tool_call_status_item j v operations at s)) (recorded-length s _ _)
  replay_data-length ItemKind.tool_call_status _ = omega arith
  replay_data-length _ d = omega arith

replay_item-length :
    (j : Json) (r : ItemRecord) (s : StoredState)
    → length (replay_item j r s).1.items ≤ length s.items + 1
unfolding replay_item
replay_item-length j r s =
    replay_data-length j r.operations r.item.recorded_at s r.item.kind r.item.content

saved_state :
    (j : Json) (v : Operation) (s : StoredState)
    → (replay_record j (of_operation v) s).1 ≡ (save_operation_item j v s).1
unfolding replay_record
saved_state j v s = refusal-state (save_operation_item j v s)

ltb-zero : (n : ℕ) → ltb n 0 ≡ false
ltb-zero n = ground arith

-- A log of owned records that decodes, from a well-formed state, gives a well-formed state, when
-- all of its items stay below the limit of the uint64 sequence.
pub replay-IsWellFormed :
    (j : Json) (records : List DecodedRecord) (replayed : ℕ) (s : StoredState) {after : StoredState}
    → IsWellFormed j s
    → length s.items + length records < sequence_mod
    → replay j 0 replayed records s ≡ ok after
    → IsWellFormed j after
unfolding replay replay_record
replay-IsWellFormed j [] n s {after} w room h = subst (IsWellFormed j) (ground arith) w
replay-IsWellFormed j (of_item r ∷ rest) n s w room h = elim (Result-cases (replay_item j r s).0) [
  | inl (e, p) ↦ absurd (let h' = rw (ltb-zero n, p, replay) at h in ground arith)
  | inr (u, p) ↦
      replay-IsWellFormed j rest (n + 1) (replay_item j r s).1
        (replay_record-IsWellFormed j (of_item r) s w (omega arith))
        (omega (arith, replay_item-length j r s)) (rw (ltb-zero n, p, replay) at h)
]
replay-IsWellFormed j (of_operation v ∷ rest) n s w room h =
    elim (Result-cases (save_operation_item j v s).0) [
      | inl (e, p) ↦ absurd (let h' = rw (ltb-zero n, p, replay) at h in ground arith)
      | inr (u, p) ↦
          replay-IsWellFormed j rest n (save_operation_item j v s).1
            (subst (IsWellFormed j) (saved_state j v s)
              (replay_record-IsWellFormed j (of_operation v) s w (omega arith)))
            (omega arith) (rw (ltb-zero n, p, replay) at h)
    ]
