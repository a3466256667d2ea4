-- ===== src/SessionStore/Codec/Made.antt =====
-- The items that the methods of the head make, and the sequence after each record.
use heuristic.Prelude.{
  ℕ, ◌+◌, ◌%◌, ◌≡◌, refl, ap, inl, inr, Bool, true, false, List, [], arith, if◌then◌else◌,
  Option-cases, nat_eq, string_eq, pair_eq,
}
use heuristic.Prelude.Exec.{Result, ok, err}
use heuristic.Json.{Json}
use heuristic.Operation.{Operation}
use heuristic.Session.{Turn}
use heuristic.Inbox.{Input, validate}
use heuristic.SessionStore.{
  Item, ItemKind, ItemData, of_input, of_turn, of_model_response, of_tool_call_status,
  ModelResponse, ToolCallStatus,
}
use heuristic.SessionStore.Head.{
  SessionHead, StoreError, sequence_mod, append_item, append_input, append_turn,
  append_model_response, append_tool_call_status, initialize_operations, save_operation,
  with_status, with_turn, with_response, check_operations, validate_references,
}
use heuristic.SessionStore.Consistent.{initialize_keeps}
use heuristic.SessionStore.State.{
  StoredState, recorded, append_input_item, append_turn_item, append_model_response_item,
  append_tool_call_status_item, inherit_item, inherit_data,
}
use heuristic.SessionStore.Replay.{
  refusal, replay_data, replay_item, save_operation_item, DecodeError, ItemRecord,
}

-- What an append that succeeds makes.
pub record Made (head : SessionHead) (kind : ItemKind) (content : ItemData) (at : ℕ) (item : Item)
    (after : SessionHead) : Type 0 where
  pub sequence : item.sequence ≡ (head.item_sequence + 1) % sequence_mod
  pub kind_is : item.kind ≡ kind
  pub content_is : item.content ≡ content
  pub time : item.recorded_at ≡ at
  pub next : after.item_sequence ≡ (head.item_sequence + 1) % sequence_mod
  pub session : after.snapshot ≡ head.snapshot

pub data Makes (head : SessionHead) (kind : ItemKind) (content : ItemData) (at : ℕ)
    : Result StoreError Item × SessionHead → Type 0 where
  fails : (e : StoreError) (after : SessionHead) → Makes head kind content at (err e, after)
  makes :
      (item : Item) (after : SessionHead)
      → Made head kind content at item after
      → Makes head kind content at (ok item, after)

Makes-if :
    {head : SessionHead} {kind : ItemKind} {content : ItemData} {at : ℕ} (b : Bool)
    (x y : Result StoreError Item × SessionHead)
    → Makes head kind content at x
    → Makes head kind content at y
    → Makes head kind content at (if b then x else y)
Makes-if true x y p q = p
Makes-if false x y p q = q

append_item-Makes :
    (head after : SessionHead) (kind : ItemKind) (content : ItemData) (at : ℕ)
    → after.item_sequence ≡ head.item_sequence
    → after.snapshot ≡ head.snapshot
    → Makes head kind content at (append_item kind content at after)
unfolding append_item
append_item-Makes head after kind content at e session =
    let n = ap (λ n. (n + 1) % sequence_mod) e in
    makes _ _ (record {
      sequence = n;
      kind_is = refl;
      content_is = refl;
      time = refl;
      next = n;
      session = session;
    })

module _ (j : Json) (at : ℕ) (head : SessionHead) where
  pub input-Makes :
      (v : Input) → Makes head ItemKind.input (of_input v) at (append_input j v at head)
  unfolding append_input
  input-Makes v = elim (Option-cases (validate j v)) [
    | inr (e, p) ↦ rw (p, append_input) (fails _ _)
    | inl p ↦
        rw (p, append_input) (append_item-Makes head head ItemKind.input (of_input v) at refl refl)
  ]

  pub turn-Makes : (v : Turn) → Makes head ItemKind.turn (of_turn v) at (append_turn v at head)
  unfolding append_turn
  turn-Makes v =
      let made = append_item-Makes head (with_turn v head) ItemKind.turn (of_turn v) at refl refl in
      search (Makes-if, fails)

  pub response-Makes :
      (v : ModelResponse)
      → Makes head ItemKind.model_response
          (of_model_response v)
          at
          (append_model_response v at head)
  unfolding append_model_response
  response-Makes v =
      let made =
        append_item-Makes head (with_response v.turn_id head) ItemKind.model_response
          (of_model_response v) at refl refl in
      search (Makes-if, fails)

  pub status-Makes :
      (v : ToolCallStatus) (ops : List Operation)
      → Makes head ItemKind.tool_call_status
          (of_tool_call_status v)
          at
          (append_tool_call_status j v ops at head)
  unfolding append_tool_call_status
  status-Makes v ops =
      let repeated =
        append_item-Makes head head ItemKind.tool_call_status (of_tool_call_status v) at refl
          refl in
      elim (Option-cases (check_operations j head.operation_positions [] ops)) [
        | inr (e, bad) ↦ rw (bad, append_tool_call_status) (search (Makes-if, fails))
        | inl good ↦ elim (Option-cases (validate_references v.status ops)) [
          | inr (e, bad) ↦ rw (good, bad, append_tool_call_status) (search (Makes-if, fails))
          | inl fine ↦
              let started = with_status (v.turn_id, v.call_id) head in
              let first =
                append_item-Makes head (initialize_operations ops started) ItemKind.tool_call_status
                  (of_tool_call_status v) at (initialize_keeps ops started).5
                  (initialize_keeps ops started).6 in
              rw (good, fine, append_tool_call_status) (search (Makes-if, fails))
        ]
      ]

-- The state after a record of an item that was made, and the sequence after it.
abbrev pub Follows : StoredState → ℕ → Result DecodeError (Unit {0}) × StoredState → Type 0
Follows s n (err e, after) = Unit
Follows s n (ok u, after) = after.item_sequence ≡ n

recorded-Follows :
    (s : StoredState) (f : Item → Item) {kind : ItemKind} {content : ItemData} {at : ℕ}
    (m : Result StoreError Item × SessionHead)
    → Makes s.head kind content at m
    → Follows s ((s.item_sequence + 1) % sequence_mod) (refusal (recorded s f m))
unfolding recorded
recorded-Follows s f m (fails e after) = tt
recorded-Follows s f m (makes item after a) = a.next

module _ (j : Json) (operations : List Operation) (at : ℕ) (s : StoredState) where
  replay_data-Follows :
      (k : ItemKind) (d : ItemData)
      → Follows s ((s.item_sequence + 1) % sequence_mod) (replay_data j operations at k d s)
  unfolding replay_data append_input_item append_turn_item append_model_response_item
      append_tool_call_status_item
  replay_data-Follows ItemKind.input (of_input v) =
      recorded-Follows s _ _ (input-Makes j at s.head v)
  replay_data-Follows ItemKind.input _ = tt
  replay_data-Follows ItemKind.turn (of_turn v) = recorded-Follows s _ _ (turn-Makes j at s.head v)
  replay_data-Follows ItemKind.turn _ = tt
  replay_data-Follows ItemKind.model_response (of_model_response v) =
      recorded-Follows s _ _ (response-Makes j at s.head v)
  replay_data-Follows ItemKind.model_response _ = tt
  replay_data-Follows ItemKind.tool_call_status (of_tool_call_status v) =
      recorded-Follows s _ _ (status-Makes j at s.head v operations)
  replay_data-Follows ItemKind.tool_call_status _ = tt
  replay_data-Follows _ d = tt

pub replay_item-Follows :
    (j : Json) (r : ItemRecord) (s : StoredState)
    → Follows s ((s.item_sequence + 1) % sequence_mod) (replay_item j r s)
unfolding replay_item
replay_item-Follows j r s =
    replay_data-Follows j r.operations r.item.recorded_at s r.item.kind r.item.content

-- A saved operation leaves the sequence as it was.
pub save_operation-sequence :
    (j : Json) (v : Operation) (s : StoredState)
    → (save_operation_item j v s).1.item_sequence ≡ s.item_sequence
unfolding save_operation_item save_operation
save_operation-sequence j v s = ground arith

inherit_data_lem :
    (item : Item) (k : ItemKind) (d : ItemData) (s after : StoredState)
    → inherit_data s item k d ≡ ok after
    → after.item_sequence ≡ s.item_sequence
unfolding inherit_data
inherit_data_lem item ItemKind.turn (of_turn v) s after e = ground arith
inherit_data_lem item ItemKind.model_response (of_model_response v) s after e = ground arith
inherit_data_lem item ItemKind.tool_call_status (of_tool_call_status v) s after e = ground arith
inherit_data_lem item ItemKind.fork d s after e = ground arith
inherit_data_lem item ItemKind.input d s after e = ground arith
inherit_data_lem item (ItemKind.other k) d s after e = ground arith
inherit_data_lem item k d s after e = absurd (ground arith)

-- An inherited item brings its own sequence.
pub inherit_item-sequence :
    (item : Item) (s after : StoredState)
    → inherit_item item s ≡ ok after
    → after.item_sequence ≡ item.sequence
unfolding inherit_item
inherit_item-sequence item s after e = inherit_data_lem item item.kind item.content _ after e
