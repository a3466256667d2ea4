-- ===== src/SessionStore/Consistent.antt =====
-- The head's part of the invariant, kept by each of its methods: the operations are indexed and
-- valid, and owned turns, responses and statuses refer to known turns.
use heuristic.Prelude.{
  ℕ, ◌+◌, ◌%◌, String, ◌≡◌, refl, ap, ◌⊎◌, inl, inr, Bool, true, false, not, none, List, [], ◌∷◌,
  arith, if◌then◌else◌, Option-cases, nat_eq, string_eq, pair_eq, contains, contains-cons,
}
use heuristic.Prelude.Exec.{Result, ok, err}
use heuristic.Json.{Json}
use heuristic.Operation.{Operation}
use heuristic.Session.{Turn}
use heuristic.Inbox.{Input, validate}
use heuristic.SessionStore.{
  Item, ItemKind, ItemData, of_input, of_turn, of_model_response, of_tool_call_status,
  ModelResponse, ToolCallStatus,
}
use heuristic.SessionStore.Head.{
  with_turn, with_response, with_status, SessionHead, StoreError, append_item, append_input,
  append_turn, append_model_response, append_tool_call_status, initialize_operations,
  check_operations, validate_references, sequence_mod,
}
use heuristic.SessionStore.Positions.{HasOperations, initialize-HasOperations}

pub record IsConsistent (j : Json) (head : SessionHead) : Type 0 where
  pub operations : HasOperations j head
  pub owned_known :
      (id : String) → contains head.owned_turns id ≡ true → contains head.turns id ≡ true
  pub responded_owned :
      (id : String) → contains head.responded_turns id ≡ true → contains head.owned_turns id ≡ true
  pub statuses_owned :
      (turn call : String)
      → contains head.tool_call_statuses (turn, call) ≡ true
      → contains head.owned_turns turn ≡ true
  pub latest_known : (head.latest_turn_id ≡ "") ⊎ (contains head.turns head.latest_turn_id ≡ true)

-- What a successful append returns and leaves.
pub record Appended (j : Json) (head : SessionHead) (kind : ItemKind) (content : ItemData)
    (item : Item) (after : SessionHead) : Type 0 where
  pub consistent : IsConsistent j after
  pub next : after.item_sequence ≡ (head.item_sequence + 1) % sequence_mod
  pub same : item.sequence ≡ after.item_sequence
  pub kind_is : item.kind ≡ kind
  pub content_is : item.content ≡ content

-- Either a method refuses and leaves the head as it was, or it appends.
pub data Accepts (j : Json) (head : SessionHead) (kind : ItemKind) (content : ItemData)
    : Result StoreError Item × SessionHead → Type 0 where
  refuses : (e : StoreError) → Accepts j head kind content (err e, head)
  accepts :
      (item : Item) (after : SessionHead)
      → Appended j head kind content item after
      → Accepts j head kind content (ok item, after)

Accepts-if :
    {j : Json} {head : SessionHead} {kind : ItemKind} {content : ItemData} (b : Bool)
    (x y : Result StoreError Item × SessionHead)
    → (b ≡ true → Accepts j head kind content x)
    → (b ≡ false → Accepts j head kind content y)
    → Accepts j head kind content (if b then x else y)
Accepts-if true x y p q = p refl
Accepts-if false x y p q = q refl

-- `appendItem` moves the sequence on and keeps the rest.
append_item-Appended :
    (j : Json) (head after : SessionHead) (kind : ItemKind) (content : ItemData) (at : ℕ)
    → IsConsistent j after
    → after.item_sequence ≡ head.item_sequence
    → Accepts j head kind content (append_item kind content at after)
unfolding append_item
append_item-Appended j head after kind content at c e = accepts _ _ (record {
  consistent = record {
    operations = record { indexed = c.operations.indexed; valid = c.operations.valid };
    owned_known = c.owned_known;
    responded_owned = c.responded_owned;
    statuses_owned = c.statuses_owned;
    latest_known = c.latest_known;
  };
  next = ap (λ n. (n + 1) % sequence_mod) e;
  same = refl;
  kind_is = refl;
  content_is = refl;
})

module _ (j : Json) (head : SessionHead) (c : IsConsistent j head) where
  pub with_turn-IsConsistent : (v : Turn) → IsConsistent j (with_turn v head)
  with_turn-IsConsistent v = record {
    operations = record { indexed = c.operations.indexed; valid = c.operations.valid };
    owned_known = λ id h. ground (
      arith,
      contains-cons v.id head.owned_turns id,
      contains-cons v.id head.turns id,
      c.owned_known id,
    );
    responded_owned =
        λ id h. ground (arith, contains-cons v.id head.owned_turns id, c.responded_owned id);
    statuses_owned =
        λ t call h. ground (arith, contains-cons v.id head.owned_turns t, c.statuses_owned t call);
    latest_known =
        inr (ground (arith, contains-cons v.id head.turns v.id, string_eq.same_iff v.id v.id));
  }

  pub with_response-IsConsistent :
      (id : String) → contains head.owned_turns id ≡ true → IsConsistent j (with_response id head)
  with_response-IsConsistent id owned = record {
    operations = record { indexed = c.operations.indexed; valid = c.operations.valid };
    owned_known = c.owned_known;
    responded_owned = λ a h. ground (
      arith,
      contains-cons id head.responded_turns a,
      c.responded_owned a,
      string_eq.same_iff id a,
    );
    statuses_owned = c.statuses_owned;
    latest_known = c.latest_known;
  }

  pub with_status-IsConsistent :
      (turn call : String)
      → contains head.owned_turns turn ≡ true
      → IsConsistent j (with_status (turn, call) head)
  with_status-IsConsistent turn call owned = record {
    operations = record { indexed = c.operations.indexed; valid = c.operations.valid };
    owned_known = c.owned_known;
    responded_owned = c.responded_owned;
    statuses_owned = λ t k h. ground (
      arith,
      contains-cons (turn, call) head.tool_call_statuses (t, k),
      c.statuses_owned t k,
      string_eq.same_iff turn t,
    );
    latest_known = c.latest_known;
  }

pub initialize_keeps :
    (ops : List Operation) (head : SessionHead)
    → ((initialize_operations ops head).owned_turns ≡ head.owned_turns)
      × ((initialize_operations ops head).turns ≡ head.turns)
      × ((initialize_operations ops head).responded_turns ≡ head.responded_turns)
      × ((initialize_operations ops head).tool_call_statuses ≡ head.tool_call_statuses)
      × ((initialize_operations ops head).latest_turn_id ≡ head.latest_turn_id)
      × ((initialize_operations ops head).item_sequence ≡ head.item_sequence)
      × ((initialize_operations ops head).snapshot ≡ head.snapshot)
unfolding initialize_operations
initialize_keeps [] head = (refl, refl, refl, refl, refl, refl, refl)
initialize_keeps (v ∷ rest) head = initialize_keeps rest _

-- The rest of the head is not touched by the loop that registers operations.
initialize-IsConsistent :
    (j : Json) (ops : List Operation) (head : SessionHead)
    → check_operations j head.operation_positions [] ops ≡ none
    → IsConsistent j head
    → IsConsistent j (initialize_operations ops head)
initialize-IsConsistent j ops head h c =
    let kept = initialize_keeps ops head in
    record {
      operations = initialize-HasOperations j ops head h c.operations;
      owned_known = λ id. rw (kept.0, kept.1) (c.owned_known id);
      responded_owned = λ id. rw (kept.0, kept.2) (c.responded_owned id);
      statuses_owned = λ t k. rw (kept.0, kept.3) (c.statuses_owned t k);
      latest_known = rw (kept.1, kept.4) c.latest_known;
    }

module _ (j : Json) (at : ℕ) (head : SessionHead) (c : IsConsistent j head) where
  pub input-Accepts :
      (v : Input) → Accepts j head ItemKind.input (of_input v) (append_input j v at head)
  unfolding append_input
  input-Accepts v = elim (Option-cases (validate j v)) [
    | inr (e, bad) ↦ rw (bad, append_input) (refuses _)
    | inl good ↦
        rw (good, append_input) (append_item-Appended j head head ItemKind.input _ at c refl)
  ]

  pub turn-Accepts : (v : Turn) → Accepts j head ItemKind.turn (of_turn v) (append_turn v at head)
  unfolding append_turn
  turn-Accepts v =
      let appended =
        append_item-Appended j head (with_turn v head) ItemKind.turn (of_turn v) at
          (with_turn-IsConsistent j head c v) refl in
      search (Accepts-if, refuses)

  pub response-Accepts :
      (v : ModelResponse)
      → Accepts j head ItemKind.model_response
          (of_model_response v)
          (append_model_response v at head)
  unfolding append_model_response
  response-Accepts v =
      let appended = λ (owned : not (contains head.owned_turns v.turn_id) ≡ false).
        append_item-Appended j head (with_response v.turn_id head) ItemKind.model_response
          (of_model_response v) at (with_response-IsConsistent j head c v.turn_id (ground arith))
          refl in
      search (Accepts-if, refuses)

  pub status-Accepts :
      (v : ToolCallStatus) (ops : List Operation)
      → Accepts j head ItemKind.tool_call_status
          (of_tool_call_status v)
          (append_tool_call_status j v ops at head)
  unfolding append_tool_call_status
  status-Accepts v ops =
      let repeated =
        append_item-Appended j head head ItemKind.tool_call_status (of_tool_call_status v) at c
          refl in
      elim (Option-cases (check_operations j head.operation_positions [] ops)) [
        | inr (e, bad) ↦ rw (bad, append_tool_call_status) (search (Accepts-if, refuses))
        | inl good ↦ elim (Option-cases (validate_references v.status ops)) [
          | inr (e, bad) ↦ rw (good, bad, append_tool_call_status) (search (Accepts-if, refuses))
          | inl fine ↦
              let first = λ (owned : not (contains head.owned_turns v.turn_id) ≡ false).
                append_item-Appended j head
                  (initialize_operations ops (with_status (v.turn_id, v.call_id) head))
                  ItemKind.tool_call_status (of_tool_call_status v) at
                  (initialize-IsConsistent j ops (with_status (v.turn_id, v.call_id) head) good
                    (with_status-IsConsistent j head c v.turn_id v.call_id (ground arith)))
                  (initialize_keeps ops (with_status (v.turn_id, v.call_id) head)).5 in
              rw (good, fine, append_tool_call_status) (search (Accepts-if, refuses))
        ]
      ]
