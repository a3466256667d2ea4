-- ===== src/SessionStore/Head.antt =====
-- `sessionHead` of harness/sessionstore/localfile/state.go: what a session remembers of its
-- history in order to accept the next record. A set is the list of its members, and a map an
-- association list. Each method returns its error or result, and the head as it leaves it.
use heuristic.Prelude.{
  ℕ, ◌+◌, ◌%◌, ◌^◌, String, Bool, true, false, ◌||◌, not, Option, none, some, List, [], ◌∷◌, ◌++◌,
  map, if◌then◌else◌, ◌==◌, nat_eq, string_eq, pair_eq, length, get_elem?, set, contains,
}
use heuristic.Prelude.Map
use heuristic.Prelude.Exec.{ok, err, Exec}
use heuristic.Json.{Json}
use heuristic.Operation.{Operation, CallStatus, Status}
use heuristic.Session.{Turn}
use heuristic.Inbox.{Input, InputError, validate, is_invalid_value}
use heuristic.SessionStore.{
  Item, ItemKind, ItemData, of_input, of_turn, of_model_response, of_tool_call_status,
  ModelResponse, ToolCallStatus, Snapshot,
}

pub record SessionHead : Type 0 where
  pub snapshot : Snapshot
  pub operations : List Operation
  pub item_sequence : ℕ
  pub latest_turn_id : String
  pub turns : List String
  pub owned_turns : List String
  pub responded_turns : List String
  pub tool_call_statuses : List (String × String)
  pub operation_positions : List (String × ℕ)

pub data StoreError : Type 0 where
  invalid_input : InputError → StoreError
  empty_turn_id empty_call_id turn_exists turn_missing already_responded : StoreError
  wrong_previous_turn : String → String → StoreError
  empty_operation_id empty_operation_type zero_version unsupported_status : StoreError
  invalid_state invalid_idempotency : StoreError
  operation_exists operation_missing changed_type_or_version : StoreError
  error_waits error_initializes no_operation repeated_operation not_initialized : StoreError
  wrong_count : ℕ → ℕ → StoreError
  fork_missing : StoreError
  -- A run-time panic: a failed type assertion or an index out of range.
  panicked : StoreError

-- uint64 `sessionstore.Sequence`
abbrev pub sequence_mod : ℕ
sequence_mod = 2 ^ 64

-- `appendItem`
unfoldable pub append_item : ItemKind → ItemData → ℕ → Exec SessionHead StoreError Item
append_item kind content recorded_at head =
    let next = (head.item_sequence + 1) % sequence_mod in
    (
      ok (record { sequence = next; recorded_at = recorded_at; kind = kind; content = content }),
      record head { item_sequence = next },
    )

unfoldable pub append_input : Json → Input → ℕ → Exec SessionHead StoreError Item
unfolding append_item
append_input j input recorded_at head = elim (validate j input) [
  | some e ↦ (err (invalid_input e), head)
  | none ↦ append_item ItemKind.input (of_input input) recorded_at head
]

-- The three assignments of an accepted turn.
abbrev pub with_turn : Turn → SessionHead → SessionHead
with_turn turn head = record head {
  turns = turn.id ∷ head.turns;
  owned_turns = turn.id ∷ head.owned_turns;
  latest_turn_id = turn.id;
}

abbrev pub with_response : String → SessionHead → SessionHead
with_response id head = record head { responded_turns = id ∷ head.responded_turns }

abbrev pub with_status : String × String → SessionHead → SessionHead
with_status key head = record head { tool_call_statuses = key ∷ head.tool_call_statuses }

unfoldable pub append_turn : Turn → ℕ → Exec SessionHead StoreError Item
unfolding append_item
append_turn turn recorded_at head =
    if turn.id == ""
    then (err empty_turn_id, head)
    else if not (turn.previous_turn_id == head.latest_turn_id)
    then (err (wrong_previous_turn turn.previous_turn_id head.latest_turn_id), head)
    else if contains head.turns turn.id
    then (err turn_exists, head)
    else append_item ItemKind.turn (of_turn turn) recorded_at (with_turn turn head)

unfoldable pub append_model_response : ModelResponse → ℕ → Exec SessionHead StoreError Item
unfolding append_item
append_model_response response recorded_at head =
    if not (contains head.owned_turns response.turn_id)
    then (err turn_missing, head)
    else if contains head.responded_turns response.turn_id
    then (err already_responded, head)
    else append_item ItemKind.model_response (of_model_response response) recorded_at
        (with_response response.turn_id head)

is_supported : Status → Bool
is_supported (Status.other s) = false
is_supported _ = true

-- `validateOperation`
unfoldable pub validate_operation : Json → Operation → Option StoreError
unfolding is_supported
validate_operation j value =
    if value.id == ""
    then some empty_operation_id
    else if value.type == ""
    then some empty_operation_type
    else if value.version == 0
    then some zero_version
    else if not (is_supported value.status)
    then some unsupported_status
    else if is_invalid_value j value.state
    then some invalid_state
    else if is_invalid_value j value.idempotency
    then some invalid_idempotency
    else none

-- The loop that checks the operations of a first status: `seen` holds the IDs before this one.
unfoldable pub check_operations :
    Json → List (String × ℕ) → List String → List Operation → Option StoreError
check_operations j positions seen [] = none
check_operations j positions seen (value ∷ rest) =
    let later = check_operations j positions (value.id ∷ seen) rest in
    elim (validate_operation j value) [
      | some e ↦ some e
      | none ↦
          if contains seen value.id
          then some operation_exists
          else elim (Map.lookup value.id positions) [
            | some p ↦ some operation_exists
            | none ↦ later
          ]
    ]

abbrev pub ids : List Operation → List String
ids = map (λ v. v.id)

-- The loop over `status.WaitingFor`.
unfoldable pub check_waiting : List String → List String → List String → Option StoreError
check_waiting initialized waiting [] = none
check_waiting initialized waiting (id ∷ rest) =
    let later = check_waiting initialized (id ∷ waiting) rest in
    if contains waiting id
    then some repeated_operation
    else if not (contains initialized id)
    then some not_initialized
    else later

-- `validateStatusOperationReferences`
unfoldable pub validate_references : CallStatus → List Operation → Option StoreError
unfolding check_waiting
validate_references status operations =
    if not (status.error == "")
    then if not (length status.waiting_for == 0)
      then some error_waits
      else if not (length operations == 0)
      then some error_initializes
      else none
    else if length operations == 0
    then some no_operation
    else if not (length status.waiting_for == length operations)
    then some (wrong_count (length status.waiting_for) (length operations))
    else check_waiting (ids operations) [] status.waiting_for

-- The loop that registers the operations of a first status.
unfoldable pub initialize_operations : List Operation → SessionHead → SessionHead
initialize_operations [] head = head
initialize_operations (value ∷ rest) head = initialize_operations rest (record head {
  operation_positions = Map.insert value.id (length head.operations) head.operation_positions;
  operations = head.operations ++ value ∷ [];
})

-- `appendToolCallStatus`
unfoldable pub append_tool_call_status :
    Json → ToolCallStatus → List Operation → ℕ → Exec SessionHead StoreError Item
unfolding append_item
append_tool_call_status j status operations recorded_at head =
    let key : String × String = (status.turn_id, status.call_id) in
    let append = append_item ItemKind.tool_call_status (of_tool_call_status status) recorded_at in
    if not (contains head.owned_turns status.turn_id)
    then (err turn_missing, head)
    else if status.call_id == ""
    then (err empty_call_id, head)
    else if contains head.tool_call_statuses key
    then append head
    else elim (check_operations j head.operation_positions [] operations) [
      | some e ↦ (err e, head)
      | none ↦ elim (validate_references status.status operations) [
        | some e ↦ (err e, head)
        | none ↦ append (initialize_operations operations (with_status key head))
      ]
    ]

replace_operation : Operation → ℕ → Option Operation → Exec SessionHead StoreError (Unit {0})
replace_operation value index none s = (err panicked, s)
replace_operation value index (some existing) s =
    if not (existing.type == value.type) || not (existing.version == value.version)
    then (err changed_type_or_version, s)
    else (ok tt, record s { operations = set s.operations index value })

-- `saveOperation`
unfoldable pub save_operation : Json → Operation → Exec SessionHead StoreError (Unit {0})
unfolding replace_operation
save_operation j value head = elim (validate_operation j value) [
  | some e ↦ (err e, head)
  | none ↦ elim (Map.lookup value.id head.operation_positions) [
    | none ↦ (err operation_missing, head)
    | some index ↦ replace_operation value index (get_elem? head.operations index) head
  ]
]
