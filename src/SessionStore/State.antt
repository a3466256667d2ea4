-- ===== src/SessionStore/State.antt =====
-- `storedState` of harness/sessionstore/localfile/state.go: the head of a session with its items,
-- what a restart resumes, and forks. A failed type assertion is the error `panicked`.
use heuristic.Prelude.{
  ℕ, ◌+◌, String, Bool, true, false, ◌&&◌, ◌||◌, not, Option, none, some, List, [], ◌∷◌, ◌++◌,
  if◌then◌else◌, ◌==◌, nat_eq, string_eq, pair_eq, take, contains, discard,
}
use heuristic.Prelude.Exec.{Result, ok, err, Exec}
use heuristic.Json.{Json}
use heuristic.Operation.{Operation, is_terminal}
use heuristic.Session.{Turn}
use heuristic.Inbox.{Input, external}
use heuristic.SessionStore.{
  Item, ItemKind, ItemData, of_fork, of_input, of_turn, of_model_response, of_tool_call_status,
  Fork, ModelResponse, ToolCallStatus, ResumeState,
}
use heuristic.SessionStore.Head.{
  SessionHead, StoreError, fork_missing, panicked, append_item, append_input, append_turn,
  append_model_response, append_tool_call_status,
}

pub record StoredState : Type 0 where
  pub head : SessionHead
  pub open head use *
  pub items : List Item

-- `newSessionHead`
abbrev pub new_session_head : String → ℕ → SessionHead
new_session_head id created_at = record {
  snapshot = record { session = record { id = id; created_at = created_at } };
  operations = [];
  item_sequence = 0;
  latest_turn_id = "";
  turns = [];
  owned_turns = [];
  responded_turns = [];
  tool_call_statuses = [];
  operation_positions = [];
}

-- `newStoredState`
abbrev pub new_stored_state : String → ℕ → StoredState
new_stored_state id created_at = record { head = new_session_head id created_at; items = [] }

-- What the four `append…` methods of the state do with the item that the head's method returns.
unfoldable pub recorded :
    StoredState
    → (Item → Item)
    → Result StoreError Item × SessionHead
    → Result StoreError (Unit {0}) × StoredState
recorded s f (err e, head) = (err e, record s { head = head })
recorded s f (ok item, head) = (ok tt, record { head = head; items = s.items ++ f item ∷ [] })

unfoldable pub append_input_item : Json → Input → ℕ → Exec StoredState StoreError (Unit {0})
unfolding recorded
append_input_item j input at s = recorded s (λ i. i) (append_input j input at s.head)

unfoldable pub append_turn_item : Turn → ℕ → Exec StoredState StoreError (Unit {0})
unfolding recorded
append_turn_item turn at s = recorded s (λ i. i) (append_turn turn at s.head)

unfoldable pub append_model_response_item :
    ModelResponse → ℕ → Exec StoredState StoreError (Unit {0})
unfolding recorded
append_model_response_item response at s =
    recorded s (λ i. i) (append_model_response response at s.head)

-- The item keeps the operations of the record beside the status.
unfoldable pub append_tool_call_status_item :
    Json → ToolCallStatus → List Operation → ℕ → Exec StoredState StoreError (Unit {0})
unfolding recorded
append_tool_call_status_item j status operations at s =
    recorded s
      (λ i. record i { content = of_tool_call_status (record status { operations = operations }) })
      (append_tool_call_status j status operations at s.head)

-- `resetOwnedState`
abbrev pub reset_owned_state : SessionHead → SessionHead
reset_owned_state head = record head {
  owned_turns = [];
  responded_turns = [];
  tool_call_statuses = [];
  operations = [];
  operation_positions = [];
}

-- The switch of `inheritItem`, on the item whose sequence is already taken over.
unfoldable pub inherit_data :
    StoredState → Item → ItemKind → ItemData → Result StoreError StoredState
inherit_data s item ItemKind.turn (of_turn turn) = ok (record s {
  head = record s.head {
    turns = turn.id ∷ s.turns;
    owned_turns = turn.id ∷ s.owned_turns;
    latest_turn_id = turn.id;
  };
  items = s.items ++ item ∷ [];
})
inherit_data s item ItemKind.model_response (of_model_response response) = ok (record s {
  head = record s.head { responded_turns = response.turn_id ∷ s.responded_turns };
  items = s.items ++ item ∷ [];
})
inherit_data s item ItemKind.tool_call_status (of_tool_call_status status) = ok (record s {
  head = record s.head {
    tool_call_statuses = (status.turn_id, status.call_id) ∷ s.tool_call_statuses;
  };
  items =
      s.items
      ++ record item { content = of_tool_call_status (record status { operations = [] }) } ∷ [];
})
inherit_data s item ItemKind.fork v =
    ok (record s { head = reset_owned_state s.head; items = s.items ++ item ∷ [] })
inherit_data s item ItemKind.input v = ok (record s { items = s.items ++ item ∷ [] })
inherit_data s item (ItemKind.other k) v = ok (record s { items = s.items ++ item ∷ [] })
inherit_data s item k v = err panicked

-- `inheritItem`
unfoldable pub inherit_item : Item → StoredState → Result StoreError StoredState
unfolding inherit_data
inherit_item item s =
    inherit_data (record s { head = record s.head { item_sequence = item.sequence } }) item
      item.kind item.content

-- The loop of `forkStoredState` over the inherited items.
unfoldable pub inherit_items : List Item → StoredState → Result StoreError StoredState
inherit_items [] s = ok s
inherit_items (item ∷ rest) s = elim (inherit_item item s) [
  | err e ↦ err e
  | ok s' ↦ inherit_items rest s'
]

-- `appendFork`
unfoldable pub append_fork : Fork → ℕ → StoredState → StoredState
unfolding append_item
append_fork value at s =
    let (appended, head) = append_item ItemKind.fork (of_fork value) at s.head in
    record {
      head = reset_owned_state head;
      items = elim appended [ ok item ↦ s.items ++ item ∷ [] | err e ↦ s.items ];
    }

-- Does the item belong to the turn? `none` is a failed type assertion.
unfoldable pub belongs : String → ItemKind → ItemData → Option Bool
belongs id ItemKind.turn (of_turn turn) = some (turn.id == id)
belongs id ItemKind.model_response (of_model_response response) = some (response.turn_id == id)
belongs id ItemKind.tool_call_status (of_tool_call_status status) = some (status.turn_id == id)
belongs id ItemKind.fork v = some false
belongs id ItemKind.input v = some false
belongs id (ItemKind.other k) v = some false
belongs id k v = none

-- `boundary >= 0`
abbrev pub found : Option ℕ → Bool
found none = false
found (some i) = true

unfoldable pub is_turn : ItemKind → Bool
is_turn ItemKind.turn = true
is_turn _ = false

-- The loop of `forkStoredState` that finds the boundary; `none` is the boundary -1.
unfoldable pub find_boundary : String → ℕ → Option ℕ → List Item → Result StoreError (Option ℕ)
unfolding belongs is_turn
find_boundary id index boundary [] = ok boundary
find_boundary id index boundary (item ∷ rest) =
    if found boundary && is_turn item.kind
    then ok boundary
    else elim (belongs id item.kind item.content) [
      | none ↦ err panicked
      | some b ↦ find_boundary id (index + 1) (if b then some index else boundary) rest
    ]

unfoldable pub append_fork_to :
    Fork → ℕ → Result StoreError StoredState → Result StoreError StoredState
unfolding append_fork
append_fork_to value at (err e) = err e
append_fork_to value at (ok s) = ok (append_fork value at s)

unfoldable pub fork_at :
    StoredState → String → String → ℕ → Result StoreError (Option ℕ) → Result StoreError StoredState
unfolding append_fork_to inherit_items
fork_at parent id previous_turn_id created_at (err e) = err e
fork_at parent id previous_turn_id created_at (ok none) = err fork_missing
fork_at parent id previous_turn_id created_at (ok (some boundary)) =
    append_fork_to
      (record { parent_id = parent.snapshot.session.id; previous_turn_id = previous_turn_id })
      created_at (inherit_items (take (boundary + 1) parent.items) (new_stored_state id created_at))

-- `forkStoredState`
unfoldable pub fork_stored_state : StoredState → String → String → ℕ → Result StoreError StoredState
unfolding fork_at find_boundary
fork_stored_state parent id previous_turn_id created_at =
    fork_at parent id previous_turn_id created_at
      (find_boundary previous_turn_id 0 none parent.items)

-- The set of operations whose latest snapshot in the history is unfinished.
unfoldable pub note_snapshots : List Operation → List String → List String
note_snapshots [] pending = pending
note_snapshots (value ∷ rest) pending =
    note_snapshots rest
      (if is_terminal value.status then discard pending value.id else value.id ∷ pending)

abbrev pub Scan : Type 0
Scan = List String × List String

-- One round of `resume`'s loop over the items: external input IDs and pending operations.
unfoldable pub scan_data : ItemKind → ItemData → Scan → Option Scan
unfolding note_snapshots
scan_data ItemKind.input (of_input input) (inputs, pending) =
    some (elim input.kind [ external ↦ inputs ++ input.id ∷ [] | _ ↦ inputs ], pending)
scan_data ItemKind.tool_call_status (of_tool_call_status status) (inputs, pending) =
    some (inputs, note_snapshots status.operations pending)
scan_data ItemKind.input v scan = none
scan_data ItemKind.tool_call_status v scan = none
scan_data k v scan = some scan

unfoldable pub scan_items : List Item → Scan → Option Scan
unfolding scan_data
scan_items [] scan = some scan
scan_items (item ∷ rest) scan = elim (scan_data item.kind item.content scan) [
  | none ↦ none
  | some scan' ↦ scan_items rest scan'
]

-- `!terminalOperationStatus(value.Status) || unrecorded`
abbrev pub is_resumed : List String → Operation → Bool
is_resumed pending value = not (is_terminal value.status) || contains pending value.id

unfoldable pub keep_resumed : List String → List Operation → List Operation
keep_resumed pending [] = []
keep_resumed pending (value ∷ rest) =
    let kept = keep_resumed pending rest in if is_resumed pending value then value ∷ kept else kept

-- `resume`
unfoldable pub resume : StoredState → Result StoreError ResumeState
unfolding scan_items keep_resumed
resume s = elim (scan_items s.items ([], [])) [
  | none ↦ err panicked
  | some (inputs, pending) ↦ ok (record {
    snapshot = s.snapshot;
    operations = keep_resumed pending s.operations;
    external_input_ids = inputs;
  })
]
