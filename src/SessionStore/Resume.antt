-- ===== src/SessionStore/Resume.antt =====
-- What `resume` of harness/sessionstore/localfile/state.go gives back, from the history alone.
use heuristic.Prelude.{
  String, ◌≡◌, refl, sym, ap, ◌∙◌, inl, inr, Bool, false, ◌||◌, not, some, List, [], ◌∷◌, ◌++◌,
  arith, if◌then◌else◌, Bool-cases, ◌==◌, nat_eq, string_eq, pair_eq, All, contains, contains-cons,
  contains-discard,
}
use mathlib.Core.List.{append_assoc, append-nil}
use heuristic.Prelude.Exec.{ok}
use heuristic.Operation.{Operation, is_terminal}
use heuristic.Inbox.{InputKind, external}
use heuristic.SessionStore.{
  Item, ItemKind, ItemData, IsTyped, Fits, of_fork, of_input, of_turn, of_model_response,
  of_tool_call_status,
}
use heuristic.SessionStore.State.{
  StoredState, note_snapshots, scan_data, scan_items, keep_resumed, resume,
}

-- The ID of an input, if it came from outside.
abbrev id_if_external : String → InputKind → List String
id_if_external id external = id ∷ []
id_if_external id k = []

abbrev external_id : ItemKind → ItemData → List String
external_id ItemKind.input (of_input i) = id_if_external i.id i.kind
external_id k d = []

-- The IDs of the external inputs of a history, in order.
abbrev pub external_ids : List Item → List String
external_ids [] = []
external_ids (i ∷ is) = external_id i.kind i.content ++ external_ids is

abbrev snapshots_of : ItemKind → ItemData → List Operation
snapshots_of ItemKind.tool_call_status (of_tool_call_status v) = v.operations
snapshots_of k d = []

-- The operations that a history records, in order.
abbrev pub snapshots : List Item → List Operation
snapshots [] = []
snapshots (i ∷ is) = snapshots_of i.kind i.content ++ snapshots is

-- Is the last snapshot of the operation in a history there, and unfinished?
abbrev pub is_unfinished : String → List Operation → Bool → Bool
is_unfinished id [] before = before
is_unfinished id (v ∷ vs) before =
    is_unfinished id vs (if v.id == id then not (is_terminal v.status) else before)

-- The operations that are not finished, or whose result the history lacks.
abbrev pub resumable : List Item → List Operation → List Operation
resumable items [] = []
resumable items (v ∷ vs) =
    if not (is_terminal v.status) || is_unfinished v.id (snapshots items) false
    then v ∷ resumable items vs
    else resumable items vs

note_snapshots-append :
    (vs ws : List Operation) (pending : List String)
    → note_snapshots (vs ++ ws) pending ≡ note_snapshots ws (note_snapshots vs pending)
unfolding note_snapshots
note_snapshots-append [] ws pending = refl
note_snapshots-append (v ∷ vs) ws pending = note_snapshots-append vs ws _

note_snapshots-contains :
    (vs : List Operation) (pending : List String) (id : String)
    → contains (note_snapshots vs pending) id ≡ is_unfinished id vs (contains pending id)
unfolding note_snapshots
note_snapshots-contains [] pending id = refl
note_snapshots-contains (v ∷ vs) pending id =
    note_snapshots-contains vs _ id
    ∙ ap (is_unfinished id vs) (elim (Bool-cases (is_terminal v.status)) [
      | inl e ↦ rw e (contains-discard pending v.id id)
      | inr e ↦ rw e (contains-cons v.id pending id ∙ ground arith)
    ])

input_lem :
    (id : String) (k : InputKind) (ids : List String)
    → (elim k as (λ _. List String) [ external ↦ ids ++ id ∷ [] | _ ↦ ids ])
      ≡ ids ++ id_if_external id k
input_lem id external ids = refl
input_lem id k ids = sym (append-nil ids)

scan_data_lem :
    (k : ItemKind) (d : ItemData) (ids pending : List String)
    → Fits k d
    → scan_data k d (ids, pending)
      ≡ some (ids ++ external_id k d, note_snapshots (snapshots_of k d) pending)
unfolding scan_data note_snapshots
scan_data_lem ItemKind.fork (of_fork v) ids pending h = rw append-nil refl
scan_data_lem ItemKind.input (of_input v) ids pending h =
    ap (λ x. some (x, pending)) (input_lem v.id v.kind ids)
scan_data_lem ItemKind.turn (of_turn v) ids pending h = rw append-nil refl
scan_data_lem ItemKind.model_response (of_model_response v) ids pending h = rw append-nil refl
scan_data_lem ItemKind.tool_call_status (of_tool_call_status v) ids pending h = rw append-nil refl
scan_data_lem k d ids pending h = absurd h

scan_items_lem :
    (items : List Item) (ids pending : List String)
    → All IsTyped items
    → scan_items items (ids, pending)
      ≡ some (ids ++ external_ids items, note_snapshots (snapshots items) pending)
unfolding scan_items note_snapshots
scan_items_lem [] ids pending h = rw append-nil refl
scan_items_lem (i ∷ is) ids pending h =
    rw (scan_data_lem i.kind i.content ids pending h.0, scan_items)
      (scan_items_lem is _ _ h.1
        ∙ rw (append_assoc ids (external_id i.kind i.content) (external_ids is)) (
            ap (λ p. some (ids ++ (external_id i.kind i.content ++ external_ids is), p))
              (sym (note_snapshots-append (snapshots_of i.kind i.content) (snapshots is) pending))))

keep_resumed_lem :
    (pending : List String) (items : List Item) (vs : List Operation)
    → ((id : String) → contains pending id ≡ is_unfinished id (snapshots items) false)
    → keep_resumed pending vs ≡ resumable items vs
unfolding keep_resumed
keep_resumed_lem pending items [] h = refl
keep_resumed_lem pending items (v ∷ vs) h =
    rw (h v.id) (rw (keep_resumed_lem pending items vs h) refl)

-- Resuming a state whose items have the data of their kind succeeds, and gives back the snapshot,
-- the IDs of the external inputs of the history in order, and, in the order of the state, the
-- operations that are unfinished or whose last snapshot in the history is.
pub resume_lem :
    (s : StoredState)
    → All IsTyped s.items
    → resume s
      ≡ ok (record {
        snapshot = s.snapshot;
        operations = resumable s.items s.operations;
        external_input_ids = external_ids s.items;
      })
unfolding resume contains
resume_lem s h =
    rw (scan_items_lem s.items [] [] h, resume)
      (rw
        (keep_resumed_lem (note_snapshots (snapshots s.items) []) s.items s.operations
          (λ id. note_snapshots-contains (snapshots s.items) [] id))
        refl)
