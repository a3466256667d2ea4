-- ===== src/SessionStore/Files/Calls.antt =====
-- The calls of a `Store` in harness/sessionstore/localfile/store.go: appends, new sessions and forks,
-- and what a caller reads.
use heuristic.Prelude.{
  ℕ, ◌+◌, ◌-◌, String, not, Option, none, some, List, [], ◌∷◌, ltb, if◌then◌else◌, ◌==◌, nat_eq,
  string_eq, length, take, drop,
}
use heuristic.Prelude.Bytes.{Bytes}
use heuristic.Prelude.Exec.{Result, ok, err, Exec}
use heuristic.Json.{Json}
use heuristic.Operation.{Operation}
use heuristic.Session.{Turn}
use heuristic.Inbox.{Input}
use heuristic.SessionStore.{
  Item, of_tool_call_status, ModelResponse, ToolCallStatus, Snapshot, ResumeState,
}
use heuristic.SessionStore.Head.{
  SessionHead, StoreError, append_input, append_turn, append_model_response,
  append_tool_call_status, save_operation, validate_operation,
}
use heuristic.SessionStore.State.{StoredState, new_stored_state, fork_stored_state, resume}
use heuristic.SessionStore.Replay.{of_item, of_operation}
use heuristic.SessionStore.Codec.{LogCodec, validate_session_id, encode_initial_log}
use heuristic.SessionStore.Files.{
  CachedWriteState, Conditions, StoreFailure, rejected, invalid_id, is_cancelled, own_parent,
  no_limit, unencodable, Store, Page, notify_observers, put_cached_write_state,
  evict_cached_write_state, publish_file, publish_failure, read_state, load_write_state, append,
}

module _ (j : Json) (c : LogCodec) (with : Conditions) where
  unfoldable pub tell :
      String
      → Item
      → Result StoreFailure (Unit {0}) × Store
      → Result StoreFailure (Unit {0}) × Store
  unfolding notify_observers
  tell id item (err e, s) = (err e, s)
  tell id item (ok u, s) = (ok u, notify_observers id item s)

  -- What the four appends do with the item that the head made: it is told as the function shows it.
  unfoldable pub commit :
      String
      → ℕ
      → List Operation
      → (Item → Item)
      → Result StoreError Item × SessionHead
      → Exec Store StoreFailure (Unit {0})
  unfolding append tell
  commit id size operations shown (err e, head) s = (err (rejected e), s)
  commit id size operations shown (ok item, head) s =
      tell id (shown item)
        (append j c with id head size (of_item (record { item = item; operations = operations })) s)

  unfoldable pub on_loaded :
      (CachedWriteState → Exec Store StoreFailure (Unit {0}))
      → Result StoreFailure CachedWriteState × Store
      → Result StoreFailure (Unit {0}) × Store
  on_loaded f (err e, s) = (err e, s)
  on_loaded f (ok cached, s) = f cached s

  unfoldable pub append_input_to : String → Input → Exec Store StoreFailure (Unit {0})
  unfolding on_loaded load_write_state commit
  append_input_to id v s =
      on_loaded
        (λ w. commit id w.committed_size [] (λ item. item) (append_input j v with.now w.head))
        (load_write_state j c with id s)

  unfoldable pub append_turn_to : String → Turn → Exec Store StoreFailure (Unit {0})
  unfolding on_loaded load_write_state commit
  append_turn_to id v s =
      on_loaded (λ w. commit id w.committed_size [] (λ item. item) (append_turn v with.now w.head))
        (load_write_state j c with id s)

  unfoldable pub append_model_response_to :
      String → ModelResponse → Exec Store StoreFailure (Unit {0})
  unfolding on_loaded load_write_state commit
  append_model_response_to id v s =
      on_loaded
        (λ w.
          commit id w.committed_size [] (λ item. item) (append_model_response v with.now w.head))
        (load_write_state j c with id s)

  -- The operations stand beside the status in the record, and in it for the observers.
  unfoldable pub append_tool_call_status_to :
      String → ToolCallStatus → Exec Store StoreFailure (Unit {0})
  unfolding on_loaded load_write_state commit
  append_tool_call_status_to id v s =
      let bare = record v { operations = [] } in
      on_loaded
        (λ w.
          commit id w.committed_size v.operations
            (λ item. record item { content = of_tool_call_status v })
            (append_tool_call_status j bare v.operations with.now w.head))
        (load_write_state j c with id s)

  unfoldable pub commit_operation :
      String
      → ℕ
      → Operation
      → Result StoreError (Unit {0}) × SessionHead
      → Exec Store StoreFailure (Unit {0})
  unfolding append
  commit_operation id size v (err e, head) s = (err (rejected e), s)
  commit_operation id size v (ok u, head) s = append j c with id head size (of_operation v) s

  unfoldable pub save_operation_to : String → Operation → Exec Store StoreFailure (Unit {0})
  unfolding on_loaded load_write_state commit_operation
  save_operation_to id v s = elim (validate_operation j v) [
    | some e ↦ (err (rejected e), s)
    | none ↦
        on_loaded (λ w. commit_operation id w.committed_size v (save_operation j v w.head))
          (load_write_state j c with id s)
  ]

  -- `publishInitialState`, of what `encodeInitialLog` made.
  unfoldable pub publish : StoredState → Option Bytes → Exec Store StoreFailure Snapshot
  unfolding publish_file publish_failure evict_cached_write_state put_cached_write_state
  publish t none s = (err unencodable, s)
  publish t (some text) s =
      let id = t.snapshot.session.id in
      let written = record s { files = publish_file with.publishing id text s.files } in
      elim (publish_failure with.publishing) [
        | some e ↦ (err e, evict_cached_write_state id written)
        | none ↦ (ok t.snapshot, put_cached_write_state id t.head (length text) written)
      ]

  unfoldable pub publish_initial_state : StoredState → Exec Store StoreFailure Snapshot
  unfolding publish
  publish_initial_state t s = publish t (encode_initial_log j c t.snapshot.session t.items) s

  unfoldable pub create : String → Exec Store StoreFailure Snapshot
  unfolding publish_initial_state
  create id s =
      if not (validate_session_id id)
      then (err invalid_id, s)
      else if with.cancelled
      then (err is_cancelled, s)
      else publish_initial_state (new_stored_state id with.now) s

  -- The last item, whose index panics where there is none.
  unfoldable pub tell_last :
      String
      → List Item
      → Result StoreFailure Snapshot × Store
      → Result StoreFailure Snapshot × Store
  unfolding notify_observers
  tell_last id items (err e, s) = (err e, s)
  tell_last id [] (ok v, s) = (err (rejected StoreError.panicked), s)
  tell_last id (item ∷ []) (ok v, s) = (ok v, notify_observers id item s)
  tell_last id (item ∷ rest) (ok v, s) = tell_last id rest (ok v, s)

  unfoldable pub publish_fork :
      String → Result StoreError StoredState → Exec Store StoreFailure Snapshot
  unfolding publish_initial_state tell_last
  publish_fork id (err e) s = (err (rejected e), s)
  publish_fork id (ok t) s = tell_last id t.items (publish_initial_state t s)

  unfoldable pub fork : String → String → String → Exec Store StoreFailure Snapshot
  unfolding read_state publish_fork
  fork id parent_id previous_turn_id s =
      if not (validate_session_id id)
      then (err invalid_id, s)
      else if id == parent_id
      then (err own_parent, s)
      else elim (read_state j c with parent_id s) [
        | err e ↦ (err e, s)
        | ok (parent, size) ↦
            publish_fork id (fork_stored_state parent id previous_turn_id with.now) s
      ]

  unfoldable pub inspect : String → Store → Result StoreFailure Snapshot
  unfolding read_state
  inspect id s = elim (read_state j c with id s) [ err e ↦ err e | ok (t, size) ↦ ok t.snapshot ]

  unfoldable pub resume_session : String → Store → Result StoreFailure ResumeState
  unfolding read_state
  resume_session id s = elim (read_state j c with id s) [
    | err e ↦ err e
    | ok (t, size) ↦ elim (resume t) [ err e ↦ err (rejected e) | ok r ↦ ok r ]
  ]

  unfoldable pub last_sequence : ℕ → List Item → ℕ
  last_sequence after [] = after
  last_sequence after (item ∷ rest) = last_sequence item.sequence rest

  -- `Items` of what was read.
  unfoldable pub page : ℕ → ℕ → List Item → Page
  unfolding last_sequence
  page after limit items =
      let start = if ltb after (length items) then after else length items in
      let end = if ltb (start + limit) (length items) then start + limit else length items in
      let shown = take (end - start) (drop start items) in
      record {
        items = shown;
        next_after = last_sequence after shown;
        more = ltb end (length items);
      }

  -- A negative limit is refused as zero is.
  unfoldable pub items : String → ℕ → ℕ → Store → Result StoreFailure Page
  unfolding read_state page
  items id after limit s = if limit == 0 then err no_limit else elim (read_state j c with id s) [
    | err e ↦ err e
    | ok (t, size) ↦ ok (page after limit t.items)
  ]
