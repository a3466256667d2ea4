-- ===== src/SessionStore/Files/Appends.antt =====
-- The appends of a `Store`: each is the method of `storedState`, on the disk.
use heuristic.Prelude.{
  ℕ, String, ◌≡◌, refl, ap, ◌∙◌, subst, ◌≢◌, inl, inr, List, [], Option-cases, nat_eq, string_eq,
  pair_eq,
}
use heuristic.Prelude.Bytes.{Bytes}
use heuristic.Prelude.Exec.{Result, ok, err, Exec}
use heuristic.Json.{Json}
use heuristic.Operation.{Operation}
use heuristic.Session.{Turn}
use heuristic.Inbox.{Input}
use heuristic.SessionStore.{
  Item, ItemKind, of_input, of_turn, of_model_response, of_tool_call_status, ModelResponse,
  ToolCallStatus,
}
use heuristic.SessionStore.Head.{
  SessionHead, StoreError, append_input, append_turn, append_model_response,
  append_tool_call_status, save_operation, validate_operation,
}
use heuristic.SessionStore.State.{
  StoredState, append_input_item, append_turn_item, append_model_response_item,
  append_tool_call_status_item,
}
use heuristic.SessionStore.Replay.{of_item, of_operation, save_operation_item}
use heuristic.SessionStore.Codec.{LogCodec}
use heuristic.SessionStore.Codec.Laws.{IsLogCodec, ReadsBack}
use heuristic.SessionStore.Codec.Extends.{
  Extends, input-Extends, turn-Extends, response-Extends, status-Extends, operation-Extends,
}
use heuristic.SessionStore.Files.{
  CachedWriteState, Conditions, Store, StoreFailure, load_write_state, notify_observers,
}
use heuristic.SessionStore.Files.Calls.{
  tell, commit, on_loaded, commit_operation, append_input_to, append_turn_to,
  append_model_response_to, append_tool_call_status_to, save_operation_to,
}
use heuristic.SessionStore.Files.Coherent.{
  IsCached, IsCoherent, IsSpared-self, Loads, unloaded, loaded, load_write_state-Loads,
}
use heuristic.SessionStore.Files.Saved.{Outcome, unchanged, saved, append-Outcome}

module _ (j : Json) (c : LogCodec) (laws : IsLogCodec j c) (with : Conditions) (id : String) where
  tell-Outcome :
      (method : Exec StoredState StoreError (Unit {0})) (files : List (String × Bytes))
      (item : Item) (x : Result StoreFailure (Unit {0}) × Store)
      → Outcome j c method id files x
      → Outcome j c method id files (tell j c with id item x)
  unfolding tell notify_observers
  tell-Outcome method files item (err e, s) h = h
  tell-Outcome method files item (ok u, s) (saved r s' t last coherent spared was is now) =
      saved _ _ t last coherent spared was is now

  module _ (w : CachedWriteState) (s : Store) (h : IsCached j c id w s.files)
      (coherent : IsCoherent j c s) (method : Exec StoredState StoreError (Unit {0})) where
    commit-Outcome :
        (ops : List Operation) (shown : Item → Item) (m : Result StoreError Item × SessionHead)
        → ((item : Item) (after : SessionHead)
            → m ≡ (ok item, after)
            → Extends j c method h.state (of_item (record { item = item; operations = ops })) after)
        → Outcome j c method id s.files (commit j c with id w.committed_size ops shown m s)
    unfolding commit
    commit-Outcome ops shown (err e, head) x =
        unchanged _ s coherent (IsSpared-self id s.files) refl
    commit-Outcome ops shown (ok item, head) x =
        tell-Outcome method s.files (shown item) _
          (append-Outcome j c laws with method id w s h _ head coherent (x item head refl))

    commit_operation-Outcome :
        (v : Operation) (m : Result StoreError (Unit {0}) × SessionHead)
        → ((after : SessionHead)
            → m ≡ (ok tt, after)
            → Extends j c method h.state (of_operation v) after)
        → Outcome j c method id s.files (commit_operation j c with id w.committed_size v m s)
    unfolding commit_operation
    commit_operation-Outcome v (err e, head) x =
        unchanged _ s coherent (IsSpared-self id s.files) refl
    commit_operation-Outcome v (ok u, head) x =
        append-Outcome j c laws with method id w s h _ head coherent (x head refl)

  loaded_lem :
      (method : Exec StoredState StoreError (Unit {0})) (s : Store)
      (f : CachedWriteState → Exec Store StoreFailure (Unit {0}))
      → IsCoherent j c s
      → ((w : CachedWriteState) (s' : Store)
          → IsCached j c id w s'.files
          → IsCoherent j c s'
          → Outcome j c method id s'.files (f w s'))
      → (x : Result StoreFailure CachedWriteState × Store) → Loads j c id s x
      → Outcome j c method id s.files (on_loaded j c with f x)
  unfolding on_loaded
  loaded_lem method s f coherent step (err e, s') (unloaded e') =
      unchanged e s coherent (IsSpared-self id s.files) refl
  loaded_lem method s f coherent step (ok w, s') (loaded w' s'' h kept same) =
      subst (λ files. Outcome j c method id files (f w s')) same (step w s' h kept)

  on_loaded-Outcome :
      (method : Exec StoredState StoreError (Unit {0})) (s : Store)
      (f : CachedWriteState → Exec Store StoreFailure (Unit {0}))
      → IsCoherent j c s
      → ((w : CachedWriteState) (s' : Store)
          → IsCached j c id w s'.files
          → IsCoherent j c s'
          → Outcome j c method id s'.files (f w s'))
      → Outcome j c method id s.files (on_loaded j c with f (load_write_state j c with id s))
  on_loaded-Outcome method s f coherent step =
      loaded_lem method s f coherent step _ (load_write_state-Loads j c with id s coherent)

  module _ (timed : with.now ≢ 0) (s : Store) (coherent : IsCoherent j c s) where
    pub append_input_to-Outcome :
        (v : Input)
        → ((n : ℕ)
            → ReadsBack j c (
                of_item (record {
                  item = record {
                    sequence = n;
                    recorded_at = with.now;
                    kind = ItemKind.input;
                    content = of_input v;
                  };
                  operations = [];
                })))
        → Outcome j c (append_input_item j v with.now) id s.files (append_input_to j c with id v s)
    unfolding append_input_to
    append_input_to-Outcome v back = on_loaded-Outcome _ s _ coherent (λ w s' h kept.
        commit-Outcome w s' h kept _ [] _ _ (λ item after e.
          input-Extends j c h.state with.now timed item after v back
            (ap (append_input j v with.now) h.head_is ∙ e)))

    pub append_turn_to-Outcome :
        (v : Turn)
        → ((n : ℕ)
            → ReadsBack j c (
                of_item (record {
                  item = record {
                    sequence = n;
                    recorded_at = with.now;
                    kind = ItemKind.turn;
                    content = of_turn v;
                  };
                  operations = [];
                })))
        → Outcome j c (append_turn_item v with.now) id s.files (append_turn_to j c with id v s)
    unfolding append_turn_to
    append_turn_to-Outcome v back = on_loaded-Outcome _ s _ coherent (λ w s' h kept.
        commit-Outcome w s' h kept _ [] _ _ (λ item after e.
          turn-Extends j c h.state with.now timed item after v back
            (ap (append_turn v with.now) h.head_is ∙ e)))

    pub append_model_response_to-Outcome :
        (v : ModelResponse)
        → ((n : ℕ)
            → ReadsBack j c (
                of_item (record {
                  item = record {
                    sequence = n;
                    recorded_at = with.now;
                    kind = ItemKind.model_response;
                    content = of_model_response v;
                  };
                  operations = [];
                })))
        → Outcome j c
            (append_model_response_item v with.now)
            id
            s.files
            (append_model_response_to j c with id v s)
    unfolding append_model_response_to
    append_model_response_to-Outcome v back = on_loaded-Outcome _ s _ coherent (λ w s' h kept.
        commit-Outcome w s' h kept _ [] _ _ (λ item after e.
          response-Extends j c h.state with.now timed item after v back
            (ap (append_model_response v with.now) h.head_is ∙ e)))

    pub append_tool_call_status_to-Outcome :
        (v : ToolCallStatus)
        → ((n : ℕ)
            → ReadsBack j c (
                of_item (record {
                  item = record {
                    sequence = n;
                    recorded_at = with.now;
                    kind = ItemKind.tool_call_status;
                    content = of_tool_call_status (record v { operations = [] });
                  };
                  operations = v.operations;
                })))
        → Outcome j c
            (append_tool_call_status_item j (record v { operations = [] }) v.operations with.now)
            id
            s.files
            (append_tool_call_status_to j c with id v s)
    unfolding append_tool_call_status_to
    append_tool_call_status_to-Outcome v back =
        let bare = record v { operations = [] } in
        on_loaded-Outcome _ s _ coherent (λ w s' h kept.
          commit-Outcome w s' h kept _ v.operations _ _ (λ item after e.
            status-Extends j c h.state with.now timed item after bare v.operations back
              (ap (append_tool_call_status j bare v.operations with.now) h.head_is ∙ e)))

    pub save_operation_to-Outcome :
        (v : Operation)
        → ReadsBack j c (of_operation v)
        → Outcome j c (save_operation_item j v) id s.files (save_operation_to j c with id v s)
    unfolding save_operation_to
    save_operation_to-Outcome v back = elim (Option-cases (validate_operation j v)) [
      | inr (e, p) ↦
          rw (p, save_operation_to) (unchanged _ s coherent (IsSpared-self id s.files) refl)
      | inl p ↦
          rw (p, save_operation_to)
            (on_loaded-Outcome _ s _ coherent (λ w s' h kept.
              commit_operation-Outcome w s' h kept _ v _ (λ after e.
                operation-Extends j c h.state v after back
                  (ap (save_operation j v) h.head_is ∙ e))))
    ]
