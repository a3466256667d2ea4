-- ===== src/SessionStore/Files/Requests.antt =====
-- The calls that change a `Store`, one after another.
use heuristic.Prelude.{ℕ, String, ◌≡◌, ◌≢◌, none, List, [], ◌∷◌, arith, nat_eq, string_eq, pair_eq}
use heuristic.Prelude.Map
use heuristic.Prelude.Bytes.{Bytes}
use heuristic.Prelude.Exec.{Result, err, Exec}
use heuristic.Json.{Json}
use heuristic.Operation.{Operation}
use heuristic.Session.{Turn}
use heuristic.Inbox.{Input}
use heuristic.SessionStore.{
  Snapshot, ItemKind, of_input, of_turn, of_model_response, of_tool_call_status, ModelResponse,
  ToolCallStatus,
}
use heuristic.SessionStore.Head.{StoreError}
use heuristic.SessionStore.State.{
  StoredState, append_input_item, append_turn_item, append_model_response_item,
  append_tool_call_status_item,
}
use heuristic.SessionStore.Replay.{of_item, of_operation, save_operation_item}
use heuristic.SessionStore.Codec.{LogCodec}
use heuristic.SessionStore.Codec.Laws.{IsLogCodec, ReadsBack}
use heuristic.SessionStore.Files.{
  CachedWriteState, Conditions, Store, StoreFailure, new, add_observer, remove_observer,
}
use heuristic.SessionStore.Files.Calls.{
  append_input_to, append_turn_to, append_model_response_to, append_tool_call_status_to,
  save_operation_to, create, fork,
}
use heuristic.SessionStore.Files.Coherent.{IsCoherent}
use heuristic.SessionStore.Files.Saved.{Outcome, unchanged, saved}
use heuristic.SessionStore.Files.Appends.{
  append_input_to-Outcome, append_turn_to-Outcome, append_model_response_to-Outcome,
  append_tool_call_status_to-Outcome, save_operation_to-Outcome,
}
use heuristic.SessionStore.Files.Published.{
  Publishes, withheld, placed, HasReadItems, create-Publishes, fork-Publishes,
}

-- What a call appends to the log of a session.
pub data Addition : Type 0 where
  an_input : Input → Addition
  a_turn : Turn → Addition
  a_response : ModelResponse → Addition
  a_status : ToolCallStatus → Addition
  an_operation : Operation → Addition

-- The method of `storedState` for it.
abbrev pub method_of : Json → ℕ → Addition → Exec StoredState StoreError (Unit {0})
method_of j at (an_input v) = append_input_item j v at
method_of j at (a_turn v) = append_turn_item v at
method_of j at (a_response v) = append_model_response_item v at
method_of j at (a_status v) =
    append_tool_call_status_item j (record v { operations = [] }) v.operations at
method_of j at (an_operation v) = save_operation_item j v

pub data StoreRequest : Type 0 where
  adds : String → Addition → StoreRequest
  creates : String → StoreRequest
  forks : String → String → String → StoreRequest
  observes unobserves : String → StoreRequest

module _ (j : Json) (c : LogCodec) where
  unfoldable pub carry_out : Conditions → String → Addition → Exec Store StoreFailure (Unit {0})
  unfolding append_input_to append_turn_to append_model_response_to append_tool_call_status_to
      save_operation_to
  carry_out with id (an_input v) s = append_input_to j c with id v s
  carry_out with id (a_turn v) s = append_turn_to j c with id v s
  carry_out with id (a_response v) s = append_model_response_to j c with id v s
  carry_out with id (a_status v) s = append_tool_call_status_to j c with id v s
  carry_out with id (an_operation v) s = save_operation_to j c with id v s

  unfoldable pub serve : StoreRequest → Conditions → Store → Store
  unfolding carry_out create fork add_observer remove_observer
  serve (adds id v) with s = (carry_out with id v s).1
  serve (creates id) with s = (create j c with id s).1
  serve (forks id parent_id previous) with s = (fork j c with id parent_id previous s).1
  serve (observes id) with s = add_observer id s
  serve (unobserves id) with s = remove_observer id s

  unfoldable pub serve_all : List (StoreRequest × Conditions) → Store → Store
  unfolding serve
  serve_all [] s = s
  serve_all ((r, with) ∷ rs) s = serve_all rs (serve r with s)

  -- The record of an addition is read back as it was written, whatever its number.
  abbrev pub IsSteady : ℕ → Addition → Type 0
  IsSteady at (an_input v) =
      (n : ℕ)
      → ReadsBack j c (
          of_item (record {
            item = record {
              sequence = n;
              recorded_at = at;
              kind = ItemKind.input;
              content = of_input v;
            };
            operations = [];
          }))
  IsSteady at (a_turn v) =
      (n : ℕ)
      → ReadsBack j c (
          of_item (record {
            item = record {
              sequence = n;
              recorded_at = at;
              kind = ItemKind.turn;
              content = of_turn v;
            };
            operations = [];
          }))
  IsSteady at (a_response v) =
      (n : ℕ)
      → ReadsBack j c (
          of_item (record {
            item = record {
              sequence = n;
              recorded_at = at;
              kind = ItemKind.model_response;
              content = of_model_response v;
            };
            operations = [];
          }))
  IsSteady at (a_status v) =
      (n : ℕ)
      → ReadsBack j c (
          of_item (record {
            item = record {
              sequence = n;
              recorded_at = at;
              kind = ItemKind.tool_call_status;
              content = of_tool_call_status (record v { operations = [] });
            };
            operations = v.operations;
          }))
  IsSteady at (an_operation v) = ReadsBack j c (of_operation v)

  -- What a request writes is read back as it was written: the record that it adds, or the items of
  -- the fork that it makes of a session as the files hold it.
  abbrev pub IsRead : StoreRequest → Conditions → List (String × Bytes) → Type 0
  IsRead (adds id v) with files = IsSteady with.now v
  IsRead (creates id) with files = Unit
  IsRead (forks id parent_id previous) with files =
      HasReadItems j c with.now id parent_id previous files
  IsRead (observes id) with files = Unit
  IsRead (unobserves id) with files = Unit

  -- And so it is along calls, at times that are not zero.
  abbrev pub AllRead : List (StoreRequest × Conditions) → Store → Type 0
  AllRead [] s = Unit
  AllRead ((r, with) ∷ rs) s = (with.now ≢ 0) × IsRead r with s.files × AllRead rs (serve r with s)

  -- On a store whose cache is in order, where encoding/json reads back the lines that it makes and
  -- reads back the added record as it was written, which it does of no raw JSON with white space,
  -- and where the time is not zero, each of the four appends and `SaveOperation` leaves the cache
  -- in order and every other session's file as it was; it fails and leaves the state that the
  -- session's file holds as it was, or that state is afterwards what the method of `storedState`
  -- makes of it, which succeeds, and so it is whenever the call succeeds.
  pub carry_out-Outcome :
      (laws : IsLogCodec j c) (with : Conditions) (id : String) (v : Addition) (s : Store)
      → with.now ≢ 0
      → IsSteady with.now v
      → IsCoherent j c s
      → Outcome j c (method_of j with.now v) id s.files (carry_out with id v s)
  unfolding carry_out
  carry_out-Outcome laws with id (an_input v) s timed back coherent =
      append_input_to-Outcome j c laws with id timed s coherent v back
  carry_out-Outcome laws with id (a_turn v) s timed back coherent =
      append_turn_to-Outcome j c laws with id timed s coherent v back
  carry_out-Outcome laws with id (a_response v) s timed back coherent =
      append_model_response_to-Outcome j c laws with id timed s coherent v back
  carry_out-Outcome laws with id (a_status v) s timed back coherent =
      append_tool_call_status_to-Outcome j c laws with id timed s coherent v back
  carry_out-Outcome laws with id (an_operation v) s timed back coherent =
      save_operation_to-Outcome j c laws with id timed s coherent v back

  outcome_lem :
      (method : Exec StoredState StoreError (Unit {0})) (id : String)
      (files : List (String × Bytes)) (x : Result StoreFailure (Unit {0}) × Store)
      → Outcome j c method id files x
      → IsCoherent j c x.1
  outcome_lem method id files (err e, s) (unchanged e' s' coherent spared same) = coherent
  outcome_lem method id files (r, s) (saved r' s' t last coherent spared was is now) = coherent

  publishes_lem :
      (made : StoredState → Type 0) (id : String) (files : List (String × Bytes))
      (x : Result StoreFailure Snapshot × Store)
      → Publishes j c made id files x
      → IsCoherent j c x.1
  publishes_lem made id files (err e, s) (withheld e' s' coherent same) = coherent
  publishes_lem made id files (r, s) (placed r' s' t coherent spared is now) = coherent

  serve-IsCoherent :
      (laws : IsLogCodec j c) (r : StoreRequest) (with : Conditions) (s : Store)
      → with.now ≢ 0
      → IsRead r with s.files
      → IsCoherent j c s
      → IsCoherent j c (serve r with s)
  unfolding serve add_observer remove_observer
  serve-IsCoherent laws (adds id v) with s timed back coherent =
      outcome_lem _ id s.files _ (carry_out-Outcome laws with id v s timed back coherent)
  serve-IsCoherent laws (creates id) with s timed back coherent =
      publishes_lem _ id s.files _ (create-Publishes j c laws with id s timed coherent)
  serve-IsCoherent laws (forks id parent_id previous) with s timed back coherent =
      publishes_lem _ id s.files _
        (fork-Publishes j c laws with id parent_id previous s timed back coherent)
  serve-IsCoherent laws (observes id) with s timed back coherent = coherent
  serve-IsCoherent laws (unobserves id) with s timed back coherent = coherent

  serve_all_lem :
      (laws : IsLogCodec j c) (rs : List (StoreRequest × Conditions)) (s : Store)
      → AllRead rs s
      → IsCoherent j c s
      → IsCoherent j c (serve_all rs s)
  unfolding serve_all
  serve_all_lem laws [] s back coherent = coherent
  serve_all_lem laws ((r, with) ∷ rs) s back coherent =
      let (timed, read, rest) = back in
      serve_all_lem laws rs (serve r with s) rest
        (serve-IsCoherent laws r with s timed read coherent)

  -- Where encoding/json reads back the header of a session and the lines that it makes, and reads
  -- back as they were written the records that the calls add and the items of the forks that they
  -- make, which it does of no raw JSON with white space, and where no time is zero, every entry of
  -- the write-state cache of a new store is, after any calls of it under any conditions, the head
  -- and the committed size that reading the session's file gives, and the file is that session's.
  pub serve_all-IsCoherent :
      (laws : IsLogCodec j c) (files : List (String × Bytes))
      (rs : List (StoreRequest × Conditions))
      → AllRead rs (new files)
      → IsCoherent j c (serve_all rs (new files))
  serve_all-IsCoherent laws files rs back = serve_all_lem laws rs (new files) back (λ id w e.
      absurd (
        let p : Map.lookup {V = CachedWriteState} id [] ≡ none = Map.lookup-nil id in ground arith))
