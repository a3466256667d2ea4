-- ===== src/Restart/Examples.antt =====
-- A session with one input, resumed.
use heuristic.Prelude.{
  String, ◌≡◌, refl, some, List, [], ◌∷◌, ◌++◌, arith, nat_eq, string_eq, pair_eq,
}
use heuristic.Prelude.Exec.{ok}
use heuristic.Fixtures.{plain}
use heuristic.Inbox.{Input, external, validate}
use heuristic.SessionStore.{Item, ItemKind, of_input, ResumeState}
use heuristic.SessionStore.State.{append_input_item, StoredState, new_stored_state, resume}
use heuristic.SessionStore.Replay.{replay_item, DecodedRecord, of_item, replay}
use heuristic.SessionStore.Head.{append_input}
use heuristic.SessionStore.Invariant.{IsWellFormed, new_stored_state-IsWellFormed}
use heuristic.SessionStore.Resume.{external_ids, resumable, resume_lem}
use heuristic.SessionStore.Log.{replay-IsWellFormed}
use heuristic.Inbox.Queue.{Inbox, submits, new, run}
use heuristic.Inbox.Order.{Fresh}
use heuristic.Restart.{resume-Fresh}

abbrev input : String → Input
input id = record { id = id; kind = external; payload = some "hello" }

abbrev input_item : Item
input_item = record {
  sequence = 1;
  recorded_at = 7;
  kind = ItemKind.input;
  content = of_input (input "i");
}

abbrev records : List DecodedRecord
records = of_item (record { item = input_item; operations = [] }) ∷ []

abbrev recorded_session : StoredState
recorded_session = record {
  head = record (new_stored_state "s" 1).head { item_sequence = 1 };
  items = input_item ∷ [];
}

abbrev resumed : ResumeState
resumed = record {
  snapshot = recorded_session.snapshot;
  operations = [];
  external_input_ids = "i" ∷ [];
}

abbrev inbox : Inbox
inbox = record { seen = "i" ∷ []; queued = []; delivered = [] }

replay-records : replay plain 0 0 records (new_stored_state "s" 1) ≡ ok recorded_session
unfolding replay replay_item append_input_item append_input validate
replay-records = refl

resume-recorded : resume recorded_session ≡ ok resumed
unfolding resume
resume-recorded = refl

new-resumed : new resumed.external_input_ids ≡ ok inbox
unfolding new
new-resumed = refl

replay-IsWellFormed_example : IsWellFormed plain recorded_session
replay-IsWellFormed_example =
    replay-IsWellFormed plain records 0 (new_stored_state "s" 1)
      (new_stored_state-IsWellFormed plain "s" 1) (omega arith) replay-records

resume_example :
    resume recorded_session
    ≡ ok (record {
      snapshot = recorded_session.snapshot;
      operations = resumable recorded_session.items recorded_session.operations;
      external_input_ids = external_ids recorded_session.items;
    })
resume_example = resume_lem recorded_session (tt, tt)

resume-Fresh_example : Fresh ("i" ∷ []) (
    (run plain (submits (input "i") ∷ submits (input "j") ∷ []) inbox).delivered
    ++ (run plain (submits (input "i") ∷ submits (input "j") ∷ []) inbox).queued)
resume-Fresh_example =
    resume-Fresh plain recorded_session (submits (input "i") ∷ submits (input "j") ∷ []) (tt, tt)
      resume-recorded new-resumed
