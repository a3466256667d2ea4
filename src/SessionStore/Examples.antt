-- ===== src/SessionStore/Examples.antt =====
-- The session store at concrete records.
use heuristic.Prelude.{
  some, none, pos, ℕ, ◌+◌, ◌++◌, ◌∷◌, map, take, String, ◌≡◌, refl, [], arith, nat_eq, string_eq,
  pair_eq, contains,
}
use heuristic.Prelude.Exec.{ok, err}
use heuristic.Prelude.Map
use heuristic.Inbox.{is_invalid_value}
use heuristic.Fixtures.{plain}
use heuristic.Session.{regular}
use heuristic.SessionStore.{ItemKind, of_turn, of_fork}
use heuristic.SessionStore.Head.{
  SessionHead, save_operation, check_operations, validate_operation, initialize_operations,
  append_turn, wrong_previous_turn,
}
use heuristic.SessionStore.State.{
  StoredState, append_turn_item, new_stored_state, inherit_item, new_session_head,
  fork_stored_state,
}
use heuristic.SessionStore.Replay.{DecodedRecord, of_item, refused, replay_record}
use heuristic.SessionStore.Refusal.{replay_record-refused}
use heuristic.Operation.{Operation, Status, awaiting, completed}
use heuristic.SessionStore.Positions.{Saved, save_outcomes, initialize-HasOperations}
use heuristic.SessionStore.Inherit.{strip, BelongsAt, IsFork, fork_stored_state-IsFork}
use heuristic.SessionStore.Invariant.{
  IsWellFormed, replay_record-IsWellFormed, new_stored_state-IsWellFormed,
}

abbrev pub turn_record : String → String → DecodedRecord
turn_record id previous = of_item (record {
  item = record {
    sequence = 1;
    recorded_at = 7;
    kind = ItemKind.turn;
    content = of_turn (record { id = id; previous_turn_id = previous; type = regular });
  };
  operations = [];
})

abbrev pub empty_session : StoredState
empty_session = new_stored_state "s" 1

abbrev pub one_turn : StoredState
one_turn = (replay_record plain (turn_record "t" "") empty_session).1

item_sequence-one_turn : one_turn.item_sequence ≡ 1
unfolding replay_record append_turn_item append_turn contains
item_sequence-one_turn = refl

replay_record-wrong_previous_turn :
    (replay_record plain (turn_record "u" "x") one_turn).0
    ≡ err (refused (wrong_previous_turn "x" "t"))
unfolding replay_record append_turn_item append_turn contains
replay_record-wrong_previous_turn = refl

replay_record-refused_example : (replay_record plain (turn_record "u" "x") one_turn).1 ≡ one_turn
replay_record-refused_example =
    replay_record-refused plain (turn_record "u" "x") one_turn replay_record-wrong_previous_turn

replay_record-IsWellFormed_example : IsWellFormed plain one_turn
replay_record-IsWellFormed_example =
    replay_record-IsWellFormed plain (turn_record "t" "") empty_session
      (new_stored_state-IsWellFormed plain "s" 1) (omega arith)

abbrev pub forked : StoredState
forked = record {
  head = record (new_session_head "f" 2) {
    item_sequence = 2;
    latest_turn_id = "t";
    turns = "t" ∷ [];
  };
  items =
      one_turn.items
      ++ record {
        sequence = 2;
        recorded_at = 2;
        kind = ItemKind.fork;
        content = of_fork (record { parent_id = "s"; previous_turn_id = "t" });
      }
        ∷ [];
}

pub fork_stored_state-one_turn : fork_stored_state one_turn "f" "t" 2 ≡ ok forked
unfolding fork_stored_state replay_record append_turn_item append_turn contains inherit_item
fork_stored_state-one_turn = refl

fork_stored_state-IsFork_example :
    (n : ℕ) × BelongsAt "t" one_turn.items n
    × IsFork
        (record { parent_id = "s"; previous_turn_id = "t" })
        2
        (map strip (take (n + 1) one_turn.items))
        forked
unfolding replay_record append_turn_item append_turn contains
fork_stored_state-IsFork_example =
    fork_stored_state-IsFork one_turn "f" "t" 2 fork_stored_state-one_turn

abbrev sleep : Status → Operation
sleep status = record {
  max_output_length = pos 1;
  id = "o";
  type = "sleep";
  version = 1;
  status = status;
  state = some "1";
  idempotency = none;
}

abbrev sleeping : SessionHead
sleeping = initialize_operations (sleep awaiting ∷ []) (new_session_head "s" 1)

check_operations-sleep : check_operations plain [] [] (sleep awaiting ∷ []) ≡ none
unfolding check_operations validate_operation is_invalid_value Map.lookup contains
check_operations-sleep = refl

save_outcomes_example :
    Saved plain (sleep completed) sleeping (save_operation plain (sleep completed) sleeping)
save_outcomes_example = save_outcomes plain (sleep completed) sleeping (
    initialize-HasOperations plain (sleep awaiting ∷ []) (new_session_head "s" 1)
      check_operations-sleep (new_stored_state-IsWellFormed plain "s" 1).consistent.operations)
