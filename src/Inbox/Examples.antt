-- ===== src/Inbox/Examples.antt =====
-- Runs of the inbox at concrete inputs.
use heuristic.Prelude.{
  String, ◌≡◌, refl, some, List, [], ◌∷◌, ◌++◌, nat_eq, string_eq, pair_eq, contains,
}
use heuristic.Prelude.Exec.{ok}
use heuristic.Fixtures.{plain}
use heuristic.Inbox.{validate, Input, InputKind, external, crash}
use heuristic.Inbox.Queue.{Inbox, Event, submits, takes, run, new}
use heuristic.Inbox.Order.{run-first_submissions, run-Fresh, first_submissions, Fresh}

abbrev input_of : String → InputKind → Input
input_of id kind = record { id = id; kind = kind; payload = some "1" }

abbrev started : Inbox
started = record { seen = "old" ∷ []; queued = []; delivered = [] }

new-started : new ("old" ∷ []) ≡ ok started
unfolding new
new-started = refl

-- A redelivery, an input of an earlier run and an input with no ID are dropped.
abbrev script : List Event
script =
    submits (input_of "a" external)
    ∷ submits (input_of "old" external)
    ∷ takes
    ∷ submits (input_of "" crash)
    ∷ submits (input_of "b" crash)
    ∷ submits (input_of "a" external)
    ∷ []

queued-run : (run plain script started).queued ≡ input_of "b" crash ∷ []
unfolding run contains validate
queued-run = refl

run-first_submissions_example :
    (run plain script started).delivered ++ (run plain script started).queued
    ≡ first_submissions plain ("old" ∷ []) script
run-first_submissions_example = run-first_submissions plain ("old" ∷ []) script new-started

run-Fresh_example :
    Fresh ("old" ∷ []) ((run plain script started).delivered ++ (run plain script started).queued)
run-Fresh_example = run-Fresh plain ("old" ∷ []) script new-started
