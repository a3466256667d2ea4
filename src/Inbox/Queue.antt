-- ===== src/Inbox/Queue.antt =====
-- harness/inbox/local.go: the session's deduplicating queue. `run` is one goroutine over two
-- channels, so its behaviour is a sequence of receives from `submissions` and sends to `output`.
use heuristic.Prelude.{
  String, none, some, List, [], ◌∷◌, ◌++◌, if◌then◌else◌, ◌==◌, nat_eq, string_eq, pair_eq,
  contains,
}
use heuristic.Prelude.Exec.{Result, ok, err}
use heuristic.Json.{Json}
use heuristic.Inbox.{Input, InputError, empty_id, validate}

pub record Inbox : Type 0 where
  pub seen : List String
  pub queued : List Input
  -- What was sent to the output channel so far, oldest first.
  pub delivered : List Input

-- The loop of `New` over the seen IDs.
unfoldable pub collect_seen : List String → List String → Result InputError (List String)
collect_seen seen [] = ok seen
collect_seen seen (id ∷ ids) =
    let rest = collect_seen (id ∷ seen) ids in if id == "" then err empty_id else rest

unfoldable pub start : Result InputError (List String) → Result InputError Inbox
start (err e) = err e
start (ok seen) = ok (record { seen = seen; queued = []; delivered = [] })

-- `New`
unfoldable pub new : List String → Result InputError Inbox
unfolding collect_seen start
new ids = start (collect_seen [] ids)

-- The first case of `run`'s select.
unfoldable pub receive : Input → Inbox → Inbox
receive input s =
    if contains s.seen input.id
    then s
    else record s { seen = input.id ∷ s.seen; queued = s.queued ++ input ∷ [] }

-- The second case; with nothing queued the output channel is nil, so the case is never ready.
unfoldable pub send : List Input → Inbox → Inbox
send [] s = s
send (next ∷ rest) s = record s { queued = rest; delivered = s.delivered ++ next ∷ [] }

unfoldable pub deliver : Inbox → Inbox
unfolding send
deliver s = send s.queued s

-- `Submit` refuses an invalid input, and hands a valid one to the loop.
unfoldable pub submit : Json → Input → Inbox → Inbox
unfolding receive
submit j input s = elim (validate j input) [ none ↦ receive input s | some e ↦ s ]

-- What the writers and the reader of the two channels do, in any order.
pub data Event : Type 0 where
  submits : Input → Event
  takes : Event

unfoldable pub step : Json → Event → Inbox → Inbox
unfolding submit deliver
step j (submits input) s = submit j input s
step j takes s = deliver s

unfoldable pub run : Json → List Event → Inbox → Inbox
unfolding step
run j [] s = s
run j (e ∷ es) s = run j es (step j e s)
