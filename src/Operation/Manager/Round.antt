-- ===== src/Operation/Manager/Round.antt =====
-- One round of the select of `run` (harness/operation/local_manager.go), by what it receives.
use heuristic.Prelude.{
  ℕ, zero, String, Bool, true, false, ◌&&◌, not, Option, none, some, List, [], ◌∷◌, ◌++◌, map,
  if◌then◌else◌, ◌==◌, nat_eq, string_eq, contains, set, ℤ, pos,
}
use heuristic.Prelude.Bytes.{Bytes}
use heuristic.Prelude.Exec.{Result, ok, err}
use heuristic.Prelude.Map
use heuristic.Primitive.{PrimitiveEvent, EventType, absent}
use heuristic.Operation.{Operation, is_terminal}
use heuristic.Operation.Step.{
  Step, OperationError, error_text, is_panic, handler_stopped, wrong_handler, joined,
}
use heuristic.Operation.Machine.{Machine}
use heuristic.Operation.RemoteJob.{
  Library, Handler, add_remote_job, cancel_remote, validate_remote_job_update,
}
use heuristic.Operation.Manager.{
  is_completion, decrement, increase, Runner, local, remote, Running, Manager, append_update, put,
  delete, fail_operation,
}
use heuristic.Operation.Manager.Accept.{local_running, accept_step}

-- What the select receives; a request carries the channel of its answer.
pub data Received : Type 0 where
  -- The reader of `Updates` takes the first pending update.
  takes : Received
  adds : Operation → Received
  cancels : String → Bytes → Received
  -- An update from the handler at an index; `none` when it closed its channel.
  reports : ℕ → Option Operation → Received
  primitive : PrimitiveEvent → Received

module _ (m : Machine) (l : Library) (handlers : List (Option Handler)) where
  open m use {Actor, initialize, handle, fail}

  -- The answer to a request, if there is one, and the state after the round.
  abbrev pub Answer : Type 0
  Answer = Option OperationError × Option (Manager m)

  unfoldable pub take_update : List Operation → Manager m → Manager m
  take_update [] s = s
  take_update (v ∷ rest) s = record s { pending_updates = rest; sent = s.sent ++ v ∷ [] }

  -- The depth to which `acceptLocalStep` may call itself.
  abbrev pub accept_fuel : ℕ
  accept_fuel = 2

  -- `activePrimitives += manager.acceptLocalStep(...)`
  unfoldable pub accept_counted :
      String → Bool → Actor → Operation → Step → Manager m → Option (Manager m)
  accept_counted id canceled a v step s =
      elim (accept_step m l.format accept_fuel id canceled a v step s) [
        | none ↦ none
        | some (n, s') ↦ some (record s' { active_primitives = increase s'.active_primitives n })
      ]

  -- What a request that an error refuses leaves.
  abbrev pub answer_error : OperationError → Manager m → Answer
  answer_error e s = (some e, if is_panic e then none else some s)

  unfoldable pub add_step : Operation → Manager m → Result OperationError Step × Actor → Answer
  add_step v s (err e, a) = answer_error e s
  add_step v s (ok step, a) = (
    none,
    accept_counted v.id false a v step (
        put m v.id (local_running m l.format v false a)
          (record s { accepted = v.id ∷ s.accepted })),
  )

  unfoldable pub add_local : Operation → Manager m → Result OperationError Actor → Answer
  unfolding add_step
  add_local v s (err e) = answer_error e s
  add_local v s (ok a) = add_step v s (handle a v none)

  unfoldable pub add_remote : Operation → Manager m → Result OperationError ℕ → Answer
  add_remote v s (err e) = answer_error e s
  add_remote v s (ok index) = (
    none,
    some (
        put m v.id (record { operation = v; canceled = false; runner = remote index })
          (record s { accepted = v.id ∷ s.accepted })),
  )

  -- The case of `adds`.
  unfoldable pub receive_add : Operation → Manager m → Answer
  unfolding add_local add_remote
  receive_add v s =
      if contains s.accepted v.id
      then (none, some s)
      else if v.type == "remote_job"
      then add_remote v s (add_remote_job l handlers s.closed v)
      else add_local v s (initialize v)

  unfoldable pub cancel_running : String → Bytes → Option (Running m) → Manager m → Answer
  cancel_running id reason none s = (none, some s)
  cancel_running id reason (some current) s = elim current.runner [
    | remote index ↦ elim (cancel_remote handlers index id reason) [
      | none ↦ (none, some s)
      | some e ↦ answer_error e s
    ]
    | local a ↦ (none, some (put m id (record current { canceled = true }) s))
  ]

  -- The case of `cancellations`.
  unfoldable pub receive_cancel : String → Bytes → Manager m → Answer
  unfolding cancel_running
  receive_cancel id reason s = cancel_running id reason (Map.lookup id s.operations) s

  unfoldable pub runs_on : ℕ → Runner m → Bool
  runs_on index (local a) = false
  runs_on index (remote i) = i == index

  unfoldable pub fail_stopped : ℕ → Option (Running m) → Manager m → Option (Manager m)
  unfolding runs_on
  fail_stopped index none s = some s
  fail_stopped index (some current) s =
      if runs_on index current.runner
      then fail_operation m current.operation (handler_stopped index) s
      else some s

  -- The loop over the operations of a handler that stopped. A key that is deleted is not visited.
  unfoldable pub fail_each : ℕ → List String → Manager m → Option (Manager m)
  unfolding fail_stopped
  fail_each index [] s = some s
  fail_each index (id ∷ rest) s =
      let next = λ (t : Manager m). fail_each index rest t in
      elim (fail_stopped index (Map.lookup id s.operations) s) [ none ↦ none | some t ↦ next t ]

  -- The handler that `failRemoteJobOperation` cancels at: that of the operation. An operation that
  -- no handler runs has the index -1, and the access panics.
  unfoldable pub cancel_cause : Runner m → String → OperationError → Option OperationError
  cancel_cause (local a) id cause = none
  cancel_cause (remote index) id cause =
      elim (cancel_remote handlers index id (error_text l.format cause)) [
        | none ↦ some cause
        | some e ↦ some (joined cause e)
      ]

  -- `failRemoteJobOperation`
  unfoldable pub fail_remote_operation : Running m → OperationError → Manager m → Option (Manager m)
  unfolding cancel_cause
  fail_remote_operation current cause s =
      elim (cancel_cause current.runner current.operation.id cause) [
        | none ↦ none
        | some e ↦ fail_operation m current.operation e s
      ]

  unfoldable pub accept_update : Operation → Running m → Manager m → Manager m
  accept_update updated current s =
      let s' =
        append_update m updated (put m updated.id (record current { operation = updated }) s) in
      if is_terminal updated.status then delete m updated.id s' else s'

  unfoldable pub report_running :
      ℕ → Operation → Option (Running m) → Manager m → Option (Manager m)
  unfolding runs_on
  report_running index updated none s = some s
  report_running index updated (some current) s =
      if not (runs_on index current.runner)
      then fail_remote_operation current (wrong_handler updated.id) s
      else elim (validate_remote_job_update l current.operation updated) [
        | some e ↦ fail_remote_operation current e s
        | none ↦ some (accept_update updated current s)
      ]

  -- The case of `remoteJobs.updates`.
  unfoldable pub receive_report : ℕ → Option Operation → Manager m → Option (Manager m)
  unfolding report_running
  receive_report index none s =
      fail_each index (map (λ e. e.0) s.operations) (record s { closed = set s.closed index true })
  receive_report index (some updated) s =
      report_running index updated (Map.lookup updated.id s.operations) s

  unfoldable pub handled :
      String
      → Bool
      → Operation
      → Manager m
      → Result OperationError Step × Actor
      → Option (Manager m)
  handled id canceled v s (err e, a) =
      fail_operation m v e (put m id (local_running m l.format v canceled a) s)
  handled id canceled v s (ok step, a) = accept_counted id canceled a v step s

  -- An event for an operation whose context is canceled counts as a cancellation.
  abbrev pub canceled_event : Bool → PrimitiveEvent → PrimitiveEvent
  canceled_event b e = if b then record e { type = EventType.canceled; result = absent } else e

  unfoldable pub handle_running :
      PrimitiveEvent → Option (Running m) → Manager m → Option (Manager m)
  unfolding handled
  handle_running e none s = some s
  handle_running e (some current) s = elim current.runner [
    | remote index ↦ none
    | local a ↦ handled e.source current.canceled current.operation s (
        handle a current.operation
          (some (canceled_event (is_completion e.type && current.canceled) e)))
  ]

  -- The case of `primitiveEvents`.
  unfoldable pub receive_primitive : PrimitiveEvent → Manager m → Option (Manager m)
  unfolding handle_running
  receive_primitive e s = handle_running e (Map.lookup e.source s.operations) (
      if is_completion e.type
      then record s { active_primitives = decrement s.active_primitives }
      else s)

  -- One round.
  unfoldable pub round : Received → Manager m → Answer
  unfolding take_update
  round takes s = (none, some (take_update s.pending_updates s))
  round (adds v) s = receive_add v s
  round (cancels id reason) s = receive_cancel id reason s
  round (reports index v) s = (none, receive_report index v s)
  round (primitive e) s = (none, receive_primitive e s)

  -- The state after any rounds.
  unfoldable pub rounds : List Received → Manager m → Option (Manager m)
  unfolding round
  rounds [] s = some s
  rounds (r ∷ rs) s = elim (round r s).1 [ none ↦ none | some t ↦ rounds rs t ]

-- `drainLocalPrimitives`, over the events that it reads: those left, once no primitive is active.
unfoldable pub drain : ℤ → List PrimitiveEvent → Option (List PrimitiveEvent)
drain (pos zero) es = some es
drain active [] = none
drain active (e ∷ es) = drain (if is_completion e.type then decrement active else active) es
