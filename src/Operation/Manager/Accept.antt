-- ===== src/Operation/Manager/Accept.antt =====
-- `acceptLocalStep` of harness/operation/local_manager.go. A dispatch that cannot be started is
-- handed back to the operation as a failure, whose step is accepted in turn.
use heuristic.Prelude.{
  ℕ, zero, suc, ◌+◌, String, Bool, Option, none, some, List, [], ◌∷◌, if◌then◌else◌,
}
use mathlib.Core.Option
use heuristic.Prelude.Bytes.{Bytes}
use heuristic.Prelude.Exec.{Result, ok, err}
use heuristic.Operation.{Operation, is_terminal}
use heuristic.Operation.Step.{Step, Dispatch, OperationError, error_text, unstartable}
use heuristic.Operation.Machine.{Machine, failed_start}
use heuristic.Operation.Manager.{
  is_startable, local, Running, Manager, append_update, put, delete, fail_operation,
}

module _ (m : Machine) (format : OperationError → Bytes) where
  open m use {Actor, initialize, handle, fail}

  abbrev pub Accepted : Type 0
  Accepted = Option (ℕ × Manager m)

  abbrev pub local_running : Operation → Bool → Actor → Running m
  local_running v canceled a = record { operation = v; canceled = canceled; runner = local a }

  -- What is done with the answer to a dispatch that could not be started, after `n` that could.
  unfoldable pub start_failed :
      (Actor → Operation → Step → Manager m → Accepted)
      → String
      → Bool
      → Operation
      → ℕ
      → Manager m
      → Result OperationError Step × Actor
      → Accepted
  start_failed again id canceled v n s (err e, a) =
      Option.map (λ s. (n, s)) (fail_operation m v e (put m id (local_running v canceled a) s))
  start_failed again id canceled v n s (ok step, a) =
      Option.map (λ r. (n + r.0, r.1)) (again a v step (put m id (local_running v canceled a) s))

  -- The loop over the dispatches of a step.
  unfoldable pub start_all :
      (Actor → Operation → Step → Manager m → Accepted)
      → String
      → Bool
      → Actor
      → Operation
      → List Dispatch
      → ℕ
      → Manager m
      → Accepted
  unfolding start_failed
  start_all again id canceled a v [] n s = some (n, s)
  start_all again id canceled a v (d ∷ ds) n s =
      let rest = start_all again id canceled a v ds (n + 1) s in
      if is_startable d.type d.content
      then rest
      else start_failed again id canceled v n s
          (handle a v (some (failed_start v (error_text format (unstartable d.type)))))

  -- `acceptLocalStep`: the number of primitives that it started.
  unfoldable pub accept_step : ℕ → String → Bool → Actor → Operation → Step → Manager m → Accepted
  accept_step zero id canceled a v step s = none
  accept_step (suc fuel) id canceled a v step s = elim step.operation [
    | none ↦
        start_all (accept_step fuel id canceled) id canceled a v step.dispatches 0
          (put m id (local_running v canceled a) s)
    | some next ↦
        let s' = append_update m next (put m id (local_running next canceled a) s) in
        if is_terminal next.status
        then some (0, delete m next.id s')
        else start_all (accept_step fuel id canceled) id canceled a next step.dispatches 0 s'
  ]
