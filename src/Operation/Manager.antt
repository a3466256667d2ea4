-- ===== src/Operation/Manager.antt =====
-- harness/operation/local_manager.go: the actor loop that runs operations and queues their updates.
-- A round of its select is a function of what it receives; `Option` is `none` where the code panics,
-- or where `acceptLocalStep` calls itself deeper than the fuel.
pub mod Accept
pub mod Round
pub mod Log
pub mod Sound
pub mod Steps
pub mod Returns
pub mod Rounds
pub mod Reports
pub mod Runs
pub mod Fuel
use heuristic.Prelude.{
  ℕ, zero, suc, ◌+◌, String, Bool, true, false, ◌&&◌, not, Option, none, some, List, [], ◌∷◌, ◌++◌,
  map, if◌then◌else◌, ◌==◌, nat_eq, string_eq, contains, set, ℤ, pos, negsuc, sub_ℕ,
}
use heuristic.Prelude.Bytes.{Bytes}
use heuristic.Prelude.Exec.{Result, ok, err}
use heuristic.Prelude.Map
use heuristic.Primitive.{
  PrimitiveEvent, EventType, io_create_completed, io_read_completed, process_exited,
  compute_completed, absent, DispatchType, DispatchData, of_create, of_read, of_start, of_compute,
  process_start, io_create, io_read, compute,
}
use heuristic.Operation.{Operation, is_terminal}
use heuristic.Operation.Step.{
  Step, Dispatch, OperationError, error_text, is_panic, unstartable, handler_stopped, wrong_handler,
}
use heuristic.Operation.Machine.{Machine, failed_start}
use heuristic.Operation.RemoteJob.{
  Library, Handler, add_remote_job, cancel_remote, validate_remote_job_update,
}

-- `localPrimitiveCompleted`
unfoldable pub is_completion : EventType → Bool
is_completion io_create_completed = true
is_completion io_read_completed = true
is_completion process_exited = true
is_completion EventType.failed = true
is_completion EventType.canceled = true
is_completion compute_completed = true
is_completion type = false

-- Does `startLocalPrimitive` start the primitive, rather than return an error?
unfoldable pub is_startable : DispatchType → DispatchData → Bool
is_startable io_create (of_create r) = true
is_startable io_read (of_read r) = true
is_startable process_start (of_start r) = true
is_startable compute (of_compute r) = true
is_startable type d = false

-- `activePrimitives--`
unfoldable pub decrement : ℤ → ℤ
decrement (pos zero) = negsuc 0
decrement (pos (suc n)) = pos n
decrement (negsuc n) = negsuc (n + 1)

unfoldable pub increase : ℤ → ℕ → ℤ
increase (pos n) k = pos (n + k)
increase (negsuc n) k = sub_ℕ k (n + 1)

module _ (m : Machine) where
  open m use {Actor, initialize, handle, fail}

  -- `localRunningOperation`: a remote job has the index of its handler, any other its machine.
  pub data Runner : Type 0 where
    local : Actor → Runner
    remote : ℕ → Runner

  pub record Running : Type 0 where
    pub operation : Operation
    pub canceled : Bool
    pub runner : Runner

  -- The state of `run`, with the updates that were sent.
  pub record Manager : Type 0 where
    pub operations : List (String × Running)
    pub accepted : List String
    pub pending_updates : List Operation
    pub sent : List Operation
    pub active_primitives : ℤ
    pub closed : List Bool

  -- `NewLocalOperationManager`
  abbrev pub new_manager : List (Option Handler) → Manager
  new_manager handlers = record {
    operations = [];
    accepted = [];
    pending_updates = [];
    sent = [];
    active_primitives = pos 0;
    closed = map (λ h. false) handlers;
  }

  -- `appendLocalUpdate`
  abbrev pub append_update : Operation → Manager → Manager
  append_update v s = record s { pending_updates = s.pending_updates ++ v ∷ [] }

  -- `current` is written through its pointer.
  abbrev pub put : String → Running → Manager → Manager
  put id current s = record s { operations = Map.insert id current s.operations }

  abbrev pub delete : String → Manager → Manager
  delete id s = record s { operations = Map.erase id s.operations }

  -- `failLocalOperation` of the manager; a panic ends the manager before.
  unfoldable pub fail_operation : Operation → OperationError → Manager → Option Manager
  fail_operation current e s = if is_panic e then none else elim (fail current e) [
    | none ↦ none
    | some failed ↦ some (delete current.id (append_update failed s))
  ]
