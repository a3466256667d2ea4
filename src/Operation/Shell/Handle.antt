-- ===== src/Operation/Shell/Handle.antt =====
-- The machine of harness/operation/shell.go: `Handle`, by the status of the operation.
use heuristic.Prelude.{
  Bool, false, not, Option, none, some, if◌then◌else◌, ◌==◌, nat_eq, string_eq, length,
}
use heuristic.Prelude.Exec.{Result, ok, err}
use heuristic.Primitive.{PrimitiveEvent, EventType}
use heuristic.Operation.{Operation, Status, ready, awaiting, canceling, failed}
use heuristic.Operation.Machine.{Machine}
use heuristic.Operation.Step.{
  Step, OperationError, is_panic, invalid_phase, wrong_source, unexpected_event, not_initial,
  terminal_status,
}
use heuristic.Operation.Shell.{
  Library, no_phase, create_directory, create_out, create_err, process, read_out, read_out_tail,
  read_err, read_err_tail, phase_text, ShellState, ShellPaths, new_shell_paths,
  validate_shell_correlation, shell_primitive_failure,
}
use heuristic.Operation.Shell.Steps.{Shell, Handled, new_shell, fail, cancel, next}
use heuristic.Operation.Shell.Events.{resume, created, process_event, read_event}

module _ (l : Library) where
  -- The switch of `handleAwaiting` on the phase.
  unfoldable pub phase_event : PrimitiveEvent → ShellPaths → Shell → Handled
  phase_event event paths shell = elim shell.state.phase [
    | create_directory ↦ created l event paths shell
    | create_out ↦ created l event paths shell
    | create_err ↦ created l event paths shell
    | process ↦ process_event l event.type event.result paths shell
    | read_out ↦ read_event l event paths shell
    | read_err ↦ read_event l event paths shell
    | read_out_tail ↦ read_event l event paths shell
    | read_err_tail ↦ read_event l event paths shell
    | phase ↦ fail l (invalid_phase (phase_text phase)) shell
  ]

  unfoldable pub correlated : PrimitiveEvent → Shell → Result OperationError ShellPaths → Handled
  correlated event shell (err e) = fail l e shell
  correlated event shell (ok paths) = phase_event event paths shell

  -- The tests of `handleAwaiting` on the type of an event from the right source.
  unfoldable pub awaiting_typed : PrimitiveEvent → EventType → Shell → Handled
  unfolding correlated
  awaiting_typed event EventType.canceled shell = cancel l shell
  awaiting_typed event EventType.failed shell = fail l (shell_primitive_failure event.result) shell
  awaiting_typed event type shell =
      elim (validate_shell_correlation event (phase_text shell.state.phase)) [
        | some e ↦ fail l e shell
        | none ↦
            correlated event shell (new_shell_paths l shell.state.base_directory shell.current.id)
      ]

  -- `handleAwaiting`
  unfoldable pub handle_awaiting : PrimitiveEvent → Shell → Handled
  handle_awaiting event shell =
      if not (event.source == shell.current.id)
      then fail l (wrong_source event.source) shell
      else awaiting_typed event event.type shell

  unfoldable pub is_initial : ShellState → Bool
  is_initial state = elim state.phase [
    | no_phase ↦ elim state.result [ none ↦ (length state.terminal_error == 0) | some r ↦ false ]
    | phase ↦ false
  ]

  unfoldable pub begin_at : Shell → Result OperationError ShellPaths → Handled
  begin_at shell (err e) = fail l e shell
  begin_at shell (ok paths) = next l create_directory paths shell

  -- The switch of `Handle` on the status.
  unfoldable pub handle_from : Status → Option PrimitiveEvent → Shell → Handled
  unfolding is_initial begin_at
  handle_from ready (some event) shell = (err (unexpected_event shell.current), shell)
  handle_from ready none shell =
      if not (is_initial shell.state)
      then (err (not_initial shell.current), shell)
      else begin_at shell (new_shell_paths l shell.state.base_directory shell.current.id)
  handle_from awaiting none shell = resume l shell
  handle_from awaiting (some event) shell = handle_awaiting event shell
  handle_from canceling (some event) shell = (err (unexpected_event shell.current), shell)
  handle_from canceling none shell = cancel l shell
  handle_from status event shell = (err (terminal_status shell.current status), shell)

  -- `Handle`
  unfoldable pub handle : Shell → Option PrimitiveEvent → Handled
  handle shell event = handle_from shell.current.status event shell

  unfoldable pub step_or : Operation → Result OperationError Step → Option Operation
  step_or current (ok step) = step.operation
  step_or current (err e) = if is_panic e then none else some (record current { status = failed })

  -- `failLocalOperation` of a shell; `none` is a panic.
  unfoldable pub fail_shell : Operation → OperationError → Option Operation
  unfolding step_or
  fail_shell current e = elim (new_shell l current) [
    | err x ↦ some (record current { status = failed })
    | ok shell ↦ step_or current (fail l e shell).0
  ]

  abbrev pub shell_machine : Machine
  shell_machine = record {
    Actor = Shell;
    initialize = new_shell l;
    handle = λ shell current event. handle shell event;
    fail = fail_shell;
  }
