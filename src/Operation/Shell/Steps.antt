-- ===== src/Operation/Shell/Steps.antt =====
-- The steps that the machine of harness/operation/shell.go takes, each a function of the `Shell` that
-- it mutates. A panic of `boundOutput` is the error `panicked`, at
-- which the manager ends.
use heuristic.Prelude.{
  ℕ, ◌-◌, String, Bool, true, false, Option, none, some, List, [], ◌∷◌, if◌then◌else◌, nat_eq,
  string_eq, leb, ℤ, max_zero,
}
use heuristic.Prelude.Bytes.{Bytes, ascii}
use heuristic.Prelude.Exec.{Result, ok, err}
use heuristic.Primitive.{directory, IoReadRequest, io_read, of_read}
use heuristic.Operation.{Operation, Status, awaiting, failed, canceled}
use heuristic.Operation.Output.{bound_output}
use heuristic.Operation.Step.{
  Step, Dispatch, OperationError, encoded, error_text, primitive_error, invalid_phase, panicked,
}
use heuristic.Operation.Shell.{
  Library, Phase, no_phase, create_directory, create_out, create_err, process, read_out,
  read_out_tail, read_err, read_err_tail, phase_text, ShellState, ShellPaths, shell_read_limit,
  shell_tail_read_limit, shell_operation_state, create_shell_path, create_shell_file,
  start_shell_process,
}

pub record Shell : Type 0 where
  pub current : Operation
  pub state : ShellState
  pub chunks : List Bytes
  pub read_size : ℕ

-- The result of a method, and the `Shell` after it.
abbrev pub Handled : Type 0
Handled = Result OperationError Step × Shell

abbrev pub message : String → OperationError
message text = primitive_error (ascii text)

module _ (l : Library) where
  -- `NewShell`
  unfoldable pub new_shell : Operation → Result OperationError Shell
  new_shell current = elim (shell_operation_state l current) [
    | err e ↦ err e
    | ok state ↦ ok (record {
      current = record current { state = none };
      state = state;
      chunks = [];
      read_size = 0;
    })
  ]

  unfoldable pub bound_error : Shell → Option (Bytes × Bool)
  bound_error shell =
      if shell.state.error_truncated
      then some (shell.state.terminal_error, true)
      else bound_output l.utf8 shell.state.terminal_error shell.current.max_output_length

  -- The rest of `checkpoint`.
  unfoldable pub encode_state : Shell → Handled
  encode_state shell = elim (encoded l.codec shell.current shell.state) [
    | err e ↦ (err e, shell)
    | ok v ↦ (ok (record { operation = some v; dispatches = [] }), shell)
  ]

  -- `checkpoint`
  unfoldable pub checkpoint : Shell → Handled
  unfolding bound_error encode_state
  checkpoint shell = elim (bound_error shell) [
    | none ↦ (err panicked, shell)
    | some (text, truncated) ↦ encode_state (record shell {
      state = record shell.state { terminal_error = text; error_truncated = truncated };
    })
  ]

  -- `await`
  unfoldable pub await : Shell → Handled
  await shell = checkpoint (record shell { current = record shell.current { status = awaiting } })

  -- `fail` and `cancel`, with the text of the error.
  unfoldable pub end_with : Status → Bytes → Shell → Handled
  end_with status text shell = checkpoint (record {
    current = record shell.current { status = status };
    state = record shell.state { phase = no_phase; terminal_error = text; error_truncated = false };
    chunks = [];
    read_size = 0;
  })

  unfoldable pub fail : OperationError → Shell → Handled
  fail e shell = end_with failed (error_text l.format e) shell

  unfoldable pub cancel : Shell → Handled
  cancel shell = end_with canceled (ascii "shell operation canceled") shell

  unfoldable pub with_dispatch : Dispatch → Handled → Handled
  with_dispatch d (err e, shell) = (err e, shell)
  with_dispatch d (ok step, shell) = (ok (record step { dispatches = d ∷ [] }), shell)

  -- `dispatch`
  unfoldable pub dispatch : Dispatch → Shell → Handled
  unfolding with_dispatch
  dispatch d shell = with_dispatch d (await shell)

  -- The tail of a capture, after its first part.
  unfoldable pub tail_request : Operation → IoReadRequest → ℤ → Result OperationError IoReadRequest
  tail_request current request size =
      if leb (max_zero size) (shell_read_limit current)
      then err (message "invalid shell tail read size")
      else ok (record request {
        count = shell_tail_read_limit current;
        offset = max_zero size - shell_tail_read_limit current;
      })

  unfoldable pub request_of : Shell → String → IoReadRequest
  request_of shell path = record {
    source = shell.current.id;
    correlation_id = phase_text shell.state.phase;
    path = path;
    offset = 0;
    count = shell_read_limit shell.current;
  }

  -- `readRequest`
  unfoldable pub read_request : Shell → ShellPaths → Result OperationError IoReadRequest
  unfolding tail_request request_of
  read_request shell paths = elim shell.state.phase [
    | read_out ↦ ok (request_of shell paths.out)
    | read_err ↦ ok (request_of shell paths.err)
    | read_out_tail ↦ tail_request shell.current (request_of shell paths.out) shell.state.out_size
    | read_err_tail ↦ tail_request shell.current (request_of shell paths.err) shell.state.err_size
    | phase ↦ err (invalid_phase (phase_text phase))
  ]

  unfoldable pub dispatch_read : Shell → Result OperationError IoReadRequest → Handled
  dispatch_read shell (err e) = fail e shell
  dispatch_read shell (ok request) =
      dispatch (record { type = io_read; content = of_read request }) shell

  -- `dispatchPhase`
  unfoldable pub dispatch_phase : ShellPaths → Shell → Handled
  unfolding dispatch_read
  dispatch_phase paths shell =
      let id = shell.current.id in
      let correlation = phase_text shell.state.phase in
      elim shell.state.phase [
        | create_directory ↦
            dispatch (create_shell_path l id correlation directory paths.directory 448) shell
        | create_out ↦ dispatch (create_shell_file l id correlation paths.out) shell
        | create_err ↦ dispatch (create_shell_file l id correlation paths.err) shell
        | process ↦ dispatch (start_shell_process l id shell.state paths) shell
        | read_out ↦ dispatch_read shell (read_request shell paths)
        | read_err ↦ dispatch_read shell (read_request shell paths)
        | read_out_tail ↦ dispatch_read shell (read_request shell paths)
        | read_err_tail ↦ dispatch_read shell (read_request shell paths)
        | phase ↦ fail (invalid_phase (phase_text phase)) shell
      ]

  -- `next`
  unfoldable pub next : Phase → ShellPaths → Shell → Handled
  next phase paths shell =
      dispatch_phase paths (record shell { state = record shell.state { phase = phase } })
