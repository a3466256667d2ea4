-- ===== src/Operation/Shell/Events.antt =====
-- harness/operation/shell.go: what an event does in each phase, and the resumption.
use heuristic.Prelude.{
  ℕ, ◌+◌, ◌-◌, Bool, true, false, ◌&&◌, ◌||◌, not, Option, none, some, [], ◌∷◌, ◌++◌, if◌then◌else◌,
  ◌==◌, nat_eq, string_eq, length, leb, ltb, take, ℤ, pos, negsuc, max_zero,
}
use heuristic.Prelude.Bytes.{Bytes, concat}
use heuristic.Prelude.Exec.{Result, ok, err}
use heuristic.Primitive.{
  PrimitiveEvent, EventType, EventResult, directory, regular_file, read_output, read_completed,
  started, exited, IoReadRequest, process_started, process_exited, process_output,
  process_stream_failed, io_read_output, io_read_completed,
}
use heuristic.Operation.{completed}
use heuristic.Operation.Output.{bound_output_in}
use heuristic.Operation.Step.{OperationError, invalid_phase, unexpected_type, panicked}
use heuristic.Operation.Shell.{
  Library, Phase, no_phase, create_directory, create_out, create_err, process, read_out,
  read_out_tail, read_err, read_err_tail, phase_text, ShellPaths, shell_read_limit,
  shell_tail_read_limit, new_shell_paths, shell_exit_status, validate_shell_create,
}
use heuristic.Operation.Shell.Steps.{
  Shell, Handled, message, checkpoint, await, fail, read_request, dispatch_phase, next,
}

module _ (l : Library) where
  unfoldable pub is_process : Phase → Bool
  is_process process = true
  is_process phase = false

  unfoldable pub is_zero : ℤ → Bool
  is_zero (pos n) = n == 0
  is_zero (negsuc n) = false

  -- `resume`, once its paths are known.
  unfoldable pub resume_at : Shell → Result OperationError ShellPaths → Handled
  resume_at shell (err e) = fail l e shell
  resume_at shell (ok paths) = dispatch_phase l paths (record shell { chunks = []; read_size = 0 })

  -- `resume`
  unfoldable pub resume : Shell → Handled
  unfolding is_process is_zero resume_at
  resume shell =
      if is_process shell.state.phase
      then if is_zero shell.state.process_group_id
        then fail l
            (message "shell execution outcome is unknown because process start was not recorded")
            shell
        else fail l (message "shell execution was interrupted before an exit status was recorded")
            shell
      else resume_at shell (new_shell_paths l shell.state.base_directory shell.current.id)

  unfoldable pub is_create_directory : Phase → Bool
  is_create_directory create_directory = true
  is_create_directory phase = false

  -- `created`
  unfoldable pub created : PrimitiveEvent → ShellPaths → Shell → Handled
  unfolding is_create_directory
  created event paths shell =
      let kind = if is_create_directory shell.state.phase then directory else regular_file in
      if not (validate_shell_create event.type event.result kind)
      then fail l (message "create shell artifact returned an invalid result") shell
      else elim shell.state.phase [
        | create_directory ↦ next l create_out paths shell
        | create_out ↦
            next l create_err paths
              (record shell { state = record shell.state { out_path = paths.out } })
        | create_err ↦
            next l process paths
              (record shell { state = record shell.state { err_path = paths.err } })
        | phase ↦ fail l (invalid_phase (phase_text phase)) shell
      ]

  unfoldable pub process_started_with : EventResult → Shell → Handled
  process_started_with (started pid) shell =
      if leb pid 1
      then fail l (message "start shell returned an invalid result") shell
      else await l (record shell { state = record shell.state { process_group_id = pos pid } })
  process_started_with result shell =
      fail l (message "start shell returned an invalid result") shell

  unfoldable pub process_exited_with : EventResult → ShellPaths → Shell → Handled
  process_exited_with (exited exit_code signal) paths shell = next l read_out paths (record shell {
    state = record shell.state {
      process_group_id = pos 0;
      pending_exit_code = some (shell_exit_status exit_code signal);
    };
  })
  process_exited_with result paths shell =
      fail l (message "shell returned an invalid exit result") shell

  -- `processEvent`
  unfoldable pub process_event : EventType → EventResult → ShellPaths → Shell → Handled
  unfolding process_started_with process_exited_with
  process_event process_started result paths shell = process_started_with result shell
  process_event process_exited result paths shell = process_exited_with result paths shell
  process_event process_output result paths shell =
      fail l (message "captured shell process produced an unexpected output event") shell
  process_event process_stream_failed result paths shell =
      fail l (message "captured shell process returned an unexpected stream failure") shell
  process_event type result paths shell = fail l (unexpected_type type) shell

  -- `finish`, once the exit code and the two bounded texts are known.
  unfoldable pub finished :
      ShellPaths → Shell → ℤ → Option (Bytes × Bool) → Option (Bytes × Bool) → Handled
  finished paths shell exit_code (some (out, out_cut)) (some (error, err_cut)) =
      checkpoint l (record shell {
        current = record shell.current { status = completed };
        state = record shell.state {
          result = some (record {
            out = out;
            err = error;
            out_size = shell.state.out_size;
            err_size = shell.state.err_size;
            exit_code = exit_code;
          });
          out_truncated = out_cut;
          err_truncated = err_cut;
          out_path = paths.out;
          err_path = paths.err;
          pending_exit_code = none;
          inline_out = [];
          inline_err = [];
          inline_out_tail = [];
          inline_err_tail = [];
          phase = no_phase;
        };
      })
  finished paths shell exit_code out error = (err panicked, shell)

  -- `finish`
  unfoldable pub finish : ShellPaths → Shell → Handled
  unfolding finished
  finish paths shell =
      let limit = shell.current.max_output_length in
      let state = shell.state in
      elim state.pending_exit_code [
        | none ↦ fail l (message "shell execution completed without an exit status") shell
        | some exit_code ↦
            finished paths shell exit_code
              (bound_output_in l.utf8 state.inline_out state.inline_out_tail
                (max_zero state.out_size) limit (l.encode_text paths.out))
              (bound_output_in l.utf8 state.inline_err state.inline_err_tail
                (max_zero state.err_size) limit (l.encode_text paths.err))
      ]

  -- The part of a read that is kept before its tail is read.
  unfoldable pub head_part : Shell → Bytes → Bytes
  head_part shell content =
      take (shell_read_limit shell.current - shell_tail_read_limit shell.current) content

  -- `readCompleted`
  unfoldable pub read_completed_with : Bytes → ℕ → ShellPaths → Shell → Handled
  unfolding head_part
  read_completed_with content size paths shell =
      let needs_tail = ltb (shell_read_limit shell.current) size in
      let kept = if needs_tail then head_part shell content else content in
      elim shell.state.phase [
        | read_out ↦ next l (if needs_tail then read_out_tail else read_err) paths (record shell {
          state = record shell.state {
            inline_out = kept;
            out_size = pos size;
            inline_out_tail = [];
          };
        })
        | read_out_tail ↦
            next l read_err paths
              (record shell { state = record shell.state { inline_out_tail = content } })
        | read_err ↦
            let shell' = record shell {
              state = record shell.state {
                inline_err = kept;
                err_size = pos size;
                inline_err_tail = [];
              };
            } in
            if needs_tail then next l read_err_tail paths shell' else finish paths shell'
        | read_err_tail ↦
            finish paths (record shell { state = record shell.state { inline_err_tail = content } })
        | phase ↦ fail l (invalid_phase (phase_text phase)) shell
      ]

  unfoldable pub is_tail : Phase → Bool
  is_tail read_out_tail = true
  is_tail read_err_tail = true
  is_tail phase = false

  unfoldable pub read_output_with : IoReadRequest → EventResult → Shell → Handled
  read_output_with request (read_output offset chunk) shell =
      if not (offset == request.offset + shell.read_size)
      then fail l (message "shell read returned invalid output") shell
      else if ltb request.count (shell.read_size + length chunk)
      then fail l (message "shell read exceeded its configured limit") shell
      else (
        ok (record { operation = none; dispatches = [] }),
        record shell {
          chunks = shell.chunks ++ chunk ∷ [];
          read_size = shell.read_size + length chunk;
        },
      )
  read_output_with request result shell =
      fail l (message "shell read returned invalid output") shell

  unfoldable pub smaller : ℕ → ℕ → ℕ
  smaller a b = if leb a b then a else b

  unfoldable pub completed_with : IoReadRequest → EventResult → ShellPaths → Shell → Handled
  unfolding is_tail smaller
  completed_with request (read_completed size) paths shell =
      if ltb size request.offset
        || not (shell.read_size == smaller request.count (size - request.offset))
      then fail l (message "shell read returned an invalid completion") shell
      else if is_tail shell.state.phase && not (size == request.offset + request.count)
      then fail l (message "shell capture size changed while reading its tail") shell
      else read_completed_with (concat shell.chunks) size paths
          (record shell { chunks = []; read_size = 0 })
  completed_with request result paths shell =
      fail l (message "shell read returned an invalid completion") shell

  unfoldable pub read_typed : EventType → EventResult → IoReadRequest → ShellPaths → Shell → Handled
  unfolding read_output_with completed_with
  read_typed io_read_output result request paths shell = read_output_with request result shell
  read_typed io_read_completed result request paths shell =
      completed_with request result paths shell
  read_typed type result request paths shell = fail l (unexpected_type type) shell

  -- `readEvent`
  unfoldable pub read_event : PrimitiveEvent → ShellPaths → Shell → Handled
  unfolding read_typed
  read_event event paths shell = elim (read_request l shell paths) [
    | err e ↦ fail l e shell
    | ok request ↦ read_typed event.type event.result request paths shell
  ]
