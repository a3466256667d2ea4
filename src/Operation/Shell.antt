-- ===== src/Operation/Shell.antt =====
-- harness/operation/shell.go: the values of a shell operation, and its paths, checks and dispatches.
-- The machine that runs it is in its child modules. Paths of path/filepath are a parameter.
pub mod Steps
pub mod Events
pub mod Handle
pub mod Kept
pub mod Reads
pub mod Laws
use heuristic.Prelude.{
  ℕ, zero, suc, ◌+◌, ◌-◌, ◌*◌, ◌/◌, String, Bool, true, false, ◌&&◌, ◌||◌, not, Option, none, some,
  List, [], ◌∷◌, if◌then◌else◌, ◌==◌, nat_eq, string_eq, length, leb, ltb, ℤ, pos, negsuc, max_zero,
}
use heuristic.Prelude.Bytes.{Bytes, ascii}
use heuristic.Prelude.Exec.{Result, ok, err}
use heuristic.Llm.{bytes}
use heuristic.Primitive.{
  PrimitiveEvent, EventType, EventResult, IoCreateKind, directory, regular_file, failure, created,
  io_create_completed, IoReadRequest, io_create, io_read, process_start, of_create, of_read,
  of_start,
}
use heuristic.Operation.{Operation, Spec}
use heuristic.Operation.Output.{Utf8}
use heuristic.Operation.Step.{
  Dispatch, OperationError, StateCodec, unsupported, undecodable, output_limit, primitive_error,
  invalid_phase, invalid_id, wrong_correlation,
}
use heuristic.Operation.RemoteJob.{is_output_limit}

-- `ShellPhase`; `no_phase` is the empty one.
pub data Phase : Type 0 where
  no_phase create_directory create_out create_err process : Phase
  read_out read_out_tail read_err read_err_tail : Phase
  other : String → Phase

unfoldable pub phase_text : Phase → String
phase_text no_phase = ""
phase_text create_directory = "create_directory"
phase_text create_out = "create_out"
phase_text create_err = "create_err"
phase_text process = "process"
phase_text read_out = "read_out"
phase_text read_out_tail = "read_out_tail"
phase_text read_err = "read_err"
phase_text read_err_tail = "read_err_tail"
phase_text (other text) = text

pub record ShellInput : Type 0 where
  pub command : String
  pub shell : String
  pub directory : String

pub record ShellResult : Type 0 where
  pub out : Bytes
  pub err : Bytes
  pub out_size : ℤ
  pub err_size : ℤ
  pub exit_code : ℤ

pub record ShellState : Type 0 where
  pub input : ShellInput
  pub base_directory : String
  pub phase : Phase
  pub process_group_id : ℤ
  pub pending_exit_code : Option ℤ
  pub out_size : ℤ
  pub err_size : ℤ
  pub inline_out : Bytes
  pub inline_err : Bytes
  pub inline_out_tail : Bytes
  pub inline_err_tail : Bytes
  pub result : Option ShellResult
  pub terminal_error : Bytes
  pub error_truncated : Bool
  pub out_truncated : Bool
  pub err_truncated : Bool
  pub out_path : String
  pub err_path : String

pub record Library : Type 0 where
  pub codec : StateCodec ShellState
  pub format : OperationError → Bytes
  pub utf8 : Utf8
  -- The bytes of a text.
  pub encode_text : String → Bytes
  -- `filepath.IsAbs`, `filepath.Base` and `filepath.Join`
  pub is_abs : String → Bool
  pub base : String → String
  pub join : String → String → String

-- `shellReadLimit`, of a limit that is positive.
abbrev pub shell_read_limit : Operation → ℕ
shell_read_limit current = max_zero current.max_output_length * 4

-- `shellTailReadLimit`
abbrev pub shell_tail_read_limit : Operation → ℕ
shell_tail_read_limit current =
    let limit = max_zero current.max_output_length in (limit - limit / 2) * 4

is_negative : ℤ → Bool
is_negative (pos n) = false
is_negative (negsuc n) = true

is_group : ℤ → Bool
is_group (pos n) = not (n == 1)
is_group (negsuc n) = false

pub record ShellPaths : Type 0 where
  pub directory : String
  pub out : String
  pub err : String

module _ (l : Library) where
  -- Does `validateShellState` accept the state?
  unfoldable pub validate_shell_state : ShellState → Bool
  unfolding is_negative is_group
  validate_shell_state state =
      not (state.input.shell == "" || not (l.is_abs state.input.shell))
      && not (state.base_directory == "" || not (l.is_abs state.base_directory))
      && is_group state.process_group_id
      && not (is_negative state.out_size || is_negative state.err_size)

  -- `NewShellSpec`; `none` is one of its errors.
  pub new_shell_spec : ShellInput → String → ℤ → Option Spec
  new_shell_spec input base_directory max_output_length =
      let state : ShellState = record {
        input = input;
        base_directory = base_directory;
        phase = no_phase;
        process_group_id = pos 0;
        pending_exit_code = none;
        out_size = pos 0;
        err_size = pos 0;
        inline_out = [];
        inline_err = [];
        inline_out_tail = [];
        inline_err_tail = [];
        result = none;
        terminal_error = [];
        error_truncated = false;
        out_truncated = true;
        err_truncated = true;
        out_path = "";
        err_path = "";
      } in
      if not (is_output_limit max_output_length)
      then none
      else if not (validate_shell_state state)
      then none
      else elim (l.codec.encode state) [
        | none ↦ none
        | some text ↦ some (record {
          max_output_length = max_output_length;
          type = "shell";
          version = 3;
          state = some text;
          idempotency = none;
        })
      ]

  -- `DecodeShellState`
  unfoldable pub decode_shell_state : Operation → Result OperationError ShellState
  decode_shell_state current =
      if not (current.type == "shell")
      then err (unsupported current)
      else if not (current.version == 3)
      then err (unsupported current)
      else if not (is_output_limit current.max_output_length)
      then err (output_limit current)
      else elim (l.codec.decode (bytes current.state)) [
        | none ↦ err (undecodable current)
        | some state ↦ ok state
      ]

  -- `shellOperationState`
  unfoldable pub shell_operation_state : Operation → Result OperationError ShellState
  shell_operation_state current = elim (decode_shell_state current) [
    | err e ↦ err e
    | ok state ↦
        if not (validate_shell_state state)
        then err (primitive_error (ascii "validate shell operation state"))
        else if ltb (shell_read_limit current)
              (length state.inline_out + length state.inline_out_tail)
            || ltb (shell_read_limit current)
                (length state.inline_err + length state.inline_err_tail)
        then err (primitive_error (ascii "inline shell result exceeds the configured limit"))
        else ok state
  ]

  -- `newShellPaths`
  unfoldable pub new_shell_paths : String → String → Result OperationError ShellPaths
  new_shell_paths base_directory id =
      if id == "" || id == "." || id == ".." || l.is_abs id || not (l.base id == id)
      then err (invalid_id id)
      else let directory = l.join base_directory id in
        ok (record {
          directory = directory;
          out = l.join directory "out";
          err = l.join directory "err";
        })

  -- `createShellPath`
  abbrev pub create_shell_path : String → String → IoCreateKind → String → ℕ → Dispatch
  create_shell_path id correlation kind path mode = record {
    type = io_create;
    content = of_create (record {
      source = id;
      correlation_id = correlation;
      kind = kind;
      path = path;
      mode = mode;
    });
  }

  -- `createShellFile`: the mode is 0o600.
  abbrev pub create_shell_file : String → String → String → Dispatch
  create_shell_file id correlation path = create_shell_path id correlation regular_file path 384

  -- `startShellProcess`
  abbrev pub start_shell_process : String → ShellState → ShellPaths → Dispatch
  start_shell_process id state paths = record {
    type = process_start;
    content = of_start (record {
      source = id;
      correlation_id = phase_text process;
      path = state.input.shell;
      arguments = "-c" ∷ state.input.command ∷ [];
      directory = state.input.directory;
      stdout_path = paths.out;
      stderr_path = paths.err;
    });
  }

-- `shellExitStatus`
abbrev pub shell_exit_status : ℤ → ℕ → ℤ
shell_exit_status exit_code signal = if not (signal == 0) then pos (128 + signal) else exit_code

-- `validateShellCorrelation`
abbrev pub validate_shell_correlation : PrimitiveEvent → String → Option OperationError
validate_shell_correlation event correlation =
    if not (event.correlation_id == correlation)
    then some (wrong_correlation event.correlation_id)
    else none

same_kind : IoCreateKind → IoCreateKind → Bool
same_kind directory directory = true
same_kind regular_file regular_file = true
same_kind a b = false

-- Does `validateShellCreate` accept the event?
unfoldable pub validate_shell_create : EventType → EventResult → IoCreateKind → Bool
unfolding same_kind
validate_shell_create io_create_completed (created k) kind = same_kind k kind
validate_shell_create type result kind = false

-- `shellPrimitiveFailure`
unfoldable pub shell_primitive_failure : EventResult → OperationError
shell_primitive_failure (failure text) = primitive_error text
shell_primitive_failure result =
    primitive_error (ascii "shell primitive failed with an invalid result")
