-- ===== src/Operation/SkillUse.antt =====
-- harness/operation/skill_use.go: an operation that reads one file, a state machine over the
-- events of the read.
pub mod Identity
use heuristic.Prelude.{
  ℕ, ◌^◌, ◌-◌, String, Bool, true, false, ◌||◌, not, Option, none, some, List, [], ◌∷◌, ◌++◌,
  if◌then◌else◌, ◌==◌, nat_eq, string_eq, length, pos,
}
use heuristic.Prelude.Bytes.{Bytes, ascii}
use heuristic.Prelude.Exec.{Result, ok, err}
use heuristic.Llm.{bytes}
use heuristic.Primitive.{
  PrimitiveEvent, EventType, EventResult, failure, read_output, read_completed, io_read_output,
  io_read_completed, of_read, io_read,
}
use heuristic.Operation.{
  Operation, Spec, Status, ready, awaiting, canceling, completed, failed, canceled,
}
use heuristic.Operation.Step.{
  Step, OperationError, StateCodec, encoded, error_text, unsupported, undecodable, invalid_state,
  unexpected_event, not_initial, state_terminal, terminal_status, primitive_error, invalid_failure,
  invalid_output, invalid_completion, wrong_source, wrong_correlation, unexpected_type,
}

pub record SkillUseState : Type 0 where
  pub path : String
  pub content : Bytes
  pub terminal_error : Bytes

-- What the machine takes from encoding/json and fmt.
pub record Library : Type 0 where
  pub codec : StateCodec SkillUseState
  pub format : OperationError → Bytes

unfoldable pub is_nonempty : Bytes → Bool
is_nonempty [] = false
is_nonempty text = true

abbrev pub skill_use_read_correlation : String
skill_use_read_correlation = "skill-use-read"

-- `NewSkillUseSpec`; `none` is one of its errors.
pub new_skill_use_spec : Library → String → Option Spec
new_skill_use_spec l path =
    if path == ""
    then none
    else elim (l.codec.encode (record { path = path; content = []; terminal_error = [] })) [
      | none ↦ none
      | some text ↦ some (record {
        max_output_length = pos 0;
        type = "skill_use";
        version = 1;
        state = some text;
        idempotency = none;
      })
    ]

-- `skillUseOperationState`, with `validateSkillUseState`
unfoldable pub skill_use_operation_state : Library → Operation → Result OperationError SkillUseState
skill_use_operation_state l current =
    if not (current.type == "skill_use")
    then err (unsupported current)
    else if not (current.version == 1)
    then err (unsupported current)
    else elim (l.codec.decode (bytes current.state)) [
      | none ↦ err (undecodable current)
      | some state ↦ if state.path == "" then err (invalid_state current) else ok state
    ]

-- `skillUseStep`
unfoldable pub skill_use_step : Library → Operation → SkillUseState → Result OperationError Step
skill_use_step l current state = elim (encoded l.codec current state) [
  | err e ↦ err e
  | ok v ↦ ok (record { operation = some v; dispatches = [] })
]

-- `awaitSkillUse`
unfoldable pub await_skill_use : Library → Operation → SkillUseState → Result OperationError Step
await_skill_use l current state = skill_use_step l (record current { status = awaiting }) state

-- `failSkillUse`
unfoldable pub fail_skill_use :
    Library → Operation → SkillUseState → OperationError → Result OperationError Step
fail_skill_use l current state e =
    skill_use_step l (record current { status = failed })
      (record state { terminal_error = error_text l.format e })

-- `cancelSkillUse`
unfoldable pub cancel_skill_use : Library → Operation → SkillUseState → Result OperationError Step
cancel_skill_use l current state =
    skill_use_step l (record current { status = canceled })
      (record state { terminal_error = ascii "skill-use operation canceled" })

-- `dispatchSkillUseRead`: the rest of the file, up to `math.MaxInt64` bytes.
unfoldable pub dispatch_skill_use_read :
    Library → Operation → SkillUseState → Result OperationError Step
dispatch_skill_use_read l current state = elim (await_skill_use l current state) [
  | err e ↦ err e
  | ok step ↦ ok (record step {
    dispatches =
        record {
          type = io_read;
          content = of_read (record {
            source = current.id;
            correlation_id = skill_use_read_correlation;
            path = state.path;
            offset = length state.content;
            count = 2 ^ 63 - 1;
          });
        }
        ∷ [];
  })
]

-- The last switch of `advanceAwaitingSkillUse`, on the type and the result of the event.
unfoldable pub read_event :
    Library → Operation → SkillUseState → EventType → EventResult → Result OperationError Step
read_event l current state io_read_output (read_output offset chunk) =
    if not (offset == length state.content)
    then fail_skill_use l current state invalid_output
    else await_skill_use l current (record state { content = state.content ++ chunk })
read_event l current state io_read_output result = fail_skill_use l current state invalid_output
read_event l current state io_read_completed (read_completed size) =
    if not (size == length state.content)
    then fail_skill_use l current state invalid_completion
    else skill_use_step l (record current { status = completed }) state
read_event l current state io_read_completed result =
    fail_skill_use l current state invalid_completion
read_event l current state type result = fail_skill_use l current state (unexpected_type type)

unfoldable pub failed_event :
    Library → Operation → SkillUseState → EventResult → Result OperationError Step
failed_event l current state (failure text) = fail_skill_use l current state (primitive_error text)
failed_event l current state result = fail_skill_use l current state invalid_failure

-- The tests on the type of an event from the right source.
unfoldable pub typed_event :
    Library → Operation → SkillUseState → PrimitiveEvent → EventType → Result OperationError Step
unfolding failed_event
typed_event l current state event EventType.canceled = cancel_skill_use l current state
typed_event l current state event EventType.failed = failed_event l current state event.result
typed_event l current state event type =
    if not (event.correlation_id == skill_use_read_correlation)
    then fail_skill_use l current state (wrong_correlation event.correlation_id)
    else read_event l current state type event.result

-- `advanceAwaitingSkillUse`
unfoldable pub advance_awaiting_skill_use :
    Library → Operation → SkillUseState → PrimitiveEvent → Result OperationError Step
unfolding typed_event
advance_awaiting_skill_use l current state event =
    if not (event.source == current.id)
    then fail_skill_use l current state (wrong_source event.source)
    else typed_event l current state event event.type

-- The switch of `AdvanceSkillUse` on the status.
unfoldable pub advance_from :
    Library
    → Operation
    → SkillUseState
    → Status
    → Option PrimitiveEvent
    → Result OperationError Step
unfolding is_nonempty
advance_from l current state ready (some event) = err (unexpected_event current)
advance_from l current state ready none =
    if is_nonempty state.content || is_nonempty state.terminal_error
    then err (not_initial current)
    else dispatch_skill_use_read l current state
advance_from l current state awaiting event =
    if is_nonempty state.terminal_error then err (state_terminal current) else elim event [
      | none ↦ dispatch_skill_use_read l current state
      | some e ↦ advance_awaiting_skill_use l current state e
    ]
advance_from l current state canceling (some event) = err (unexpected_event current)
advance_from l current state canceling none = cancel_skill_use l current state
advance_from l current state status event = err (terminal_status current status)

-- `AdvanceSkillUse`
unfoldable pub advance_skill_use :
    Library → Operation → Option PrimitiveEvent → Result OperationError Step
unfolding advance_from
advance_skill_use l current event = elim (skill_use_operation_state l current) [
  | err e ↦ err e
  | ok state ↦ advance_from l current state current.status event
]
