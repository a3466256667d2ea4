-- ===== src/Operation/RemoteJob.antt =====
-- harness/operation/remote_job.go, remote_job_output.go and remote_job_handler.go: a job that a
-- handler outside the process runs, and the updates that the manager accepts from it.
pub mod Failing
pub mod Updates
use heuristic.Prelude.{
  ℕ, suc, ◌+◌, String, Bool, true, false, ◌&&◌, ◌||◌, not, Option, none, some, List, [], ◌∷◌,
  get_elem?, leb, ltb, if◌then◌else◌, ◌==◌, nat_eq, string_eq, length, ℤ, pos, negsuc, max_zero,
}
use heuristic.Prelude.Bytes.{Bytes}
use heuristic.Prelude.Exec.{Result, ok, err}
use heuristic.Llm.{JsonValue, bytes}
use heuristic.Operation.{
  Operation, Spec, Status, ready, awaiting, canceling, completed, failed, canceled,
}
use heuristic.Operation.Output.{Utf8, bound_output}
use heuristic.Operation.Step.{
  Step, OperationError, StateCodec, encoded, error_text, unsupported, undecodable, invalid_state,
  output_limit, handler_error, handler_stopped, many_handlers, no_handler, changed_limit,
  changed_type, changed_plan, invalid_transition, panicked, Dispatch,
}

pub record RemoteJobPlan : Type 0 where
  pub type : String
  pub version : ℕ
  pub content : JsonValue

-- `NextInspectionAt` is a number; the counts of bytes are those that the code computes.
pub record RemoteJobState : Type 0 where
  pub plan : RemoteJobPlan
  pub handle : JsonValue
  pub next_inspection_at : ℕ
  pub outstanding_input : JsonValue
  pub subscription : JsonValue
  pub terminal_result : Bytes
  pub terminal_error : Bytes
  pub result_bytes : ℕ
  pub result_truncated : Bool
  pub error_bytes : ℕ
  pub error_truncated : Bool

pub record Library : Type 0 where
  pub codec : StateCodec RemoteJobState
  pub is_valid : String → Bool
  pub utf8 : Utf8
  pub format : OperationError → Bytes

-- `validateRemoteJobPlan`: does it accept the plan?
unfoldable pub validate_plan : Library → RemoteJobPlan → Bool
validate_plan l plan =
    not (plan.type == "")
    && not (plan.version == 0)
    && not (bytes plan.content == "" || not (l.is_valid (bytes plan.content)))

-- The positive output limits, of which `MaxOutputLength` is the largest.
unfoldable pub is_output_limit : ℤ → Bool
is_output_limit (pos n) = ltb 0 n && leb n 1_000_000
is_output_limit (negsuc n) = false

-- `NewRemoteJobSpec`; `none` is one of its errors.
unfoldable pub new_remote_job_spec : Library → RemoteJobPlan → Option Spec
new_remote_job_spec l plan =
    if not (validate_plan l plan)
    then none
    else elim (l.codec.encode (record {
      plan = plan;
      handle = none;
      next_inspection_at = 0;
      outstanding_input = none;
      subscription = none;
      terminal_result = [];
      terminal_error = [];
      result_bytes = 0;
      result_truncated = false;
      error_bytes = 0;
      error_truncated = false;
    })) [
      | none ↦ none
      | some text ↦ some (record {
        max_output_length = pos 40_000;
        type = "remote_job";
        version = 2;
        state = some text;
        idempotency = none;
      })
    ]

-- `DecodeRemoteJobState`
unfoldable pub decode_remote_job_state : Library → Operation → Result OperationError RemoteJobState
decode_remote_job_state l current =
    if not (current.type == "remote_job")
    then err (unsupported current)
    else if not (current.version == 2)
    then err (unsupported current)
    else if not (is_output_limit current.max_output_length)
    then err (output_limit current)
    else elim (l.codec.decode (bytes current.state)) [
      | none ↦ err (undecodable current)
      | some state ↦ if validate_plan l state.plan then ok state else err (invalid_state current)
    ]

unfoldable pub is_blank : Bytes → Bool
is_blank [] = true
is_blank text = false

-- One half of `prepareRemoteJobOutput`: a text that was cut before is not cut again.
unfoldable pub bounded_text : Library → ℤ → Bytes → ℕ → Bool → Option (Bytes × ℕ × Bool)
unfolding is_blank
bounded_text l limit text size truncated =
    if not truncated || is_blank text
    then elim (bound_output l.utf8 text limit) [
      | none ↦ none
      | some (cut, b) ↦ some (cut, length text, b)
    ]
    else some (text, size, truncated)

-- `prepareRemoteJobOutput`; `none` is a panic of `BoundOutput`.
unfoldable pub prepare_output : Library → Operation → RemoteJobState → Option RemoteJobState
unfolding bounded_text
prepare_output l current state =
    elim (bounded_text l current.max_output_length state.terminal_result state.result_bytes
      state.result_truncated) [
        | none ↦ none
        | some (result, result_bytes, result_truncated) ↦
            elim (bounded_text l current.max_output_length state.terminal_error state.error_bytes
              state.error_truncated) [
                | none ↦ none
                | some (error, error_bytes, error_truncated) ↦ some (record state {
                  terminal_result = result;
                  result_bytes = result_bytes;
                  result_truncated = result_truncated;
                  terminal_error = error;
                  error_bytes = error_bytes;
                  error_truncated = error_truncated;
                })
              ]
      ]

unfoldable pub checkpoint :
    Library → Operation → List Dispatch → Option RemoteJobState → Result OperationError Step
checkpoint l current dispatches none = err panicked
checkpoint l current dispatches (some state) = elim (encoded l.codec current state) [
  | err e ↦ err e
  | ok next ↦ ok (record { operation = some next; dispatches = dispatches })
]

-- `UpdateRemoteJob`
unfoldable pub update_remote_job :
    Library → Operation → RemoteJobState → Status → List Dispatch → Result OperationError Step
unfolding checkpoint
update_remote_job l current state status dispatches = elim (decode_remote_job_state l current) [
  | err e ↦ err e
  | ok before ↦
      let next = record current { status = status } in
      if validate_plan l state.plan
      then checkpoint l next dispatches (prepare_output l next state)
      else err (invalid_state current)
]

-- `FailRemoteJob`, of an error that is set.
unfoldable pub fail_remote_job : Library → Operation → OperationError → Result OperationError Step
fail_remote_job l current e = elim (decode_remote_job_state l current) [
  | err x ↦ err x
  | ok state ↦
      update_remote_job l current
        (record state {
          terminal_error = error_text l.format e;
          error_bytes = 0;
          error_truncated = false;
          terminal_result = [];
          subscription = none;
        })
        failed []
]

-- `CancelRemoteJob`
unfoldable pub cancel_remote_job : Library → Operation → Result OperationError Step
cancel_remote_job l current = elim (decode_remote_job_state l current) [
  | err x ↦ err x
  | ok state ↦
      update_remote_job l current (record state { terminal_result = []; subscription = none })
        canceled []
]

-- `validRemoteJobStatusTransition`
unfoldable pub is_valid_transition : Status → Status → Bool
is_valid_transition ready awaiting = true
is_valid_transition ready canceling = true
is_valid_transition ready completed = true
is_valid_transition ready failed = true
is_valid_transition ready canceled = true
is_valid_transition awaiting awaiting = true
is_valid_transition awaiting canceling = true
is_valid_transition awaiting completed = true
is_valid_transition awaiting failed = true
is_valid_transition awaiting canceled = true
is_valid_transition canceling canceling = true
is_valid_transition canceling failed = true
is_valid_transition canceling canceled = true
is_valid_transition current updated = false

unfoldable pub same_plan : RemoteJobPlan → RemoteJobPlan → Bool
same_plan a b = a.type == b.type && a.version == b.version && bytes a.content == bytes b.content

-- The end of `validateRemoteJobUpdate`, on the two decoded states.
unfoldable pub validate_states :
    Operation
    → Operation
    → Result OperationError RemoteJobState
    → Result OperationError RemoteJobState
    → Option OperationError
unfolding same_plan
validate_states current updated (err e) s = some e
validate_states current updated (ok before) (err e) = some e
validate_states current updated (ok before) (ok after) =
    if not (same_plan after.plan before.plan)
    then some changed_plan
    else if not (is_valid_transition current.status updated.status)
    then some invalid_transition
    else none

unfoldable pub int_same : ℤ → ℤ → Bool
int_same (pos a) (pos b) = a == b
int_same (negsuc a) (negsuc b) = a == b
int_same a b = false

-- `validateRemoteJobUpdate`
unfoldable pub validate_remote_job_update : Library → Operation → Operation → Option OperationError
unfolding validate_states int_same
validate_remote_job_update l current updated =
    if not (int_same updated.max_output_length current.max_output_length)
    then some changed_limit
    else if not (updated.type == current.type) || not (updated.version == current.version)
    then some changed_type
    else validate_states current updated (decode_remote_job_state l current)
        (decode_remote_job_state l updated)

-- A `RemoteJobHandler`, which the program only calls: its plan, and what its methods answer.
pub record Handler : Type 0 where
  pub plan_type : String
  pub plan_version : ℕ
  pub add_job : Operation → Option Bytes
  pub cancel_job : String → Bytes → Option Bytes

handles : RemoteJobPlan → Option Handler → Bool
handles plan none = false
handles plan (some h) = h.plan_type == plan.type && h.plan_version == plan.version

-- The loop of `add` over the handlers: the index of the one that matches.
unfoldable pub matching :
    RemoteJobPlan → ℕ → Option ℕ → List (Option Handler) → Result OperationError ℕ
unfolding handles
matching plan index matched [] = elim matched [ none ↦ err no_handler | some i ↦ ok i ]
matching plan index matched (h ∷ hs) =
    let rest = λ (m : Option ℕ). matching plan (index + 1) m hs in
    if not (handles plan h)
    then rest matched
    else elim matched [ none ↦ rest (some index) | some i ↦ err many_handlers ]

is_closed : Option Bool → Bool
is_closed (some b) = b
is_closed none = false

-- `AddRemoteJob` of a handler that is there.
add_to : Operation → ℕ → Option (Option Handler) → Result OperationError ℕ
add_to current index (some (some h)) = elim (h.add_job current) [
  | none ↦ ok index
  | some text ↦ err (handler_error text)
]
add_to current index h = err panicked

-- `remoteJobHandlers.add`
unfoldable pub add_remote_job :
    Library → List (Option Handler) → List Bool → Operation → Result OperationError ℕ
unfolding matching is_closed add_to
add_remote_job l handlers closed current = elim (decode_remote_job_state l current) [
  | err e ↦ err e
  | ok state ↦ elim (matching state.plan 0 none handlers) [
    | err e ↦ err e
    | ok index ↦
        if is_closed (get_elem? closed index)
        then err (handler_stopped index)
        else add_to current index (get_elem? handlers index)
  ]
]

cancel_at : String → Bytes → Option (Option Handler) → Option OperationError
cancel_at id reason (some (some h)) = elim (h.cancel_job id reason) [
  | none ↦ none
  | some text ↦ some (handler_error text)
]
cancel_at id reason h = some panicked

-- `remoteJobHandlers.cancel`
unfoldable pub cancel_remote : List (Option Handler) → ℕ → String → Bytes → Option OperationError
unfolding cancel_at
cancel_remote handlers index id reason = cancel_at id reason (get_elem? handlers index)
