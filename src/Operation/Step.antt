-- ===== src/Operation/Step.antt =====
-- What the operations of harness/operation share: a step, its dispatches and the errors.
use heuristic.Prelude.{ℕ, String, Bool, true, false, ◌||◌, Option, none, some, List}
use heuristic.Prelude.Bytes.{Bytes}
use heuristic.Prelude.Exec.{Result, ok, err}
use heuristic.Primitive.{EventType, DispatchType, DispatchData}
use heuristic.Operation.{Operation, Status}

-- `PrimitiveDispatch`
pub record Dispatch : Type 0 where
  pub type : DispatchType
  pub content : DispatchData

-- `Step`
pub record Step : Type 0 where
  pub operation : Option Operation
  pub dispatches : List Dispatch

pub data OperationError : Type 0 where
  -- An error that wraps `ErrUnsupported`.
  unsupported : Operation → OperationError
  undecodable unencodable invalid_state already_processing output_limit : Operation → OperationError
  unexpected_event not_initial state_terminal : Operation → OperationError
  terminal_status : Operation → Status → OperationError
  -- An error of `errors.New`, with its text or that of a failed primitive.
  primitive_error : Bytes → OperationError
  invalid_failure invalid_output invalid_completion invalid_cancellation invalid_computation :
      OperationError
  invalid_phase invalid_id wrong_source wrong_correlation : String → OperationError
  unexpected_type : EventType → OperationError
  unstartable : DispatchType → OperationError
  -- A failure of a primitive, with what the operation says before its text.
  wrapped : String → Bytes → OperationError
  -- A source whose size exceeds the limit.
  source_limit : ℕ → OperationError
  handler_error : Bytes → OperationError
  handler_stopped : ℕ → OperationError
  wrong_handler : String → OperationError
  many_handlers no_handler : OperationError
  changed_limit changed_type changed_plan invalid_transition : OperationError
  panicked : OperationError
  -- `errors.Join`
  joined : OperationError → OperationError → OperationError

-- Is the error a run-time panic, or was it joined with one? The manager ends where it is raised.
unfoldable pub is_panic : OperationError → Bool
is_panic panicked = true
is_panic (joined a b) = is_panic a || is_panic b
is_panic e = false

-- `Error()`: the texts that fmt formats are a parameter.
unfoldable pub error_text : (OperationError → Bytes) → OperationError → Bytes
error_text format (primitive_error text) = text
error_text format (handler_error text) = text
error_text format e = format e

-- encoding/json at the state of an operation: `none` is an error.
pub record StateCodec (S : Type 0) : Type 0 where
  pub encode : S → Option String
  pub decode : String → Option S

-- `json.Marshal` and what the operations do with its error.
unfoldable pub encoded :
    {S : Type 0} → StateCodec S → Operation → S → Result OperationError Operation
encoded codec current state = elim (codec.encode state) [
  | none ↦ err (unencodable current)
  | some text ↦ ok (record current { state = some text })
]
