-- ===== src/Operation/Value.antt =====
-- harness/operation/value.go: an operation that carries its result and completes at once.
use heuristic.Prelude.{
  String, Bool, not, ◌||◌, Option, none, some, [], if◌then◌else◌, ◌==◌, nat_eq, string_eq, pos,
}
use heuristic.Prelude.Exec.{Result, ok, err}
use heuristic.Primitive.{PrimitiveEvent}
use heuristic.Llm.{JsonValue, bytes}
use heuristic.Operation.{Operation, Spec, Status, ready, canceling, completed, canceled}
use heuristic.Operation.Step.{
  Step, OperationError, StateCodec, unsupported, undecodable, invalid_state, unexpected_event,
  terminal_status,
}

-- The codec of `ValueState`, and the validity of a JSON text.
pub record Library : Type 0 where
  pub codec : StateCodec JsonValue
  pub is_valid : String → Bool

-- Is the value empty, or not valid JSON?
abbrev pub is_invalid : Library → JsonValue → Bool
is_invalid l value = bytes value == "" || not (l.is_valid (bytes value))

-- `NewValueSpec`; `none` is one of its errors.
unfoldable pub new_value_spec : Library → JsonValue → Option Spec
new_value_spec l value = if is_invalid l value then none else elim (l.codec.encode value) [
  | none ↦ none
  | some text ↦ some (record {
    max_output_length = pos 0;
    type = "value";
    version = 1;
    state = some text;
    idempotency = none;
  })
]

-- `DecodeValue`
unfoldable pub decode_value : Library → Operation → Result OperationError JsonValue
decode_value l current =
    if not (current.type == "value")
    then err (unsupported current)
    else if not (current.version == 1)
    then err (unsupported current)
    else elim (l.codec.decode (bytes current.state)) [
      | none ↦ err (undecodable current)
      | some value ↦ if is_invalid l value then err (invalid_state current) else ok value
    ]

-- The switch of `AdvanceValue` on the status.
unfoldable pub advance_value_from : Operation → Status → Result OperationError Step
advance_value_from current ready =
    ok (record { operation = some (record current { status = completed }); dispatches = [] })
advance_value_from current canceling =
    ok (record { operation = some (record current { status = canceled }); dispatches = [] })
advance_value_from current status = err (terminal_status current status)

-- `AdvanceValue`
unfoldable pub advance_value :
    Library → Operation → Option PrimitiveEvent → Result OperationError Step
unfolding advance_value_from
advance_value l current event = elim (decode_value l current) [
  | err e ↦ err e
  | ok value ↦ elim event [
    | some e ↦ err (unexpected_event current)
    | none ↦ advance_value_from current current.status
  ]
]
