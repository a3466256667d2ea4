-- ===== src/Inbox.antt =====
-- harness/inbox/inbox.go: inputs, their validation and the decoding of control messages.
-- The deduplicating queue of harness/inbox/local.go is in `Queue`.
pub mod Queue
pub mod Order
pub mod Examples
use heuristic.Prelude.{
  ℕ, zero, suc, ◌+◌, ◌-◌, ◌*◌, ◌%◌, ◌^◌, ◌≤◌, ◌<◌, String, ◌≡◌, refl, sym, ap, ◌∙◌, subst, ◌≢◌, ◌↔◌,
  ◌⊎◌, inl, inr, Bool, true, false, ◌&&◌, ◌||◌, not, Option, none, some, List, [], ◌∷◌, ◌++◌, map,
  arith, ltb, leb, if◌then◌else◌, ltb→lt, lt→ltb, leb→le, Bool-cases, Option-cases, Eq, ◌==◌,
  nat_eq, string_eq, pair_eq, ℤ, pos, negsuc, length, get_elem?, set, take, drop, length-append,
  length-set, get_elem?-append_left, get_elem?-append_last, get_elem?-lt, get_elem?-set_self,
  get_elem?-set_ne, All, All-append, All-append_left, All-append_right, All-map, All-set,
  All-get_elem?, contains, contains-cons, contains-append,
}
use heuristic.Prelude.Exec.{Result, ok, err}
use heuristic.Llm.{JsonValue, bytes, ReasoningEffort, is_valid_effort}
use heuristic.Json.{
  Json, Envelope, Settings, ControlMode, stop_hard, stop_when_idle, heartbeat, update_settings,
}

pub data InputKind : Type 0 where
  external control crash : InputKind
  other : String → InputKind

pub record Input : Type 0 where
  pub id : String
  pub kind : InputKind
  pub payload : JsonValue

pub record ControlMessage : Type 0 where
  pub mode : ControlMode
  pub reason : String
  pub parameters : Option Settings

pub data InputError : Type 0 where
  empty_id malformed_envelope empty_heartbeat malformed_settings invalid_payload : InputError
  not_control unsupported_kind : InputKind → InputError
  unexpected_parameters unsupported_mode : ControlMode → InputError
  unsupported_effort : ReasoningEffort → InputError

-- `request.Mode != UpdateSettings && len(envelope.Parameters) != 0`
refuses_parameters : ControlMode → JsonValue → Bool
refuses_parameters update_settings p = false
refuses_parameters _ p = not (bytes p == "")

accept_settings : Envelope → Option Settings → Result InputError ControlMessage
accept_settings env none = err malformed_settings
accept_settings env (some s) =
    if is_valid_effort s.reasoning_effort
    then ok (record { mode = update_settings; reason = env.reason; parameters = some s })
    else err (unsupported_effort s.reasoning_effort)

-- The switch on the mode; `request` is the envelope with no parameters.
decode_mode : Json → Envelope → ControlMode → Result InputError ControlMessage
unfolding accept_settings
decode_mode j env stop_hard =
    ok (record { mode = stop_hard; reason = env.reason; parameters = none })
decode_mode j env stop_when_idle =
    ok (record { mode = stop_when_idle; reason = env.reason; parameters = none })
decode_mode j env heartbeat =
    if env.reason == ""
    then err empty_heartbeat
    else ok (record { mode = heartbeat; reason = env.reason; parameters = none })
decode_mode j env update_settings =
    accept_settings env (j.unmarshal_settings (bytes env.parameters))
decode_mode j env (ControlMode.other m) = err (unsupported_mode (ControlMode.other m))

decode_envelope : Json → Option Envelope → Result InputError ControlMessage
unfolding decode_mode refuses_parameters
decode_envelope j none = err malformed_envelope
decode_envelope j (some env) =
    if refuses_parameters env.mode env.parameters
    then err (unexpected_parameters env.mode)
    else decode_mode j env env.mode

decode_kind : Json → Input → InputKind → Result InputError ControlMessage
unfolding decode_envelope
decode_kind j input control = decode_envelope j (j.unmarshal_envelope (bytes input.payload))
decode_kind j input k = err (not_control k)

-- `Input.DecodeControlMessage`
unfoldable pub decode_control_message : Json → Input → Result InputError ControlMessage
unfolding decode_kind
decode_control_message j input = decode_kind j input input.kind

-- `input.Payload != nil && !input.Payload.IsValid()`
unfoldable pub is_invalid_value : Json → JsonValue → Bool
is_invalid_value j none = false
is_invalid_value j (some s) = not (j.is_valid s)

check_decoded : Result InputError ControlMessage → Option InputError
check_decoded (ok m) = none
check_decoded (err e) = some e

check_kind : Json → Input → InputKind → Option InputError
unfolding check_decoded
check_kind j input external = none
check_kind j input crash = none
check_kind j input control = check_decoded (decode_control_message j input)
check_kind j input (InputKind.other k) = some (unsupported_kind (InputKind.other k))

check_payload : Json → Input → Option InputError → Option InputError
unfolding is_invalid_value
check_payload j input (some e) = some e
check_payload j input none = if is_invalid_value j input.payload then some invalid_payload else none

-- `Input.Validate`: the error that it returns, `none` for nil.
unfoldable pub validate : Json → Input → Option InputError
unfolding check_kind check_payload
validate j input =
    if input.id == "" then some empty_id else check_payload j input (check_kind j input input.kind)
