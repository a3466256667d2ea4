-- ===== src/SessionStore/Codec.antt =====
-- harness/sessionstore/localfile/codec.go and harness/sessionstore/itemjson.go: the log of a session
-- as bytes, one record a line. encoding/json is a parameter, each of its calls a field of `LogCodec`.
pub mod Reader
pub mod Lines
pub mod Made
pub mod Scans
pub mod Replays
pub mod Laws
pub mod Committed
pub mod Append
pub mod Crash
pub mod Extends
pub mod Initial
pub mod Restored
pub mod Restorable
pub mod Examples
use heuristic.Prelude.{
  ℕ, ◌+◌, ◌-◌, ◌%◌, String, Bool, true, false, ◌&&◌, ◌||◌, not, Option, none, some, List, [], ◌∷◌,
  ◌++◌, leb, if◌then◌else◌, ◌==◌, nat_eq, string_eq, length, contains,
}
use heuristic.Prelude.Bytes.{Bytes, ascii}
use heuristic.Prelude.Exec.{Result, ok, err}
use heuristic.Json.{Json}
use heuristic.Llm.{JsonValue}
use heuristic.Operation.{Operation}
use heuristic.Session.{Session, Turn}
use heuristic.Inbox.{Input, validate}
use heuristic.SessionStore.{
  Item, ItemKind, ItemData, of_fork, of_input, of_turn, of_model_response, of_tool_call_status,
  Fork, ModelResponse, ToolCallStatus,
}
use heuristic.SessionStore.Head.{sequence_mod}
use heuristic.SessionStore.State.{StoredState, new_stored_state}
use heuristic.SessionStore.Replay.{
  ItemRecord, DecodedRecord, of_item, of_operation, DecodeError, replay,
}

pub data RecordType : Type 0 where
  record_session record_item record_operation : RecordType
  other : String → RecordType

pub record LogRecord : Type 0 where
  pub type : RecordType
  pub content : Bytes

-- The version is an `int` of the source; one below zero counts as a header that does not decode.
pub record SessionRecord : Type 0 where
  pub version : ℕ
  pub session : Session

-- An item whose data is not decoded yet.
pub record RawItem : Type 0 where
  pub sequence : ℕ
  pub recorded_at : ℕ
  pub kind : ItemKind
  pub content : JsonValue

-- encoding/json at the types of the log; `none` is an error.
pub record LogCodec : Type 0 where
  pub marshal_line : LogRecord → Option Bytes
  pub unmarshal_line : Bytes → Option LogRecord
  pub marshal_session : SessionRecord → Option Bytes
  pub unmarshal_session : Bytes → Option SessionRecord
  pub marshal_operation : Operation → Option Bytes
  pub unmarshal_operation : Bytes → Option Operation
  pub marshal_item : ItemRecord → Option Bytes
  pub unmarshal_item : Bytes → Option (RawItem × List Operation)
  pub is_null : JsonValue → Bool
  pub unmarshal_fork : JsonValue → Option Fork
  pub unmarshal_input : JsonValue → Option Input
  pub unmarshal_turn : JsonValue → Option Turn
  pub unmarshal_model_response : JsonValue → Option ModelResponse
  pub unmarshal_tool_call_status : JsonValue → Option ToolCallStatus

pub data LogError : Type 0 where
  no_records undecodable session_first legacy_version unsupported_version : LogError
  invalid_session_id zero_creation_time wrong_sequence zero_time initializes : LogError
  unsupported_type unencodable newline_inside : LogError
  unreplayable : DecodeError → LogError

abbrev pub newline : ℕ
newline = 10

unfoldable pub is_session_char : ℕ → Bool
is_session_char c =
    (leb b'a' c && leb c b'z')
    || (leb b'A' c && leb c b'Z')
    || (leb b'0' c && leb c b'9')
    || c == b'-'

unfoldable pub all_session_chars : Bytes → Bool
unfolding is_session_char
all_session_chars [] = true
all_session_chars (c ∷ cs) = let rest = all_session_chars cs in is_session_char c && rest

-- Does `validateSessionID` accept the ID?
unfoldable pub validate_session_id : String → Bool
unfolding all_session_chars
validate_session_id id = not (id == "") && all_session_chars (ascii id)

module _ (j : Json) where
  unfoldable pub is_valid_input : Input → Bool
  is_valid_input input = elim (validate j input) [ none ↦ true | some e ↦ false ]

  -- Does `validateData` accept the data for the kind?
  unfoldable pub validate_data : ItemKind → ItemData → Bool
  unfolding is_valid_input
  validate_data ItemKind.fork (of_fork v) = true
  validate_data ItemKind.input (of_input v) = is_valid_input v
  validate_data ItemKind.turn (of_turn v) = true
  validate_data ItemKind.model_response (of_model_response v) = true
  validate_data ItemKind.tool_call_status (of_tool_call_status v) = true
  validate_data k v = false

module _ (j : Json) (c : LogCodec) where
  -- `json.Marshal` of an item record, with `MarshalJSON` of its item.
  unfoldable pub encode_item : ItemRecord → Option Bytes
  encode_item r = if validate_data j r.item.kind r.item.content then c.marshal_item r else none

  unfoldable pub line_of : Option Bytes → Option Bytes
  line_of none = none
  line_of (some text) = if contains text newline then none else some (text ++ newline ∷ [])

  -- `encodeRecord`, of a value that `json.Marshal` makes this of.
  unfoldable pub encode_record : RecordType → Option Bytes → Option Bytes
  unfolding line_of
  encode_record type none = none
  encode_record type (some text) = line_of (c.marshal_line (record { type = type; content = text }))

  -- The line of a record after the first.
  unfoldable pub encode_decoded : DecodedRecord → Option Bytes
  encode_decoded (of_item r) = encode_record record_item (encode_item r)
  encode_decoded (of_operation v) = encode_record record_operation (c.marshal_operation v)

  -- The record that `encodeInitialLog` makes of an item: the operations of a status stand beside it.
  -- `none` is a failed type assertion.
  unfoldable pub record_of : Item → ItemKind → ItemData → Option ItemRecord
  record_of item ItemKind.tool_call_status (of_tool_call_status status) = some (record {
    item = record item { content = of_tool_call_status (record status { operations = [] }) };
    operations = status.operations;
  })
  record_of item ItemKind.tool_call_status v = none
  record_of item k v = some (record { item = item; operations = [] })

  unfoldable pub encode_made : Option ItemRecord → Option Bytes
  encode_made none = none
  encode_made (some r) = encode_decoded (of_item r)

  -- The loop of `encodeInitialLog`, from an index, after what is encoded.
  unfoldable pub encode_items : ℕ → List Item → Bytes → Option Bytes
  unfolding encode_made
  encode_items index [] encoded = some encoded
  encode_items index (item ∷ rest) encoded =
      let next = λ (line : Bytes). encode_items (index + 1) rest (encoded ++ line) in
      if not (item.sequence == (index + 1) % sequence_mod) || item.recorded_at == 0
      then none
      else elim (encode_made (record_of item item.kind item.content)) [
        | none ↦ none
        | some line ↦ next line
      ]

  -- `encodeInitialLog`
  unfoldable pub encode_initial_log : Session → List Item → Option Bytes
  encode_initial_log value items =
      if not (validate_session_id value.id)
      then none
      else elim (encode_record record_session
          (c.marshal_session (record { version = 2; session = value }))) [
            | none ↦ none
            | some line ↦ encode_items 0 items line
          ]
