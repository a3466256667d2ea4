-- ===== src/SessionStore/Codec/Laws.antt =====
-- What encoding/json keeps to, and a record read back from the bytes that it was encoded to:
-- `encodeRecord` of harness/sessionstore/localfile/codec.go and harness/sessionstore/itemjson.go.
use heuristic.Prelude.{
  ◌≡◌, refl, inl, inr, true, false, Option, none, some, [], ◌∷◌, ◌++◌, arith, Bool-cases,
  Option-cases, nat_eq, string_eq, pair_eq, contains,
}
use heuristic.Prelude.Bytes.{Bytes}
use heuristic.Json.{Json}
use heuristic.Llm.{JsonValue}
use heuristic.Operation.{Operation}
use heuristic.SessionStore.{
  ItemKind, ItemData, of_fork, of_input, of_turn, of_model_response, of_tool_call_status,
}
use heuristic.SessionStore.Replay.{ItemRecord, DecodedRecord, of_item, of_operation}
use heuristic.SessionStore.Codec.{
  LogCodec, RecordType, record_session, record_item, record_operation, SessionRecord, encode_item,
  encode_record, line_of, validate_data, newline,
}
use heuristic.SessionStore.Codec.Reader.{
  decode_item, decode_item_data, decode_data, data_of, valid_input, item_of,
}
use heuristic.SessionStore.Codec.Lines.{IsClean}

module _ (j : Json) (c : LogCodec) where
  -- The data of an item, read back.
  abbrev pub Reads : JsonValue → ItemData → Type 0
  Reads v (of_fork x) = c.unmarshal_fork v ≡ some x
  Reads v (of_input x) = c.unmarshal_input v ≡ some x
  Reads v (of_turn x) = c.unmarshal_turn v ≡ some x
  Reads v (of_model_response x) = c.unmarshal_model_response v ≡ some x
  Reads v (of_tool_call_status x) = c.unmarshal_tool_call_status v ≡ some x

  -- encoding/json reads back the header of a session, and each line whose data it made itself.
  pub record IsLogCodec : Type 0 where
    pub session_lines :
        (h : SessionRecord) (content b : Bytes)
        → c.marshal_session h ≡ some content
        → c.marshal_line (record { type = record_session; content = content }) ≡ some b
        → c.unmarshal_line b ≡ some (record { type = record_session; content = content })
    pub item_lines :
        (r : ItemRecord) (content b : Bytes)
        → c.marshal_item r ≡ some content
        → c.marshal_line (record { type = record_item; content = content }) ≡ some b
        → c.unmarshal_line b ≡ some (record { type = record_item; content = content })
    pub operation_lines :
        (v : Operation) (content b : Bytes)
        → c.marshal_operation v ≡ some content
        → c.marshal_line (record { type = record_operation; content = content }) ≡ some b
        → c.unmarshal_line b ≡ some (record { type = record_operation; content = content })
    pub sessions :
        (h : SessionRecord) (b : Bytes)
        → c.marshal_session h ≡ some b
        → c.unmarshal_session b ≡ some h

  -- The record is read back as it was written. Raw JSON with white space is not: encoding/json leaves
  -- it out when it writes the value.
  abbrev pub ReadsBack : DecodedRecord → Type 0
  ReadsBack (of_operation v) =
      (b : Bytes) → c.marshal_operation v ≡ some b → c.unmarshal_operation b ≡ some v
  ReadsBack (of_item r) =
      (b : Bytes)
      → c.marshal_item r ≡ some b
      → (v : JsonValue) × (c.unmarshal_item b
          ≡ some (
            record {
              sequence = r.item.sequence;
              recorded_at = r.item.recorded_at;
              kind = r.item.kind;
              content = v;
            },
            r.operations,
          ))
        × (c.is_null v ≡ false)
        × Reads v r.item.content

  -- An encoded record, taken apart.
  pub record HasLine (t : RecordType) (made : Option Bytes) (line : Bytes) : Type 0 where
    pub content : Bytes
    pub text : Bytes
    pub made_is : made ≡ some content
    pub marshalled : c.marshal_line (record { type = t; content = content }) ≡ some text
    pub clean : IsClean text
    pub line_is : line ≡ text ++ newline ∷ []

  pub encode_record-HasLine :
      (t : RecordType) (made : Option Bytes) (line : Bytes)
      → encode_record j c t made ≡ some line
      → HasLine t made line
  unfolding encode_record line_of
  encode_record-HasLine t none line e = absurd (ground arith)
  encode_record-HasLine t (some content) line e =
      elim (Option-cases (c.marshal_line (record { type = t; content = content }))) [
        | inl p ↦ absurd (let q = rw (p, line_of) at e in ground arith)
        | inr (text, p) ↦ elim (Bool-cases (contains text newline)) [
          | inl b ↦ absurd (let q = rw (p, b, line_of) at e in ground arith)
          | inr b ↦
              let q = rw (p, b, line_of) at e in
              record {
                content = content;
                text = text;
                made_is = refl;
                marshalled = p;
                clean = b;
                line_is = ground arith;
              }
        ]
      ]

  decode_data-Reads :
      (k : ItemKind) (d : ItemData) (v : JsonValue)
      → validate_data j k d ≡ true
      → Reads v d
      → decode_data j c k v ≡ some d
  unfolding decode_data validate_data data_of valid_input
  decode_data-Reads ItemKind.fork (of_fork x) v h e = rw (e, data_of) refl
  decode_data-Reads ItemKind.input (of_input x) v h e = rw (e, valid_input) (rw h refl)
  decode_data-Reads ItemKind.turn (of_turn x) v h e = rw (e, data_of) refl
  decode_data-Reads ItemKind.model_response (of_model_response x) v h e = rw (e, data_of) refl
  decode_data-Reads ItemKind.tool_call_status (of_tool_call_status x) v h e = rw (e, data_of) refl
  decode_data-Reads k d v h e = absurd (ground arith)

  -- A record that was encoded is read back.
  pub decode_item-encode_item :
      (r : ItemRecord) (b : Bytes)
      → ReadsBack (of_item r)
      → encode_item j c r ≡ some b
      → decode_item j c b ≡ some r
  unfolding decode_item encode_item decode_item_data item_of
  decode_item-encode_item r b back e =
      elim (Bool-cases (validate_data j r.item.kind r.item.content)) [
        | inr h ↦ absurd (let q = rw (h, encode_item) at e in ground arith)
        | inl h ↦
            let (v, read, present, reads) = back b (rw (h, encode_item) at e) in
            rw (read, decode_item)
              (rw (present, decode_item_data)
                (rw (decode_data-Reads r.item.kind r.item.content v h reads) refl))
      ]

  -- What `json.Marshal` made of an item that is encoded.
  pub encode_item-marshals :
      (r : ItemRecord) (b : Bytes) → encode_item j c r ≡ some b → c.marshal_item r ≡ some b
  unfolding encode_item
  encode_item-marshals r b e = elim (Bool-cases (validate_data j r.item.kind r.item.content)) [
    | inr h ↦ absurd (let q = rw (h, encode_item) at e in ground arith)
    | inl h ↦ rw (h, encode_item) at e
  ]
