-- ===== src/SessionStore/Codec/Reader.antt =====
-- `decodeLog` of harness/sessionstore/localfile/codec.go, and the reading of an item by
-- harness/sessionstore/itemjson.go.
use heuristic.Prelude.{
  ℕ, ◌+◌, ◌-◌, ◌%◌, Bool, true, false, ◌&&◌, not, Option, none, some, List, [], ◌∷◌, ◌++◌,
  if◌then◌else◌, ◌==◌, nat_eq, string_eq, length,
}
use heuristic.Prelude.Bytes.{Bytes}
use heuristic.Prelude.Exec.{Result, ok, err}
use heuristic.Json.{Json}
use heuristic.Llm.{JsonValue}
use heuristic.Operation.{Operation}
use heuristic.Inbox.{Input}
use heuristic.SessionStore.{
  ItemKind, ItemData, of_fork, of_input, of_turn, of_model_response, of_tool_call_status,
}
use heuristic.SessionStore.Head.{sequence_mod}
use heuristic.SessionStore.State.{StoredState, new_stored_state}
use heuristic.SessionStore.Replay.{ItemRecord, DecodedRecord, of_item, of_operation, replay}
use heuristic.SessionStore.Codec.{
  RecordType, record_session, record_item, record_operation, SessionRecord, RawItem, LogCodec,
  LogError, newline, validate_session_id, is_valid_input, no_records, undecodable, session_first,
  legacy_version, unsupported_version, invalid_session_id, zero_creation_time, wrong_sequence,
  zero_time, initializes, unsupported_type, unreplayable,
}

module _ (j : Json) where
  unfoldable pub valid_input : Option Input → Option ItemData
  unfolding is_valid_input
  valid_input none = none
  valid_input (some v) = if is_valid_input j v then some (of_input v) else none

module _ (j : Json) (c : LogCodec) where
  unfoldable pub data_of : {A : Type 0} → (A → ItemData) → Option A → Option ItemData
  data_of f none = none
  data_of f (some v) = some (f v)

  -- The switch of `decodeItemData`.
  unfoldable pub decode_data : ItemKind → JsonValue → Option ItemData
  unfolding data_of valid_input
  decode_data ItemKind.fork v = data_of of_fork (c.unmarshal_fork v)
  decode_data ItemKind.input v = valid_input j (c.unmarshal_input v)
  decode_data ItemKind.turn v = data_of of_turn (c.unmarshal_turn v)
  decode_data ItemKind.model_response v = data_of of_model_response (c.unmarshal_model_response v)
  decode_data ItemKind.tool_call_status v =
      data_of of_tool_call_status (c.unmarshal_tool_call_status v)
  decode_data (ItemKind.other k) v = none

  -- `decodeItemData`
  unfoldable pub decode_item_data : ItemKind → JsonValue → Option ItemData
  decode_item_data kind v = if c.is_null v then none else decode_data kind v

  unfoldable pub item_of : RawItem → List Operation → Option ItemData → Option ItemRecord
  item_of raw operations none = none
  item_of raw operations (some v) = some (record {
    item = record {
      sequence = raw.sequence;
      recorded_at = raw.recorded_at;
      kind = raw.kind;
      content = v;
    };
    operations = operations;
  })

  -- `json.Unmarshal` of an item record, with `UnmarshalJSON` of its item.
  unfoldable pub decode_item : Bytes → Option ItemRecord
  unfolding item_of
  decode_item text = elim (c.unmarshal_item text) [
    | none ↦ none
    | some (raw, operations) ↦ item_of raw operations (decode_item_data raw.kind raw.content)
  ]

  unfoldable pub add_byte : ℕ → List Bytes × Bytes → List Bytes × Bytes
  add_byte b ([], rest) = ([], b ∷ rest)
  add_byte b (line ∷ lines, rest) = ((b ∷ line) ∷ lines, rest)

  -- The committed lines, and what stands after the last newline.
  unfoldable pub split_lines : Bytes → List Bytes × Bytes
  unfolding add_byte
  split_lines [] = ([], [])
  split_lines (b ∷ text) =
      let split = split_lines text in
      if b == newline then ([] ∷ split.0, split.1) else add_byte b split

  -- The first loop of `decodeLog`: the header, the records, and the counts of items.
  pub record LogScan : Type 0 where
    pub value : StoredState
    pub records : List DecodedRecord
    pub item_count : ℕ
    pub inherited : ℕ

  unfoldable pub is_status : ItemKind → Bool
  is_status ItemKind.tool_call_status = true
  is_status k = false

  unfoldable pub is_fork : ItemKind → Bool
  is_fork ItemKind.fork = true
  is_fork k = false

  unfoldable pub scan_session : Option SessionRecord → LogScan → Result LogError LogScan
  scan_session none scan = err undecodable
  scan_session (some header) scan =
      if header.version == 1
      then err legacy_version
      else if not (header.version == 2)
      then err unsupported_version
      else if not (validate_session_id header.session.id)
      then err invalid_session_id
      else if header.session.created_at == 0
      then err zero_creation_time
      else ok (record scan { value = new_stored_state header.session.id header.session.created_at })

  unfoldable pub scan_item : Option ItemRecord → LogScan → Result LogError LogScan
  unfolding is_status is_fork
  scan_item none scan = err undecodable
  scan_item (some r) scan =
      if not (r.item.sequence == (scan.item_count + 1) % sequence_mod)
      then err wrong_sequence
      else if r.item.recorded_at == 0
      then err zero_time
      else if not (is_status r.item.kind) && not (length r.operations == 0)
      then err initializes
      else ok (record scan {
        records = scan.records ++ of_item r ∷ [];
        item_count = scan.item_count + 1;
        inherited = if is_fork r.item.kind then scan.item_count + 1 else scan.inherited;
      })

  unfoldable pub scan_operation : Option Operation → LogScan → Result LogError LogScan
  scan_operation none scan = err undecodable
  scan_operation (some v) scan = ok (record scan { records = scan.records ++ of_operation v ∷ [] })

  -- The switch on the type of a record; `first` is `lineIndex == 0`.
  unfoldable pub scan_record : Bool → RecordType → Bytes → LogScan → Result LogError LogScan
  scan_record first record_session content scan =
      if not first then err session_first else scan_session (c.unmarshal_session content) scan
  scan_record first record_item content scan =
      if first then err session_first else scan_item (decode_item content) scan
  scan_record first record_operation content scan =
      if first then err session_first else scan_operation (c.unmarshal_operation content) scan
  scan_record first (RecordType.other type) content scan = err unsupported_type

  unfoldable pub scan_line : Bool → Bytes → LogScan → Result LogError LogScan
  scan_line first line scan = elim (c.unmarshal_line line) [
    | none ↦ err undecodable
    | some r ↦ scan_record first r.type r.content scan
  ]

  unfoldable pub scan_lines : Bool → List Bytes → LogScan → Result LogError LogScan
  scan_lines first [] scan = ok scan
  scan_lines first (line ∷ rest) scan = elim (scan_line first line scan) [
    | err e ↦ err e
    | ok next ↦ scan_lines false rest next
  ]

  abbrev pub start_scan : LogScan
  start_scan = record { value = new_stored_state "" 0; records = []; item_count = 0; inherited = 0 }

  unfoldable pub replay_scan : Result LogError LogScan → Result LogError StoredState
  replay_scan (err e) = err e
  replay_scan (ok scan) = elim (replay j scan.inherited 0 scan.records scan.value) [
    | err e ↦ err (unreplayable e)
    | ok s ↦ ok s
  ]

  -- The state of the committed lines.
  unfoldable pub decode_lines : List Bytes → Result LogError StoredState
  decode_lines [] = err no_records
  decode_lines (line ∷ lines) = replay_scan (scan_lines true (line ∷ lines) start_scan)

  -- `decodeLog`: the state, and the size of the committed lines.
  unfoldable pub decode_log : Bytes → Result LogError (StoredState × ℕ)
  decode_log encoded =
      let (lines, rest) = split_lines encoded in
      elim (decode_lines lines) [ err e ↦ err e | ok s ↦ ok (s, length encoded - length rest) ]
