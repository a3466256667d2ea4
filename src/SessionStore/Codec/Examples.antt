-- ===== src/SessionStore/Codec/Examples.antt =====
-- A concrete encoding of the records that the tests use, turns and forks of a few sessions, which
-- reads back what it writes.
use heuristic.Prelude.{
  ℕ, zero, suc, String, ◌≡◌, refl, sym, ap, ◌∙◌, subst, inl, inr, Bool, true, false, Option, none,
  some, List, [], ◌∷◌, arith, if◌then◌else◌, Option-cases, ◌==◌, nat_eq, string_eq, pair_eq, All,
}
use heuristic.Prelude.Bytes.{Bytes}
use heuristic.Fixtures.{plain}
use heuristic.Llm.{JsonValue}
use heuristic.Operation.{Operation}
use heuristic.Session.{TurnType, regular}
use heuristic.SessionStore.{Item, ItemKind, ItemData, of_fork, of_turn}
use heuristic.SessionStore.Replay.{ItemRecord, DecodedRecord, of_item, of_operation}
use heuristic.SessionStore.Codec.{
  LogCodec, LogRecord, RawItem, RecordType, record_session, record_item, SessionRecord,
}
use heuristic.SessionStore.Codec.Laws.{Reads, ReadsBack, IsLogCodec}
use heuristic.SessionStore.Codec.Initial.{bare}

abbrev write_count : ℕ → Bytes → Bytes
write_count zero rest = 98 ∷ rest
write_count (suc n) rest = 97 ∷ write_count n rest

abbrev read_count : Bytes → ℕ × Bytes
read_count [] = (0, [])
read_count (b ∷ rest) = let r = read_count rest in if b == 97 then (suc r.0, r.1) else (0, rest)

count_reads : (n : ℕ) (rest : Bytes) → read_count (write_count n rest) ≡ (n, rest)
count_reads zero rest = refl
count_reads (suc n) rest = ap (λ r. (suc r.0, r.1)) (count_reads n rest)

abbrev marshal_id : String → Option ℕ
marshal_id s =
    if s == "s" then some 1 else if s == "t" then some 2 else if s == "f" then some 3 else none

abbrev unmarshal_id : ℕ → Option String
unmarshal_id n =
    if n == 1 then some "s" else if n == 2 then some "t" else if n == 3 then some "f" else none

id_reads : (s : String) (n : ℕ) → marshal_id s ≡ some n → unmarshal_id n ≡ some s
id_reads s n e =
    ground (arith, e, string_eq.same_iff s "s", string_eq.same_iff s "t", string_eq.same_iff s "f")

abbrev marshal_session : SessionRecord → Option Bytes
marshal_session h = elim (marshal_id h.session.id) [
  | none ↦ none
  | some n ↦ some (n ∷ write_count h.version (write_count h.session.created_at []))
]

abbrev unmarshal_session : Bytes → Option SessionRecord
unmarshal_session [] = none
unmarshal_session (n ∷ text) = elim (unmarshal_id n) [
  | none ↦ none
  | some id ↦ some (record {
    version = (read_count text).0;
    session = record { id = id; created_at = (read_count (read_count text).1).0 };
  })
]

sessions_read :
    (h : SessionRecord) (b : Bytes) → marshal_session h ≡ some b → unmarshal_session b ≡ some h
sessions_read h b e = elim (Option-cases (marshal_id h.session.id)) [
  | inl p ↦ absurd (let q = rw (p, marshal_session) at e in ground arith)
  | inr (n, p) ↦
      let text = write_count h.version (write_count h.session.created_at []) in
      let written : n ∷ text ≡ b = let q = rw (p, marshal_session) at e in ground arith in
      let first : read_count text ≡ (h.version, write_count h.session.created_at []) =
        count_reads h.version _ in
      let second : (read_count (read_count text).1).0 ≡ h.session.created_at =
        ap (λ r. (read_count r.1).0) first ∙ ap (λ r. r.0) (count_reads h.session.created_at []) in
      subst (λ t. unmarshal_session t ≡ some h) written
        (rw (id_reads h.session.id n p, unmarshal_session)
          (ap
              (λ v. some (record {
                version = v;
                session = record {
                  id = h.session.id;
                  created_at = (read_count (read_count text).1).0;
                };
              }))
              (ap (λ r. r.0) first)
            ∙ ap
                (λ at. some (record {
                  version = h.version;
                  session = record { id = h.session.id; created_at = at };
                }))
                second))
]

-- A tag of the kind, and the one text that the item holds.
abbrev marshal_data : ItemKind → ItemData → List Operation → Option (ℕ × String)
marshal_data ItemKind.turn (of_turn v) [] =
    if v.previous_turn_id == "" then elim v.type [ regular ↦ some (1, v.id) | _ ↦ none ] else none
marshal_data ItemKind.fork (of_fork v) [] =
    if v.parent_id == "s" then some (2, v.previous_turn_id) else none
marshal_data k d ops = none

abbrev kind_of : ℕ → ItemKind
kind_of tag = if tag == 1 then ItemKind.turn else ItemKind.fork

abbrev marshal_item : ItemRecord → Option Bytes
marshal_item r = elim (marshal_data r.item.kind r.item.content r.operations) [
  | none ↦ none
  | some (tag, id) ↦ elim (marshal_id id) [
    | none ↦ none
    | some n ↦ some (tag ∷ n ∷ write_count r.item.sequence (write_count r.item.recorded_at []))
  ]
]

abbrev unmarshal_item : Bytes → Option (RawItem × List Operation)
unmarshal_item (tag ∷ n ∷ text) = elim (unmarshal_id n) [
  | none ↦ none
  | some id ↦ some (
    record {
      sequence = (read_count text).0;
      recorded_at = (read_count (read_count text).1).0;
      kind = kind_of tag;
      content = some id;
    },
    [],
  )
]
unmarshal_item text = none

abbrev marshal_line : LogRecord → Option Bytes
marshal_line r = elim r.type [
  | record_session ↦ some (1 ∷ r.content)
  | record_item ↦ some (2 ∷ r.content)
  | _ ↦ none
]

abbrev unmarshal_line : Bytes → Option LogRecord
unmarshal_line [] = none
unmarshal_line (tag ∷ text) =
    if tag == 1
    then some (record { type = record_session; content = text })
    else some (record { type = record_item; content = text })

-- Operations, inputs, responses and statuses are not written.
abbrev pub log_codec : LogCodec
log_codec = record {
  marshal_line = marshal_line;
  unmarshal_line = unmarshal_line;
  marshal_session = marshal_session;
  unmarshal_session = unmarshal_session;
  marshal_operation = λ v. none;
  unmarshal_operation = λ text. none;
  marshal_item = marshal_item;
  unmarshal_item = unmarshal_item;
  is_null = λ v. elim v [ none ↦ true | some s ↦ false ];
  unmarshal_fork = λ v. elim v [
    | none ↦ none
    | some s ↦ some (record { parent_id = "s"; previous_turn_id = s })
  ];
  unmarshal_input = λ v. none;
  unmarshal_turn = λ v. elim v [
    | none ↦ none
    | some s ↦ some (record { id = s; previous_turn_id = ""; type = regular })
  ];
  unmarshal_model_response = λ v. none;
  unmarshal_tool_call_status = λ v. none;
}

-- What an encoding of the data tells of it.
record HasData (k : ItemKind) (d : ItemData) (ops : List Operation) (tag : ℕ) (id : String)
    : Type 0 where
  pub none_left : ops ≡ []
  pub kind_is : kind_of tag ≡ k
  pub reads : Reads plain log_codec (some id) d

text_lem :
    (b : Bool) (n m : ℕ) (s t : String)
    → ◌≡◌ {A = Option (ℕ × String)} (if b then some (n, s) else none) (some (m, t))
    → (b ≡ true) × (n ≡ m) × (s ≡ t)
text_lem true n m s t e =
    let q : Path (ℕ × String) (n, s) (m, t) = ground arith in
    (refl, ap (λ x. x.0) q, ap (λ x. x.1) q)
text_lem false n m s t e = absurd (ground arith)

turn_lem :
    (own previous : String) (type : TurnType) (tag : ℕ) (id : String)
    → marshal_data ItemKind.turn
        (of_turn (record { id = own; previous_turn_id = previous; type = type }))
        []
      ≡ some (tag, id)
    → HasData ItemKind.turn
        (of_turn (record { id = own; previous_turn_id = previous; type = type }))
        []
        tag
        id
turn_lem own previous regular tag id e =
    let (same, one, text) = text_lem (previous == "") 1 tag own id e in
    let root : previous ≡ "" = (string_eq.same_iff previous "").0 same in
    record {
      none_left = refl;
      kind_is = ap kind_of (sym one);
      reads =
          ap (λ x. some (record { id = x; previous_turn_id = ""; type = regular })) (sym text)
          ∙ ap (λ x. some (record { id = own; previous_turn_id = x; type = regular })) (sym root);
    }
turn_lem own previous type tag id e = absurd (ground arith)

marshal_data-HasData :
    (k : ItemKind) (d : ItemData) (ops : List Operation) (tag : ℕ) (id : String)
    → marshal_data k d ops ≡ some (tag, id)
    → HasData k d ops tag id
marshal_data-HasData ItemKind.fork (of_fork v) [] tag id e =
    let (same, one, text) = text_lem (v.parent_id == "s") 2 tag v.previous_turn_id id e in
    let parent : v.parent_id ≡ "s" = (string_eq.same_iff v.parent_id "s").0 same in
    record {
      none_left = refl;
      kind_is = ap kind_of (sym one);
      reads =
          ap (λ x. some (record { parent_id = "s"; previous_turn_id = x })) (sym text)
          ∙ ap (λ x. some (record { parent_id = x; previous_turn_id = v.previous_turn_id }))
              (sym parent);
    }
marshal_data-HasData ItemKind.turn (of_turn v) [] tag id e =
    turn_lem v.id v.previous_turn_id v.type tag id e
marshal_data-HasData k d ops tag id e = absurd (ground arith)

raw_lem :
    {n m at time : ℕ} {k l : ItemKind} {ops : List Operation} {v : JsonValue}
    → n ≡ m
    → at ≡ time
    → k ≡ l
    → [] ≡ ops
    → ◌≡◌ {A = Option (RawItem × List Operation)}
        (some (record { sequence = n; recorded_at = at; kind = k; content = v }, []))
        (some (record { sequence = m; recorded_at = time; kind = l; content = v }, ops))
raw_lem {n} {m} {at} {time} {k} {l} {ops} {v} a b c d =
    ap (λ x. some (record { sequence = x; recorded_at = at; kind = k; content = v }, [])) a
    ∙ ap (λ x. some (record { sequence = m; recorded_at = x; kind = k; content = v }, [])) b
    ∙ ap (λ x. some (record { sequence = m; recorded_at = time; kind = x; content = v }, [])) c
    ∙ ap (λ x. some (record { sequence = m; recorded_at = time; kind = l; content = v }, x)) d

lines_lem :
    (t : RecordType) (content b : Bytes)
    → marshal_line (record { type = t; content = content }) ≡ some b
    → unmarshal_line b ≡ some (record { type = t; content = content })
lines_lem record_session content b e =
    let i : 1 ∷ content ≡ b = ground arith in ap unmarshal_line (sym i)
lines_lem record_item content b e =
    let i : 2 ∷ content ≡ b = ground arith in ap unmarshal_line (sym i)
lines_lem t content b e = absurd (ground arith)

lines_read : (r : LogRecord) (b : Bytes) → marshal_line r ≡ some b → unmarshal_line b ≡ some r
lines_read r b e = lines_lem r.type r.content b e

items_read :
    (r : ItemRecord) (b : Bytes)
    → marshal_item r ≡ some b
    → (v : JsonValue) × (unmarshal_item b
        ≡ some (
          record {
            sequence = r.item.sequence;
            recorded_at = r.item.recorded_at;
            kind = r.item.kind;
            content = v;
          },
          r.operations,
        ))
      × (log_codec.is_null v ≡ false)
      × Reads plain log_codec v r.item.content
items_read r b e = elim (Option-cases (marshal_data r.item.kind r.item.content r.operations)) [
  | inl p ↦ absurd (let q = rw (p, marshal_item) at e in ground arith)
  | inr ((tag, id), p) ↦ elim (Option-cases (marshal_id id)) [
    | inl p' ↦ absurd (let q = rw (p, p', marshal_item) at e in ground arith)
    | inr (n, p') ↦
        let h = marshal_data-HasData r.item.kind r.item.content r.operations tag id p in
        let text = write_count r.item.sequence (write_count r.item.recorded_at []) in
        let written : tag ∷ n ∷ text ≡ b = let q = rw (p, p', marshal_item) at e in ground arith in
        let first : read_count text ≡ (r.item.sequence, write_count r.item.recorded_at []) =
          count_reads r.item.sequence _ in
        let second : (read_count (read_count text).1).0 ≡ r.item.recorded_at =
          ap (λ x. (read_count x.1).0) first ∙ ap (λ x. x.0) (count_reads r.item.recorded_at []) in
        (
          some id,
          ap unmarshal_item (sym written)
              ∙ rw (id_reads id n p', unmarshal_item)
                  (raw_lem (ap (λ x. x.0) first) second h.kind_is (sym h.none_left)),
          refl,
          h.reads,
        )
  ]
]

pub log_codec-IsLogCodec : IsLogCodec plain log_codec
log_codec-IsLogCodec = record {
  session_lines = λ h content b made e. lines_read _ b e;
  item_lines = λ r content b made e. lines_read _ b e;
  operation_lines = λ v content b made e. lines_read _ b e;
  sessions = sessions_read;
}

pub log_codec-ReadsBack : (d : DecodedRecord) → ReadsBack plain log_codec d
log_codec-ReadsBack (of_item r) = items_read r
log_codec-ReadsBack (of_operation v) = λ b e. absurd (ground arith)

pub log_codec-All :
    (items : List Item) → All (λ (i : Item). ReadsBack plain log_codec (of_item (bare i))) items
log_codec-All [] = tt
log_codec-All (i ∷ items) = (items_read (bare i), log_codec-All items)
