-- ===== src/SessionStore/Codec/Initial.antt =====
-- `encodeInitialLog` of harness/sessionstore/localfile/codec.go, read back by `decodeLog`: the loops
-- of both over the items of a new session, all of them inherited.
use heuristic.Prelude.{
  ℕ, ◌+◌, ◌%◌, ◌≡◌, refl, sym, ap, ◌∙◌, subst, ◌≢◌, inl, inr, false, ◌&&◌, ◌||◌, not, some, List,
  [], ◌∷◌, ◌++◌, arith, if◌then◌else◌, Bool-cases, Option-cases, ◌==◌, nat_eq, string_eq, pair_eq,
  length, All,
}
use mathlib.Core.List.{append_assoc, append-nil}
use heuristic.Prelude.Bytes.{Bytes}
use heuristic.Prelude.Exec.{ok}
use heuristic.Json.{Json}
use heuristic.SessionStore.{Item, ItemKind, ItemData, of_tool_call_status}
use heuristic.SessionStore.Head.{sequence_mod}
use heuristic.SessionStore.Replay.{ItemRecord, DecodedRecord, of_item}
use heuristic.SessionStore.Codec.{
  LogCodec, record_item, newline, record_of, encode_made, encode_items, encode_decoded,
}
use heuristic.SessionStore.Codec.Reader.{
  LogScan, scan_item, scan_record, scan_line, scan_lines, is_fork, is_status,
}
use heuristic.SessionStore.Codec.Lines.{IsClean, unlines}
use heuristic.SessionStore.Codec.Laws.{
  IsLogCodec, ReadsBack, encode_record-HasLine, encode_item-marshals, decode_item-encode_item,
}

-- A status without the operations that it initialized.
abbrev pub IsBare : ItemKind → ItemData → Type 0
IsBare ItemKind.tool_call_status (of_tool_call_status v) = v.operations ≡ []
IsBare k d = Unit

abbrev pub bare : Item → ItemRecord
bare item = record { item = item; operations = [] }

abbrev pub bares : List Item → List DecodedRecord
bares [] = []
bares (item ∷ items) = of_item (bare item) ∷ bares items

module _ (j : Json) (c : LogCodec) where
  record_of-bare :
      (n at : ℕ) (k : ItemKind) (d : ItemData) (r : ItemRecord)
      → IsBare k d
      → record_of j c (record { sequence = n; recorded_at = at; kind = k; content = d }) k d
        ≡ some r
      → r ≡ bare (record { sequence = n; recorded_at = at; kind = k; content = d })
  unfolding record_of
  record_of-bare n at ItemKind.tool_call_status (of_tool_call_status v) r h e =
      let i : record {
        item = record {
          sequence = n;
          recorded_at = at;
          kind = ItemKind.tool_call_status;
          content = of_tool_call_status (record v { operations = [] });
        };
        operations = v.operations;
      }
          ≡ r =
        ground arith in
      sym i
      ∙ ap
          (λ ops. record {
            item = record {
              sequence = n;
              recorded_at = at;
              kind = ItemKind.tool_call_status;
              content = of_tool_call_status (record v { operations = [] });
            };
            operations = ops;
          })
          h
      ∙ ap
          (λ ops. bare (record {
            sequence = n;
            recorded_at = at;
            kind = ItemKind.tool_call_status;
            content = of_tool_call_status (record v { operations = ops });
          }))
          (sym h)
  record_of-bare n at ItemKind.tool_call_status d r h e = absurd (ground arith)
  record_of-bare n at k d r h e = ground arith

  -- The last fork among items that follow `n` others.
  abbrev pub last_fork : ℕ → ℕ → List Item → ℕ
  last_fork n inherited [] = inherited
  last_fork n inherited (item ∷ items) =
      last_fork (n + 1) (if is_fork j c item.kind then n + 1 else inherited) items

  abbrev pub passed : LogScan j c → List Item → LogScan j c
  passed scan items = record scan {
    records = scan.records ++ bares items;
    item_count = scan.item_count + length items;
    inherited = last_fork scan.item_count scan.inherited items;
  }

  abbrev past : Item → LogScan j c → LogScan j c
  past item scan = record scan {
    records = scan.records ++ of_item (bare item) ∷ [];
    item_count = scan.item_count + 1;
    inherited = if is_fork j c item.kind then scan.item_count + 1 else scan.inherited;
  }

  scan_item-bare :
      (item : Item) (scan : LogScan j c)
      → item.sequence ≡ (scan.item_count + 1) % sequence_mod
      → item.recorded_at ≢ 0
      → scan_item j c (some (bare item)) scan ≡ ok (past item scan)
  unfolding scan_item
  scan_item-bare item scan same timed =
      let a : not (item.sequence == (scan.item_count + 1) % sequence_mod) ≡ false =
        ap not ((nat_eq.same_iff _ _).1 same) in
      let b : (item.recorded_at == 0) ≡ false = ground arith in
      let d : (not (is_status j c item.kind) && not (length (bare item).operations == 0)) ≡ false =
        ground arith in
      rw (a, scan_item) (rw (b, scan_item) (rw (d, scan_item) refl))

  -- The lines of the items, and what the first loop makes of them.
  pub record HasItems (scan : LogScan j c) (items : List Item) (encoded text : Bytes) : Type 0 where
    pub lines : List Bytes
    pub clean : All IsClean lines
    pub text_is : text ≡ encoded ++ unlines lines
    pub scanned : scan_lines j c false lines scan ≡ ok (passed scan items)

  scan_lem :
      (scan : LogScan j c) (k : ℕ) {ds es : List DecodedRecord} {m n : ℕ}
      → ds ≡ es
      → m ≡ n
      → ◌≡◌ {A = LogScan j c}
          (record scan { records = ds; item_count = m; inherited = k })
          (record scan { records = es; item_count = n; inherited = k })
  scan_lem scan k {es = es} {m = m} p q =
      ap (λ x. record scan { records = x; item_count = m; inherited = k }) p
      ∙ ap (λ x. record scan { records = es; item_count = x; inherited = k }) q

  module _ (laws : IsLogCodec j c) where
    encode_made-HasLine :
        (item : Item) (line : Bytes) (scan : LogScan j c)
        → IsBare item.kind item.content
        → item.sequence ≡ (scan.item_count + 1) % sequence_mod
        → item.recorded_at ≢ 0
        → ReadsBack j c (of_item (bare item))
        → encode_made j c (record_of j c item item.kind item.content) ≡ some line
        → (text : Bytes) × IsClean text
          × (line ≡ text ++ newline ∷ [])
          × (scan_line j c false text scan ≡ scan_item j c (some (bare item)) scan)
    unfolding encode_made encode_decoded scan_line scan_record
    encode_made-HasLine item line scan h same timed back e =
        elim (Option-cases (record_of j c item item.kind item.content)) [
          | inl p ↦ absurd (let q = rw (p, encode_made) at e in ground arith)
          | inr (r, p) ↦
              let q : encode_decoded j c (of_item r) ≡ some line = rw (p, encode_made) at e in
              let l = encode_record-HasLine j c record_item _ line q in
              let is = record_of-bare item.sequence item.recorded_at item.kind item.content r h p in
              (
                l.text,
                l.clean,
                l.line_is,
                rw
                    (
                      laws.item_lines r l.content l.text
                          (encode_item-marshals j c r l.content l.made_is) l.marshalled,
                      scan_line,
                    )
                    (rw
                      (decode_item-encode_item j c r l.content
                        (subst (λ x. ReadsBack j c (of_item x)) (sym is) back) l.made_is)
                      (ap (λ x. scan_item j c (some x) scan) is)),
              )
        ]

    -- The loop of `encodeInitialLog`, read by the first loop of `decodeLog`.
    pub encode_items-HasItems :
        (items : List Item) (encoded text : Bytes) (scan : LogScan j c)
        → All (λ (i : Item). IsBare i.kind i.content) items
        → All (λ (i : Item). ReadsBack j c (of_item (bare i))) items
        → encode_items j c scan.item_count items encoded ≡ some text
        → HasItems scan items encoded text
    unfolding encode_items scan_lines
    encode_items-HasItems [] encoded text scan h back e = record {
      lines = [];
      clean = tt;
      text_is = let i : encoded ≡ text = ground arith in sym i ∙ sym (append-nil encoded);
      scanned = ap ok (scan_lem scan scan.inherited (sym (append-nil scan.records)) (omega arith));
    }
    encode_items-HasItems (item ∷ items) encoded text scan h back e =
        elim (Bool-cases
          (not (item.sequence == (scan.item_count + 1) % sequence_mod) || item.recorded_at == 0)) [
            | inl b ↦ absurd (let q = rw (b, encode_items) at e in ground arith)
            | inr b ↦
                elim (Option-cases (encode_made j c (record_of j c item item.kind item.content))) [
                  | inl p ↦ absurd (let q = rw (b, p, encode_items) at e in ground arith)
                  | inr (line, p) ↦
                      let same : item.sequence ≡ (scan.item_count + 1) % sequence_mod =
                        (nat_eq.same_iff _ _).0 (ground arith) in
                      let timed : item.recorded_at ≢ 0 = ground arith in
                      let (one, clean, line_is, read) =
                        encode_made-HasLine item line scan h.0 same timed back.0 p in
                      let step = read ∙ scan_item-bare item scan same timed in
                      let more =
                        encode_items-HasItems items (encoded ++ line) text (past item scan) h.1
                          back.1 (rw (b, p, encode_items) at e) in
                      record {
                        lines = one ∷ more.lines;
                        clean = (clean, more.clean);
                        text_is =
                            more.text_is
                            ∙ append_assoc encoded line (unlines more.lines)
                            ∙ ap (λ t. encoded ++ (t ++ unlines more.lines)) line_is
                            ∙ ap (λ t. encoded ++ t)
                                (append_assoc one (newline ∷ []) (unlines more.lines));
                        scanned =
                            rw (step, scan_lines)
                              (more.scanned
                                ∙ ap ok (
                                    scan_lem scan _ (append_assoc scan.records _ (bares items))
                                      (omega arith)));
                      }
                ]
          ]
