-- ===== src/SessionStore/Codec/Append.antt =====
-- A log that decodes, with one record more, or with a part of its line: `decodeLog` after an append
-- that reached the disk whole, or not.
use heuristic.Prelude.{
  ◌+◌, ◌%◌, ◌≤◌, ◌≡◌, refl, ap, ◌∙◌, subst, ◌≢◌, inl, inr, true, false, ◌&&◌, not, some, List, [],
  ◌∷◌, ◌++◌, arith, Bool-cases, ◌==◌, nat_eq, string_eq, pair_eq, length,
}
use heuristic.Prelude.Bytes.{Bytes}
use heuristic.Prelude.Exec.{ok, Result-cases}
use heuristic.Json.{Json}
use heuristic.SessionStore.Head.{sequence_mod}
use heuristic.SessionStore.State.{StoredState}
use heuristic.SessionStore.Replay.{
  ItemRecord, DecodedRecord, of_item, of_operation, replay, replay_record,
}
use heuristic.SessionStore.Codec.{LogCodec, record_item, record_operation, encode_decoded, newline}
use heuristic.SessionStore.Codec.Reader.{
  LogScan, scan_item, scan_operation, scan_record, scan_line, scan_lines, is_fork, is_status,
  decode_lines, replay_scan, start_scan,
}
use heuristic.SessionStore.Codec.Lines.{IsClean}
use heuristic.SessionStore.Codec.Scans.{
  items_of, IsCounted, Counts, scan_lines-Counts, scan_lines-append,
}
use heuristic.SessionStore.Codec.Replays.{replay-sequence, replay-append}
use heuristic.SessionStore.Codec.Laws.{
  IsLogCodec, encode_record-HasLine, encode_item-marshals, ReadsBack, decode_item-encode_item,
}

module _ (j : Json) (c : LogCodec) where
  -- The record that comes next in a log: an item of owned history, numbered after the last, or an
  -- operation.
  abbrev pub IsNext : StoredState → DecodedRecord → Type 0
  IsNext s (of_item r) =
      (r.item.sequence ≡ (s.item_sequence + 1) % sequence_mod)
      × (r.item.recorded_at ≢ 0)
      × (is_fork j c r.item.kind ≡ false)
      × (is_status j c r.item.kind ≡ false → length r.operations ≡ 0)
  IsNext s (of_operation v) = Unit

  -- A record that the first loop keeps.
  abbrev pub kept : DecodedRecord → LogScan j c → LogScan j c
  kept (of_item r) scan = record scan {
    records = scan.records ++ of_item r ∷ [];
    item_count = scan.item_count + 1;
  }
  kept (of_operation v) scan = record scan { records = scan.records ++ of_operation v ∷ [] }

  -- What `IsNext` says of a record, at the count of the first loop.
  abbrev pub IsDue : LogScan j c → DecodedRecord → Type 0
  IsDue scan (of_item r) =
      (r.item.sequence ≡ (scan.item_count + 1) % sequence_mod)
      × (r.item.recorded_at ≢ 0)
      × (is_fork j c r.item.kind ≡ false)
      × (is_status j c r.item.kind ≡ false → length r.operations ≡ 0)
  IsDue scan (of_operation v) = Unit

  scan_item-IsDue :
      (r : ItemRecord) (scan : LogScan j c)
      → IsDue scan (of_item r)
      → scan_item j c (some r) scan ≡ ok (kept (of_item r) scan)
  unfolding scan_item
  scan_item-IsDue r scan (same, timed, owned, alone) =
      let a : not (r.item.sequence == (scan.item_count + 1) % sequence_mod) ≡ false =
        ap not ((nat_eq.same_iff _ _).1 same) in
      let b : (r.item.recorded_at == 0) ≡ false = ground arith in
      let d : (not (is_status j c r.item.kind) && not (length r.operations == 0)) ≡ false =
        elim (Bool-cases (is_status j c r.item.kind)) [
          | inl p ↦ rw p refl
          | inr p ↦ rw (p, alone p) refl
        ] in
      rw (a, scan_item) (rw (b, scan_item) (rw (d, owned, scan_item) refl))

  -- The text of a line, as the first loop reads it.
  scan_line-encode_decoded :
      (d : DecodedRecord) (line : Bytes) (scan : LogScan j c)
      → IsLogCodec j c
      → ReadsBack j c d
      → encode_decoded j c d ≡ some line
      → IsDue scan d
      → (text : Bytes) × IsClean text
        × (line ≡ text ++ newline ∷ [])
        × (scan_line j c false text scan ≡ ok (kept d scan))
  unfolding scan_line encode_decoded scan_record scan_operation
  scan_line-encode_decoded (of_item r) line scan laws back e due =
      let h = encode_record-HasLine j c record_item _ line e in
      (
        h.text,
        h.clean,
        h.line_is,
        rw
            (
              laws.item_lines r h.content h.text (encode_item-marshals j c r h.content h.made_is)
                  h.marshalled,
              scan_line,
            )
            (rw (decode_item-encode_item j c r h.content back h.made_is)
              (scan_item-IsDue r scan due)),
      )
  scan_line-encode_decoded (of_operation v) line scan laws back e due =
      let h = encode_record-HasLine j c record_operation _ line e in
      (
        h.text,
        h.clean,
        h.line_is,
        rw (laws.operation_lines v h.content h.text h.made_is h.marshalled, scan_line)
            (rw (back h.content h.made_is) refl),
      )

  -- What both loops make of lines that decode.
  record HasScan (line : Bytes) (lines : List Bytes) (s : StoredState) : Type 0 where
    pub scan : LogScan j c
    pub scanned : scan_lines j c true (line ∷ lines) (start_scan j c) ≡ ok scan
    pub counted : IsCounted j c scan
    pub replayed : replay j scan.inherited 0 scan.records scan.value ≡ ok s

  decode_lines-HasScan :
      (line : Bytes) (lines : List Bytes) (s : StoredState)
      → decode_lines j c (line ∷ lines) ≡ ok s
      → HasScan line lines s
  unfolding decode_lines replay_scan
  decode_lines-HasScan line lines s e =
      let start : IsCounted j c (start_scan j c) = record {
        counted = refl;
        owned = omega arith;
        numbered = tt;
        fresh = refl;
      } in
      let counts = scan_lines-Counts j c true (line ∷ lines) (start_scan j c) start in
      elim (Result-cases (scan_lines j c true (line ∷ lines) (start_scan j c))) [
        | inl (x, p) ↦ absurd (let q = rw (p, replay_scan) at e in ground arith)
        | inr (scan, p) ↦ elim (Result-cases (replay j scan.inherited 0 scan.records scan.value)) [
          | inl (x, q) ↦ absurd (let r = rw (p, q, replay_scan) at e in ground arith)
          | inr (t, q) ↦
              let i : t ≡ s = let r = rw (p, q, replay_scan) at e in ground arith in
              record {
                scan = scan;
                scanned = p;
                counted = subst (Counts j c) p counts;
                replayed = q ∙ ap ok i;
              }
        ]
      ]

  HasScan-IsDue :
      (line : Bytes) (lines : List Bytes) (s : StoredState) (d : DecodedRecord)
      (h : HasScan line lines s)
      → IsNext s d
      → IsDue h.scan d
  HasScan-IsDue line lines s (of_operation v) h next = tt
  HasScan-IsDue line lines s (of_item r) h (same, timed, owned, alone) =
      let e : s.item_sequence ≡ (0 + items_of h.scan.records) % sequence_mod =
        replay-sequence j h.scan.inherited 0 h.scan.records h.scan.value s h.counted.numbered
          (omega (arith, h.counted.fresh)) h.replayed in
      (omega (arith, same, e, h.counted.counted), timed, owned, alone)

  kept_lem :
      (d : DecodedRecord) (scan : LogScan j c) (s last : StoredState)
      → scan.inherited ≤ 0 + items_of scan.records
      → replay j scan.inherited 0 scan.records scan.value ≡ ok s
      → replay_record j d s ≡ (ok tt, last)
      → replay_scan j c (ok (kept d scan)) ≡ ok last
  unfolding replay_scan
  kept_lem (of_item r) scan s last h e step =
      rw
        (
          replay-append j scan.inherited 0 scan.records (of_item r) scan.value s last h e step,
          replay_scan,
        )
        refl
  kept_lem (of_operation v) scan s last h e step =
      rw
        (
          replay-append j scan.inherited 0 scan.records (of_operation v) scan.value s last h e step,
          replay_scan,
        )
        refl

  -- A record more on the committed lines.
  pub decode_lines-append :
      (lines : List Bytes) (s last : StoredState) (d : DecodedRecord) (line : Bytes)
      → IsLogCodec j c
      → ReadsBack j c d
      → decode_lines j c lines ≡ ok s
      → IsNext s d
      → encode_decoded j c d ≡ some line
      → replay_record j d s ≡ (ok tt, last)
      → (text : Bytes) × IsClean text
        × (line ≡ text ++ newline ∷ [])
        × (decode_lines j c (lines ++ text ∷ []) ≡ ok last)
  unfolding decode_lines replay_scan
  decode_lines-append [] s last d line laws back e next made step = absurd (ground arith)
  decode_lines-append (l ∷ ls) s last d line laws back e next made step =
      let h = decode_lines-HasScan l ls s e in
      let due = HasScan-IsDue l ls s d h next in
      let (text, clean, line_is, read) =
        scan_line-encode_decoded d line h.scan laws back made due in
      let scanned = scan_lines-append j c true l ls text (start_scan j c) h.scan _ h.scanned read in
      (
        text,
        clean,
        line_is,
        rw (scanned, replay_scan)
            (kept_lem d h.scan s last (omega (arith, h.counted.owned, h.counted.counted)) h.replayed
              step),
      )
