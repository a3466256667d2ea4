-- ===== src/SessionStore/Codec/Scans.antt =====
-- The two loops of `decodeLog`: what the first counts, and both loops on a log with one record more.
use heuristic.Prelude.{
  ℕ, suc, ◌+◌, ◌%◌, ◌≤◌, ◌≡◌, refl, ap, ◌∙◌, subst, inl, inr, Bool, false, ◌&&◌, not, Option, none,
  some, List, [], ◌∷◌, ◌++◌, arith, Option-cases, if-intro, ◌==◌, nat_eq, string_eq, pair_eq,
  length,
}
use heuristic.Prelude.Bytes.{Bytes}
use heuristic.Prelude.Exec.{Result, ok, err, Result-cases}
use heuristic.Json.{Json}
use heuristic.Operation.{Operation}
use heuristic.SessionStore.Head.{sequence_mod}
use heuristic.SessionStore.Replay.{ItemRecord, DecodedRecord, of_item, of_operation}
use heuristic.SessionStore.Codec.{
  LogCodec, RecordType, record_session, record_item, record_operation, LogError, SessionRecord,
  validate_session_id,
}
use heuristic.SessionStore.Codec.Reader.{
  LogScan, scan_session, scan_item, scan_operation, scan_record, scan_line, scan_lines, is_fork,
  is_status,
}

-- The items among records.
abbrev pub items_of : List DecodedRecord → ℕ
items_of [] = 0
items_of (of_item r ∷ ds) = suc (items_of ds)
items_of (of_operation v ∷ ds) = items_of ds

items_of-append : (ds es : List DecodedRecord) → items_of (ds ++ es) ≡ items_of ds + items_of es
items_of-append [] es = omega arith
items_of-append (of_item r ∷ ds) es = omega (arith, items_of-append ds es)
items_of-append (of_operation v ∷ ds) es = items_of-append ds es

-- The items have the sequences after `n`.
abbrev pub IsNumbered : ℕ → List DecodedRecord → Type 0
IsNumbered n [] = Unit
IsNumbered n (of_item r ∷ ds) = (r.item.sequence ≡ (n + 1) % sequence_mod) × IsNumbered (n + 1) ds
IsNumbered n (of_operation v ∷ ds) = IsNumbered n ds

IsNumbered-append :
    (n : ℕ) (ds es : List DecodedRecord)
    → IsNumbered n ds
    → IsNumbered (n + items_of ds) es
    → IsNumbered n (ds ++ es)
IsNumbered-append n [] es h k = subst (λ m. IsNumbered m es) (omega arith) k
IsNumbered-append n (of_item r ∷ ds) es h k =
    (h.0, IsNumbered-append (n + 1) ds es h.1 (subst (λ m. IsNumbered m es) (omega arith) k))
IsNumbered-append n (of_operation v ∷ ds) es h k = IsNumbered-append n ds es h k

module _ (j : Json) (c : LogCodec) where
  pub record IsCounted (scan : LogScan j c) : Type 0 where
    pub counted : items_of scan.records ≡ scan.item_count
    pub owned : scan.inherited ≤ scan.item_count
    pub numbered : IsNumbered 0 scan.records
    pub fresh : scan.value.item_sequence ≡ 0

  abbrev pub Counts : Result LogError (LogScan j c) → Type 0
  Counts (err e) = Unit
  Counts (ok scan) = IsCounted scan

  scan_session-Counts :
      (header : Option SessionRecord) (scan : LogScan j c)
      → IsCounted scan
      → Counts (scan_session j c header scan)
  unfolding scan_session
  scan_session-Counts none scan h = tt
  scan_session-Counts (some header) scan h =
      if-intro Counts (header.version == 1) _ _ (λ b. tt)
        (λ b.
          if-intro Counts (not (header.version == 2)) _ _ (λ b. tt)
            (λ b.
              if-intro Counts (not (validate_session_id header.session.id)) _ _ (λ b. tt)
                (λ b.
                  if-intro Counts (header.session.created_at == 0) _ _ (λ b. tt)
                    (λ b. record {
                      counted = h.counted;
                      owned = h.owned;
                      numbered = h.numbered;
                      fresh = refl;
                    }))))

  numbered_lem :
      (r : ItemRecord) (scan : LogScan j c)
      → IsCounted scan
      → not (r.item.sequence == (scan.item_count + 1) % sequence_mod) ≡ false
      → r.item.sequence ≡ (0 + items_of scan.records + 1) % sequence_mod
  numbered_lem r scan h same =
      let e : r.item.sequence ≡ (scan.item_count + 1) % sequence_mod =
        (nat_eq.same_iff _ _).0 (ground arith) in
      e ∙ ap (λ n. n % sequence_mod) (omega (arith, h.counted))

  scan_item-Counts :
      (r : Option ItemRecord) (scan : LogScan j c) → IsCounted scan → Counts (scan_item j c r scan)
  unfolding scan_item
  scan_item-Counts none scan h = tt
  scan_item-Counts (some r) scan h =
      if-intro Counts (not (r.item.sequence == (scan.item_count + 1) % sequence_mod)) _ _ (λ b. tt)
        (λ same.
          if-intro Counts (r.item.recorded_at == 0) _ _ (λ b. tt)
            (λ b.
              if-intro Counts (not (is_status j c r.item.kind) && not (length r.operations == 0)) _
                _ (λ b. tt)
                (λ b. record {
                  counted = omega (arith, items_of-append scan.records (of_item r ∷ []), h.counted);
                  owned =
                      if-intro (λ n. n ≤ scan.item_count + 1) (is_fork j c r.item.kind)
                        (scan.item_count + 1) scan.inherited (λ f. omega arith)
                        (λ f. omega (arith, h.owned));
                  numbered =
                      IsNumbered-append 0 scan.records (of_item r ∷ []) h.numbered
                        (numbered_lem r scan h same, tt);
                  fresh = h.fresh;
                })))

  scan_operation-Counts :
      (v : Option Operation) (scan : LogScan j c)
      → IsCounted scan
      → Counts (scan_operation j c v scan)
  unfolding scan_operation
  scan_operation-Counts none scan h = tt
  scan_operation-Counts (some v) scan h = record {
    counted = omega (arith, items_of-append scan.records (of_operation v ∷ []), h.counted);
    owned = h.owned;
    numbered = IsNumbered-append 0 scan.records (of_operation v ∷ []) h.numbered tt;
    fresh = h.fresh;
  }

  scan_record-Counts :
      (first : Bool) (t : RecordType) (content : Bytes) (scan : LogScan j c)
      → IsCounted scan
      → Counts (scan_record j c first t content scan)
  unfolding scan_record
  scan_record-Counts first record_session content scan h =
      if-intro Counts (not first) _ _ (λ b. tt) (λ b. scan_session-Counts _ scan h)
  scan_record-Counts first record_item content scan h =
      if-intro Counts first _ _ (λ b. tt) (λ b. scan_item-Counts _ scan h)
  scan_record-Counts first record_operation content scan h =
      if-intro Counts first _ _ (λ b. tt) (λ b. scan_operation-Counts _ scan h)
  scan_record-Counts first (RecordType.other t) content scan h = tt

  scan_line-Counts :
      (first : Bool) (line : Bytes) (scan : LogScan j c)
      → IsCounted scan
      → Counts (scan_line j c first line scan)
  unfolding scan_line
  scan_line-Counts first line scan h = elim (Option-cases (c.unmarshal_line line)) [
    | inl e ↦ rw (e, scan_line) tt
    | inr (r, e) ↦ rw (e, scan_line) (scan_record-Counts first r.type r.content scan h)
  ]

  -- The first loop keeps its counts in order.
  pub scan_lines-Counts :
      (first : Bool) (lines : List Bytes) (scan : LogScan j c)
      → IsCounted scan
      → Counts (scan_lines j c first lines scan)
  unfolding scan_lines
  scan_lines-Counts first [] scan h = h
  scan_lines-Counts first (line ∷ lines) scan h =
      let one = scan_line-Counts first line scan h in
      elim (Result-cases (scan_line j c first line scan)) [
        | inl (e, p) ↦ rw (p, scan_lines) tt
        | inr (next, p) ↦
            rw (p, scan_lines) (scan_lines-Counts false lines next (subst Counts p one))
      ]

  -- One line more, after at least one.
  pub scan_lines-append :
      (first : Bool) (line : Bytes) (lines : List Bytes) (more : Bytes)
      (scan after last : LogScan j c)
      → scan_lines j c first (line ∷ lines) scan ≡ ok after
      → scan_line j c false more after ≡ ok last
      → scan_lines j c first (line ∷ lines ++ more ∷ []) scan ≡ ok last
  unfolding scan_lines
  scan_lines-append first line [] more scan after last h k =
      elim (Result-cases (scan_line j c first line scan)) [
        | inl (e, p) ↦ absurd (ground arith)
        | inr (next, p) ↦ let i : next ≡ after = ground arith in rw (p, scan_lines) (rw (i, k) refl)
      ]
  scan_lines-append first line (l ∷ lines) more scan after last h k =
      elim (Result-cases (scan_line j c first line scan)) [
        | inl (e, p) ↦ absurd (ground arith)
        | inr (next, p) ↦
            rw (p, scan_lines)
              (scan_lines-append false l lines more next after last (rw (p, scan_lines) at h) k)
      ]
