-- ===== src/SessionStore/Codec/Restored.antt =====
-- A new log, or the log of a fork, as `decodeLog` reads it: the state that `publishInitialState` wrote.
use heuristic.Prelude.{
  ℕ, ◌+◌, ◌≤◌, ◌≡◌, refl, sym, ap, ◌∙◌, ◌≢◌, inl, inr, true, false, not, some, List, [], ◌∷◌, ◌++◌,
  arith, ltb, Bool-cases, Option-cases, ◌==◌, nat_eq, string_eq, pair_eq, length, All, contains,
}
use mathlib.Core.List.{append_assoc, append-nil}
use heuristic.Prelude.Bytes.{Bytes}
use heuristic.Prelude.Exec.{ok, Result-cases}
use heuristic.Json.{Json}
use heuristic.Session.{Session}
use heuristic.SessionStore.{Item}
use heuristic.SessionStore.State.{StoredState, inherit_item, inherit_items, new_stored_state}
use heuristic.SessionStore.Replay.{of_item, replay, inherit_record}
use heuristic.SessionStore.Codec.{
  LogCodec, record_session, newline, encode_initial_log, encode_record, validate_session_id,
}
use heuristic.SessionStore.Codec.Reader.{
  LogScan, scan_session, scan_record, scan_line, scan_lines, decode_lines, decode_log, replay_scan,
  start_scan,
}
use heuristic.SessionStore.Codec.Lines.{IsClean, unlines}
use heuristic.SessionStore.Codec.Laws.{ReadsBack, IsLogCodec, encode_record-HasLine}
use heuristic.SessionStore.Codec.Committed.{decode_log-lines}
use heuristic.SessionStore.Codec.Initial.{IsBare, bare, bares, last_fork, encode_items-HasItems}

-- Records of inherited items, replayed.
replay-bares :
    (j : Json) (items : List Item) (n inherited : ℕ) (s t : StoredState)
    → n + length items ≤ inherited
    → inherit_items items s ≡ ok t
    → replay j inherited n (bares items) s ≡ ok t
unfolding replay inherit_items inherit_record
replay-bares j [] n inherited s t h e = let i : s ≡ t = ground arith in ap ok i
replay-bares j (item ∷ items) n inherited s t h e =
    let b : ltb n inherited ≡ true = ground arith in
    elim (Result-cases (inherit_item item s)) [
      | inl (x, p) ↦ absurd (let q = rw (p, inherit_items) at e in ground arith)
      | inr (u, p) ↦
          rw (b, p, replay)
            (replay-bares j items (n + 1) inherited u t (omega (arith, h))
              (rw (p, inherit_items) at e))
    ]

module _ (j : Json) (c : LogCodec) where
  -- Every item is inherited: there is none, or the last is the fork.
  abbrev pub AllInherited : List Item → Type 0
  AllInherited items = length items ≤ last_fork j c 0 0 items

  abbrev started : Session → LogScan j c
  started value = record (start_scan j c) { value = new_stored_state value.id value.created_at }

  scan_session-start :
      (value : Session)
      → validate_session_id value.id ≡ true
      → value.created_at ≢ 0
      → scan_session j c (some (record { version = 2; session = value })) (start_scan j c)
        ≡ ok (started value)
  unfolding scan_session
  scan_session-start value valid timed =
      let a : not (validate_session_id value.id) ≡ false = ap not valid in
      let b : (value.created_at == 0) ≡ false = ground arith in
      rw (a, scan_session) (rw (b, scan_session) refl)

  header_lem :
      (laws : IsLogCodec j c) (value : Session) (line : Bytes)
      → validate_session_id value.id ≡ true
      → value.created_at ≢ 0
      → encode_record j c record_session
          (c.marshal_session (record { version = 2; session = value }))
        ≡ some line
      → (text : Bytes) × IsClean text
        × (line ≡ text ++ newline ∷ [])
        × (scan_line j c true text (start_scan j c) ≡ ok (started value))
  unfolding scan_line scan_record
  header_lem laws value line valid timed e =
      let h = encode_record-HasLine j c record_session _ line e in
      (
        h.text,
        h.clean,
        h.line_is,
        rw (laws.session_lines _ h.content h.text h.made_is h.marshalled, scan_line)
            (rw (laws.sessions _ h.content h.made_is) (scan_session-start value valid timed)),
      )

  -- What `encodeInitialLog` writes of a state whose items are all inherited is read as that state.
  pub decode_log-encode_initial_log :
      (laws : IsLogCodec j c) (value : Session) (items : List Item) (t : StoredState) (text : Bytes)
      → value.created_at ≢ 0
      → All (λ (i : Item). IsBare i.kind i.content) items
      → AllInherited items
      → All (λ (i : Item). ReadsBack j c (of_item (bare i))) items
      → inherit_items items (new_stored_state value.id value.created_at) ≡ ok t
      → encode_initial_log j c value items ≡ some text
      → decode_log j c text ≡ ok (t, length text)
  unfolding encode_initial_log decode_lines replay_scan scan_lines contains
  decode_log-encode_initial_log laws value items t text timed plain owned back state e =
      elim (Bool-cases (validate_session_id value.id)) [
        | inr b ↦ absurd (let q = rw (b, encode_initial_log) at e in ground arith)
        | inl b ↦
            elim (Option-cases (
              encode_record j c record_session
                (c.marshal_session (record { version = 2; session = value })))) [
                  | inl p ↦ absurd (let q = rw (b, p, encode_initial_log) at e in ground arith)
                  | inr (line, p) ↦
                      let (one, clean, line_is, read) = header_lem laws value line b timed p in
                      let h =
                        encode_items-HasItems j c laws items line text (started value) plain back
                          (rw (b, p, encode_initial_log) at e) in
                      let whole : text ≡ unlines (one ∷ h.lines) ++ [] =
                        h.text_is
                        ∙ ap (λ t. t ++ unlines h.lines) line_is
                        ∙ append_assoc one (newline ∷ []) (unlines h.lines)
                        ∙ sym (append-nil _) in
                      let restored : decode_lines j c (one ∷ h.lines) ≡ ok t =
                        rw (read, scan_lines)
                          (rw (h.scanned, replay_scan)
                            (rw
                              (
                                replay-bares j items 0 (last_fork j c 0 0 items)
                                    (new_stored_state value.id value.created_at) t
                                    (omega (arith, owned)) state,
                                replay_scan,
                              )
                              refl)) in
                      ap (decode_log j c) whole
                      ∙ decode_log-lines j c (one ∷ h.lines) [] t (clean, h.clean) refl restored
                      ∙ ap (λ n. ok (t, n))
                          (sym (
                            ap (λ (t : Bytes). length t) whole
                            ∙ ap (λ (t : Bytes). length t) (append-nil (unlines (one ∷ h.lines)))))
                ]
      ]
