-- ===== src/SessionStore/Codec/Crash.antt =====
-- `appendFile` on a log, as the reader finds it: an append that the disk holds whole, and one that
-- a crash or a full disk cut short.
use heuristic.Prelude.{
  ℕ, zero, suc, ◌+◌, ◌≤◌, ◌<◌, ◌≡◌, refl, sym, ap, ◌∙◌, subst, Option, some, [], ◌∷◌, ◌++◌, arith,
  nat_eq, string_eq, pair_eq, length, take, length-append, All-append, contains,
}
use mathlib.Core.List.{append-nil}
use heuristic.Prelude.Bytes.{Bytes}
use heuristic.Prelude.Exec.{ok}
use heuristic.Prelude.Slices.{take-append, take_short}
use heuristic.Json.{Json}
use heuristic.SessionStore.State.{StoredState}
use heuristic.SessionStore.Replay.{DecodedRecord, of_item, of_operation, replay_record}
use heuristic.SessionStore.Codec.{
  LogCodec, RecordType, record_item, record_operation, encode_decoded, newline,
}
use heuristic.SessionStore.Codec.Reader.{decode_log}
use heuristic.SessionStore.Codec.Lines.{IsClean, unlines, unlines-append}
use heuristic.SessionStore.Codec.Laws.{ReadsBack, IsLogCodec, HasLine, encode_record-HasLine}
use heuristic.SessionStore.Codec.Committed.{IsLog, decode_log-lines, decode_log-IsLog}
use heuristic.SessionStore.Codec.Append.{IsNext, decode_lines-append}

take-IsClean : (xs : Bytes) (k : ℕ) → IsClean xs → IsClean (take k xs)
unfolding contains
take-IsClean xs zero h = refl
take-IsClean [] (suc k) h = refl
take-IsClean (x ∷ xs) (suc k) h = ground (arith, take-IsClean xs k (ground arith))

module _ (j : Json) (c : LogCodec) where
  taken :
      (encoded : Bytes) (s : StoredState) (size : ℕ) (h : IsLog j c encoded s size)
      → take size encoded ≡ unlines h.lines
  taken encoded s size h =
      ap (λ n. take n encoded) h.size_is
      ∙ ap (λ t. take (length (unlines h.lines)) t) h.joined
      ∙ take-append (unlines h.lines) h.rest

  -- The committed part of a log, with what follows it: a part of a line is not read.
  pub decode_log-rest :
      (encoded rest : Bytes) (s : StoredState) (size : ℕ)
      → decode_log j c encoded ≡ ok (s, size)
      → IsClean rest
      → decode_log j c (take size encoded ++ rest) ≡ ok (s, size)
  decode_log-rest encoded rest s size e clean =
      let h = decode_log-IsLog j c encoded s size e in
      ap (λ t. decode_log j c (t ++ rest)) (taken encoded s size h)
      ∙ decode_log-lines j c h.lines rest s h.clean clean h.decoded
      ∙ ap (λ n. ok (s, n)) (sym h.size_is)

  -- Where encoding/json reads back the lines that it makes and reads back the record as it was
  -- written, which it does of no raw JSON with white space, a log that decodes, cut to its
  -- committed size and followed by the encoding of the next record, decodes to the state that
  -- replaying the record gives, and the committed size is the old one with the length of the line.
  pub decode_log-append :
      (encoded line : Bytes) (size : ℕ) (s last : StoredState) (d : DecodedRecord)
      → IsLogCodec j c
      → ReadsBack j c d
      → decode_log j c encoded ≡ ok (s, size)
      → IsNext j c s d
      → encode_decoded j c d ≡ some line
      → replay_record j d s ≡ (ok tt, last)
      → decode_log j c (take size encoded ++ line) ≡ ok (last, size + length line)
  unfolding contains
  decode_log-append encoded line size s last d laws back e next made step =
      let h = decode_log-IsLog j c encoded s size e in
      let (text, clean, line_is, read) =
        decode_lines-append j c h.lines s last d line laws back h.decoded next made step in
      let whole : take size encoded ++ line ≡ unlines (h.lines ++ text ∷ []) ++ [] =
        ap (λ t. t ++ line) (taken encoded s size h)
        ∙ ap (λ t. unlines h.lines ++ t) line_is
        ∙ sym (unlines-append h.lines (text ∷ []))
        ∙ sym (append-nil _) in
      ap (decode_log j c) whole
      ∙ decode_log-lines j c (h.lines ++ text ∷ []) [] last
          (All-append IsClean h.lines (text ∷ []) h.clean (clean, tt)) refl read
      ∙ ap (λ n. ok (last, n))
          (omega (
            arith,
            h.size_is,
            ap (λ (t : Bytes). length t) (unlines-append h.lines (text ∷ [])),
            length-append (unlines h.lines) (unlines (text ∷ [])),
            ap (λ (t : Bytes). length t) line_is,
          ))

  part_lem :
      (t : RecordType) (made : Option Bytes) (line : Bytes) (k : ℕ)
      → HasLine j c t made line
      → k < length line
      → IsClean (take k line)
  part_lem t made line k h short =
      let within : k ≤ length h.text = omega (
        arith,
        short,
        length-append h.text (newline ∷ []),
        ap (λ (t : Bytes). length t) h.line_is,
      ) in
      subst IsClean (sym (ap (take k) h.line_is ∙ take_short h.text (newline ∷ []) k within))
        (take-IsClean h.text k h.clean)

  torn_lem :
      (d : DecodedRecord) (line : Bytes) (k : ℕ)
      → encode_decoded j c d ≡ some line
      → k < length line
      → IsClean (take k line)
  unfolding encode_decoded
  torn_lem (of_item r) line k made h =
      part_lem _ _ line k (encode_record-HasLine j c record_item _ line made) h
  torn_lem (of_operation v) line k made h =
      part_lem _ _ line k (encode_record-HasLine j c record_operation _ line made) h

  -- A log that decodes, cut to its committed size and followed by a proper prefix of an encoded
  -- record, decodes to the same state and the same committed size.
  pub decode_log-torn :
      (encoded line : Bytes) (size k : ℕ) (s : StoredState) (d : DecodedRecord)
      → decode_log j c encoded ≡ ok (s, size)
      → encode_decoded j c d ≡ some line
      → k < length line
      → decode_log j c (take size encoded ++ take k line) ≡ ok (s, size)
  decode_log-torn encoded line size k s d e made h =
      decode_log-rest encoded (take k line) s size e (torn_lem d line k made h)
