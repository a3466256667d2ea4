-- ===== src/SessionStore/Files/Disk.antt =====
-- `appendFile` of harness/sessionstore/localfile/store.go, wherever it stops, on a log that decodes.
use heuristic.Prelude.{
  ℕ, ◌+◌, ◌-◌, ◌≡◌, ap, ◌∙◌, ◌⊎◌, inl, inr, none, some, ◌++◌, arith, ltb, Bool-cases, nat_eq,
  string_eq, pair_eq, length, take, length-append,
}
use mathlib.Core.List.{append-nil}
use heuristic.Prelude.Bytes.{Bytes}
use heuristic.Prelude.Exec.{ok}
use heuristic.Prelude.Slices.{take_whole}
use heuristic.Json.{Json}
use heuristic.SessionStore.State.{StoredState}
use heuristic.SessionStore.Replay.{DecodedRecord, replay_record}
use heuristic.SessionStore.Codec.{LogCodec, encode_decoded}
use heuristic.SessionStore.Codec.Reader.{decode_log}
use heuristic.SessionStore.Codec.Laws.{ReadsBack, IsLogCodec}
use heuristic.SessionStore.Codec.Committed.{decode_log-IsLog}
use heuristic.SessionStore.Codec.Append.{IsNext}
use heuristic.SessionStore.Codec.Crash.{decode_log-append, decode_log-torn}
use heuristic.SessionStore.Files.{
  AppendFate, unopened, untruncated, unsynced, unclosed, appended, partly, append_file,
  append_failure, truncate, zeros,
}

module _ (j : Json) (c : LogCodec) where
  truncate-take :
      (text : Bytes) (s : StoredState) (size : ℕ)
      → decode_log j c text ≡ ok (s, size)
      → truncate size text ≡ take size text
  unfolding truncate zeros
  truncate-take text s size e =
      let h = decode_log-IsLog j c text s size e in
      let within : size - length text ≡ 0 =
        omega (arith, h.size_is, ap (λ (t : Bytes). length t) h.joined, length-append _ h.rest) in
      ap (λ n. take size text ++ zeros n) within ∙ append-nil (take size text)

  -- The state of a log, whatever its size.
  abbrev pub ReadsAs : Bytes → StoredState → Type 0
  ReadsAs text s = (size : ℕ) × (decode_log j c text ≡ ok (s, size))

  module _ (laws : IsLogCodec j c) (text line : Bytes) (size : ℕ) (s last : StoredState)
      (d : DecodedRecord) (back : ReadsBack j c d) (e : decode_log j c text ≡ ok (s, size))
      (next : IsNext j c s d) (made : encode_decoded j c d ≡ some line)
      (step : replay_record j d s ≡ (ok tt, last)) where
    whole : decode_log j c (truncate size text ++ line) ≡ ok (last, size + length line)
    whole =
        ap (λ t. decode_log j c (t ++ line)) (truncate-take text s size e)
        ∙ decode_log-append j c text line size s last d laws back e next made step

    -- No error: the log holds the record.
    pub append_file-appended :
        (fate : AppendFate)
        → append_failure fate ≡ none
        → decode_log j c (append_file fate size line text) ≡ ok (last, size + length line)
    unfolding append_failure append_file
    append_file-appended appended h = whole
    append_file-appended fate h = absurd (ground arith)

    -- Where encoding/json reads back the lines that it makes and reads back the record as it was
    -- written, which it does of no raw JSON with white space, `appendFile` of a record that comes
    -- next on a log that decodes leaves, wherever it stops, a log that decodes to the state before
    -- the record or to the one after it.
    pub append_file_atomic :
        (fate : AppendFate)
        → ReadsAs (append_file fate size line text) s
          ⊎ ReadsAs (append_file fate size line text) last
    unfolding append_file
    append_file_atomic unopened = inl (size, e)
    append_file_atomic untruncated = inl (size, e)
    append_file_atomic unsynced = inr (_, whole)
    append_file_atomic unclosed = inr (_, whole)
    append_file_atomic appended = inr (_, whole)
    append_file_atomic (partly k) = elim (Bool-cases (ltb k (length line))) [
      | inl b ↦ inl (
        size,
        ap (λ t. decode_log j c (t ++ take k line)) (truncate-take text s size e)
            ∙ decode_log-torn j c text line size k s d e made (ground arith),
      )
      | inr b ↦ inr (
        _,
        ap (λ t. decode_log j c (truncate size text ++ t)) (take_whole line k (ground arith))
            ∙ whole,
      )
    ]
