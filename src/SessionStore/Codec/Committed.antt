-- ===== src/SessionStore/Codec/Committed.antt =====
-- The committed lines of a log, and what `decodeLog` makes of them whatever stands after them.
use heuristic.Prelude.{
  ℕ, ◌-◌, ◌≡◌, ap, ◌∙◌, inl, inr, List, ◌++◌, arith, nat_eq, string_eq, pair_eq, length,
  length-append, All,
}
use heuristic.Prelude.Bytes.{Bytes}
use heuristic.Prelude.Exec.{Result, ok, Result-cases}
use heuristic.Json.{Json}
use heuristic.SessionStore.State.{StoredState}
use heuristic.SessionStore.Codec.{LogCodec, LogError}
use heuristic.SessionStore.Codec.Reader.{split_lines, decode_lines, decode_log}
use heuristic.SessionStore.Codec.Lines.{IsClean, unlines, split_lines-unlines, split_lines-IsSplit}

module _ (j : Json) (c : LogCodec) where
  -- A log: its committed lines, and what stands after the last newline.
  pub record IsLog (encoded : Bytes) (s : StoredState) (size : ℕ) : Type 0 where
    pub lines : List Bytes
    pub rest : Bytes
    pub joined : encoded ≡ unlines lines ++ rest
    pub clean : All IsClean lines
    pub tail : IsClean rest
    pub decoded : decode_lines j c lines ≡ ok s
    pub size_is : size ≡ length (unlines lines)

  -- The log of these lines, whatever part of a line follows them.
  pub decode_log-lines :
      (lines : List Bytes) (rest : Bytes) (s : StoredState)
      → All IsClean lines
      → IsClean rest
      → decode_lines j c lines ≡ ok s
      → decode_log j c (unlines lines ++ rest) ≡ ok (s, length (unlines lines))
  unfolding decode_log
  decode_log-lines lines rest s hl hr e =
      rw (split_lines-unlines j c lines rest hl hr, decode_log)
        (rw e (
          ap (λ n. ok (s, n))
            (omega (
              arith,
              length-append (unlines lines) rest,
              ap (λ t. length t.1) (split_lines-unlines j c lines rest hl hr),
            ))))

  -- What a log that decodes is made of.
  pub decode_log-IsLog :
      (encoded : Bytes) (s : StoredState) (size : ℕ)
      → decode_log j c encoded ≡ ok (s, size)
      → IsLog encoded s size
  unfolding decode_log
  decode_log-IsLog encoded s size e =
      let split = split_lines-IsSplit j c encoded in
      elim (Result-cases (decode_lines j c (split_lines j c encoded).0)) [
        | inl (x, p) ↦ absurd (let q = rw (p, decode_log) at e in ground arith)
        | inr (t, p) ↦
            let q : Path (Result LogError (StoredState × ℕ))
                (ok (t, length encoded - length (split_lines j c encoded).1)) (ok (s, size)) =
              rw (p, decode_log) at e in
            let i : Path (StoredState × ℕ) (t, length encoded - length (split_lines j c encoded).1)
                (s, size) =
              ground arith in
            record {
              lines = (split_lines j c encoded).0;
              rest = (split_lines j c encoded).1;
              joined = split.joined;
              clean = split.clean;
              tail = split.tail;
              decoded = p ∙ ap (λ x. ok x.0) i;
              size_is = omega (
                arith,
                length-append (unlines (split_lines j c encoded).0) (split_lines j c encoded).1,
                ap (λ (t : Bytes). length t) split.joined,
                ap (λ x. x.1) i,
              );
            }
      ]
