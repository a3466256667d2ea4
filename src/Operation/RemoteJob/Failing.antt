-- ===== src/Operation/RemoteJob/Failing.antt =====
-- `FailRemoteJob` on each remote job that decodes, which `failLocalOperation` relies on.
use heuristic.Prelude.{
  ℕ, String, ◌≡◌, refl, ap, ◌∙◌, inl, inr, Bool, true, false, ◌||◌, not, Option, none, some, [],
  arith, leb, Bool-cases, Option-cases, if-intro, ◌==◌, nat_eq, string_eq, pair_eq, ℤ, length,
}
use heuristic.Prelude.Bytes.{Bytes}
use heuristic.Prelude.Exec.{ok, Result-cases}
use heuristic.Llm.{bytes}
use heuristic.Operation.{Operation, is_terminal, failed}
use heuristic.Operation.Output.{Utf8, bound_output, bound_output_in}
use heuristic.Operation.Step.{Step, OperationError, encoded, error_text}
use heuristic.Operation.Machine.{Ends}
use heuristic.Operation.RemoteJob.{
  Library, RemoteJobState, validate_plan, decode_remote_job_state, bounded_text, is_blank,
  prepare_output, checkpoint, update_remote_job, fail_remote_job,
}

-- `BoundOutput` does not panic.
bound_output-total :
    (u : Utf8) (text : Bytes) (limit : ℤ)
    → (r : Bytes × Bool) × (bound_output u text limit ≡ some r)
unfolding bound_output bound_output_in
bound_output-total u text limit =
    let P = λ (r : Option (Bytes × Bool)). (x : Bytes × Bool) × (r ≡ some x) in
    if-intro P (not (length text == length text)) _ _ (λ b. absurd (ground arith))
      (λ b. if-intro P (leb (u.rune_count text) _) _ _ (λ c. (_, refl)) (λ c. (_, refl)))

-- A text that `BoundOutput` returned.
abbrev pub IsBounded : Utf8 → Bytes → Type 0
IsBounded u text =
    (whole : Bytes) × (limit : ℤ) × (b : Bool) × (bound_output u whole limit ≡ some (text, b))

-- encoding/json writes a state whose JSON values were read, and whose texts are valid UTF-8.
abbrev pub IsEncoder : Library → Type 0
IsEncoder l =
    (source : String) (before state : RemoteJobState)
    → l.codec.decode source ≡ some before
    → state.plan ≡ before.plan
    → state.handle ≡ before.handle
    → state.outstanding_input ≡ before.outstanding_input
    → state.subscription ≡ none
    → IsBounded l.utf8 state.terminal_result
    → IsBounded l.utf8 state.terminal_error
    → (text : String) × (l.codec.encode state ≡ some text)

module _ (l : Library) (current : Operation) (step : Step) where
  checkpoint-Ends :
      (state : Option RemoteJobState)
      → checkpoint l (record current { status = failed }) [] state ≡ ok step
      → Ends current step
  unfolding checkpoint encoded is_terminal
  checkpoint-Ends none p = absurd (ground arith)
  checkpoint-Ends (some state) p = elim (Option-cases (l.codec.encode state)) [
    | inl q ↦ absurd (ground arith)
    | inr (text, q) ↦ record {
      next = record current { status = failed; state = some text };
      checkpoint = ground arith;
      id = refl;
      terminal = refl;
    }
  ]

  update_remote_job-Ends :
      (state : RemoteJobState)
      → update_remote_job l current state failed [] ≡ ok step
      → Ends current step
  unfolding update_remote_job
  update_remote_job-Ends state p = elim (Result-cases (decode_remote_job_state l current)) [
    | inl (x, d) ↦ absurd (let q = rw (d, update_remote_job) at p in ground arith)
    | inr (before, d) ↦ elim (Bool-cases (validate_plan l state.plan)) [
      | inr v ↦ absurd (let q = rw (d, v, update_remote_job) at p in ground arith)
      | inl v ↦ checkpoint-Ends _ (rw (d, v, update_remote_job) at p)
    ]
  ]

  -- A step of `FailRemoteJob` ends the operation.
  pub fail_remote_job-step :
      (e : OperationError) → fail_remote_job l current e ≡ ok step → Ends current step
  unfolding fail_remote_job
  fail_remote_job-step e p = elim (Result-cases (decode_remote_job_state l current)) [
    | inl (x, d) ↦ absurd (let q = rw (d, fail_remote_job) at p in ground arith)
    | inr (state, d) ↦ update_remote_job-Ends _ (rw (d, fail_remote_job) at p)
  ]

module _ (l : Library) (encodes : IsEncoder l) where
  -- What a text that was not cut before is bounded to.
  bounded_text_lem :
      (limit : ℤ) (text : Bytes) (size : ℕ) (truncated : Bool)
      → (not truncated || is_blank text) ≡ true
      → (r : Bytes × ℕ × Bool) × (bounded_text l limit text size truncated ≡ some r)
        × IsBounded l.utf8 r.0
  unfolding bounded_text
  bounded_text_lem limit text size truncated fresh =
      let ((cut, b), e) = bound_output-total l.utf8 text limit in
      ((cut, length text, b), rw (fresh, e, bounded_text) refl, (text, limit, b, e))

  -- The state of a remote job, read back.
  decoded_lem :
      (current : Operation) (state : RemoteJobState)
      → decode_remote_job_state l current ≡ ok state
      → (l.codec.decode (bytes current.state) ≡ some state) × (validate_plan l state.plan ≡ true)
  unfolding decode_remote_job_state
  decoded_lem current state e = elim (Option-cases (l.codec.decode (bytes current.state))) [
    | inl q ↦ absurd (ground arith)
    | inr (s, q) ↦ let i : s ≡ state = ground arith in (q ∙ ap some i, ground arith)
  ]

  module _ (current : Operation) (state : RemoteJobState) (error : Bytes) where
    failing : RemoteJobState
    failing = record state {
      terminal_error = error;
      error_bytes = 0;
      error_truncated = false;
      terminal_result = [];
      subscription = none;
    }

    prepared_lem :
        (prepared : RemoteJobState) × (prepare_output l (record current { status = failed }) failing
          ≡ some prepared)
        × (prepared.plan ≡ state.plan)
        × (prepared.handle ≡ state.handle)
        × (prepared.outstanding_input ≡ state.outstanding_input)
        × (prepared.subscription ≡ none)
        × IsBounded l.utf8 prepared.terminal_result
        × IsBounded l.utf8 prepared.terminal_error
    unfolding failing prepare_output is_blank
    prepared_lem =
        let ((t, n, b), p, x) =
          bounded_text_lem current.max_output_length [] state.result_bytes state.result_truncated
            (ground arith) in
        let ((u, k, c), q, y) = bounded_text_lem current.max_output_length error 0 false refl in
        let prepared : RemoteJobState = record state {
          terminal_result = t;
          result_bytes = n;
          result_truncated = b;
          terminal_error = u;
          error_bytes = k;
          error_truncated = c;
          subscription = none;
        } in
        (prepared, rw (p, q, prepare_output) refl, refl, refl, refl, refl, x, y)

    -- `FailRemoteJob` ends a remote job that decodes, under the same identity.
    failing_lem :
        decode_remote_job_state l current ≡ ok state
        → (next : Operation) × (update_remote_job l current failing failed []
            ≡ ok (record { operation = some next; dispatches = [] }))
          × (next.id ≡ current.id)
          × (is_terminal next.status ≡ true)
    unfolding update_remote_job checkpoint encoded is_terminal failing
    failing_lem e =
        let (prepared, p, plan, handle, input, subscription, x, y) = prepared_lem in
        let (d, v) = decoded_lem current state e in
        let (text, t) =
          encodes (bytes current.state) state prepared d plan handle input subscription x y in
        (
          record current { status = failed; state = some text },
          rw (e, v, p, t, update_remote_job, checkpoint, encoded) refl,
          refl,
          refl,
        )

  -- `FailRemoteJob` succeeds on every remote job that decodes, whatever the error: it checkpoints the
  -- same operation with a terminal status, and starts nothing.
  pub fail_remote_job-Ends :
      (current : Operation) (state : RemoteJobState) (e : OperationError)
      → decode_remote_job_state l current ≡ ok state
      → (next : Operation) × (fail_remote_job l current e
          ≡ ok (record { operation = some next; dispatches = [] }))
        × (next.id ≡ current.id)
        × (is_terminal next.status ≡ true)
  unfolding fail_remote_job failing
  fail_remote_job-Ends current state e d =
      let (next, p, i, t) = failing_lem current state (error_text l.format e) d in
      (next, rw (d, fail_remote_job) p, i, t)
