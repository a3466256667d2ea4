-- ===== src/Operation/Shell/Reads.antt =====
-- The reads of a shell, and `Handle`, keep the identity and the type of the operation.
use heuristic.Prelude.{
  ℕ, ◌+◌, ◌-◌, ◌≡◌, refl, inl, inr, ◌&&◌, ◌||◌, not, Option, none, some, [], ltb, if-intro, ◌==◌,
  nat_eq, string_eq, pair_eq, length,
}
use heuristic.Prelude.Bytes.{Bytes}
use heuristic.Prelude.Exec.{Result, ok, err}
use heuristic.Primitive.{
  PrimitiveEvent, EventType, EventResult, IoReadRequest, read_output, read_completed,
  io_read_output, io_read_completed,
}
use heuristic.Operation.{Operation, Status, ready, awaiting, canceling}
use heuristic.Operation.Step.{OperationError}
use heuristic.Operation.Shell.{
  Library, Phase, create_directory, create_out, create_err, process, read_out, read_out_tail,
  read_err, read_err_tail, ShellPaths, new_shell_paths, validate_shell_correlation, phase_text,
  shell_read_limit,
}
use heuristic.Operation.Shell.Steps.{Shell, fail, read_request}
use heuristic.Operation.Shell.Events.{
  is_process, is_zero, resume_at, resume, read_completed_with, is_tail, read_output_with, smaller,
  completed_with, read_typed, read_event,
}
use heuristic.Operation.Shell.Kept.{
  RunsShell, Stays, fail-Stays, cancel-Stays, dispatch_phase-Stays, next-Stays, created-Stays,
  process_event-Stays, finish-Stays,
}
use heuristic.Operation.Shell.Handle.{
  phase_event, correlated, awaiting_typed, handle_awaiting, is_initial, begin_at, handle_from,
  handle,
}
use heuristic.Prelude.Exec.{Result-cases}

module _ (l : Library) (v : Operation) where
  module _ (paths : ShellPaths) where
    read_completed_lem :
        (text : Bytes) (size : ℕ) (phase : Phase) (s : Shell)
        → RunsShell v s
        → Stays v (
            read_completed_with l text size paths
              (record s { state = record s.state { phase = phase } }))
    unfolding read_completed_with
    read_completed_lem text size read_out s h = next-Stays l v paths _ _ h
    read_completed_lem text size read_out_tail s h = next-Stays l v paths _ _ h
    read_completed_lem text size read_err s h =
        if-intro (Stays v) (ltb (shell_read_limit s.current) size) _ _
          (λ b. next-Stays l v paths _ _ h) (λ b. finish-Stays l v paths _ h)
    read_completed_lem text size read_err_tail s h = finish-Stays l v paths _ h
    read_completed_lem text size phase s h = fail-Stays l v _ _ h

    read_output-Stays :
        (request : IoReadRequest) (r : EventResult) (s : Shell)
        → RunsShell v s
        → Stays v (read_output_with l request r s)
    unfolding read_output_with
    read_output-Stays request (read_output offset chunk) s h =
        if-intro (Stays v) (not (offset == request.offset + s.read_size)) _ _
          (λ b. fail-Stays l v _ s h)
          (λ b.
            if-intro (Stays v) (ltb request.count (s.read_size + length chunk)) _ _
              (λ c. fail-Stays l v _ s h) (λ c. (h, inl refl, tt)))
    read_output-Stays request r s h = fail-Stays l v _ s h

    completed-Stays :
        (request : IoReadRequest) (r : EventResult) (s : Shell)
        → RunsShell v s
        → Stays v (completed_with l request r paths s)
    unfolding completed_with smaller
    completed-Stays request (read_completed size) s h =
        if-intro (Stays v)
          (ltb size request.offset
            || not (s.read_size == smaller l request.count (size - request.offset)))
          _ _ (λ b. fail-Stays l v _ s h)
          (λ b.
            if-intro (Stays v)
              (is_tail l s.state.phase && not (size == request.offset + request.count)) _ _
              (λ c. fail-Stays l v _ s h)
              (λ c.
                read_completed_lem _ size s.state.phase (record s { chunks = []; read_size = 0 })
                  h))
    completed-Stays request r s h = fail-Stays l v _ s h

    read_typed-Stays :
        (t : EventType) (r : EventResult) (request : IoReadRequest) (s : Shell)
        → RunsShell v s
        → Stays v (read_typed l t r request paths s)
    unfolding read_typed
    read_typed-Stays io_read_output r request s h = read_output-Stays request r s h
    read_typed-Stays io_read_completed r request s h = completed-Stays request r s h
    read_typed-Stays t r request s h = fail-Stays l v _ s h

    read_event-Stays :
        (event : PrimitiveEvent) (s : Shell) → RunsShell v s → Stays v (read_event l event paths s)
    unfolding read_event
    read_event-Stays event s h = elim (Result-cases (read_request l s paths)) [
      | inl (e, p) ↦ rw (p, read_event) (fail-Stays l v e s h)
      | inr (request, p) ↦ rw (p, read_event) (read_typed-Stays event.type event.result request s h)
    ]

    phase_lem :
        (event : PrimitiveEvent) (phase : Phase) (s : Shell)
        → RunsShell v s
        → Stays v
            (phase_event l event paths (record s { state = record s.state { phase = phase } }))
    unfolding phase_event
    phase_lem event create_directory s h = created-Stays l v paths event _ h
    phase_lem event create_out s h = created-Stays l v paths event _ h
    phase_lem event create_err s h = created-Stays l v paths event _ h
    phase_lem event process s h = process_event-Stays l v paths _ _ _ h
    phase_lem event read_out s h = read_event-Stays event _ h
    phase_lem event read_err s h = read_event-Stays event _ h
    phase_lem event read_out_tail s h = read_event-Stays event _ h
    phase_lem event read_err_tail s h = read_event-Stays event _ h
    phase_lem event phase s h = fail-Stays l v _ _ h

  correlated-Stays :
      (event : PrimitiveEvent) (s : Shell) (r : Result OperationError ShellPaths)
      → RunsShell v s
      → Stays v (correlated l event s r)
  unfolding correlated
  correlated-Stays event s (err e) h = fail-Stays l v e s h
  correlated-Stays event s (ok paths) h = phase_lem paths event s.state.phase s h

  other_event-Stays :
      (event : PrimitiveEvent) (s : Shell) (e : Option OperationError)
      → validate_shell_correlation event (phase_text s.state.phase) ≡ e
      → RunsShell v s
      → Stays v (elim e [
        | some x ↦ fail l x s
        | none ↦ correlated l event s (new_shell_paths l s.state.base_directory s.current.id)
      ])
  other_event-Stays event s none p h = correlated-Stays event s _ h
  other_event-Stays event s (some e) p h = fail-Stays l v e s h

  awaiting_typed-Stays :
      (event : PrimitiveEvent) (t : EventType) (s : Shell)
      → RunsShell v s
      → Stays v (awaiting_typed l event t s)
  unfolding awaiting_typed
  awaiting_typed-Stays event EventType.canceled s h = cancel-Stays l v s h
  awaiting_typed-Stays event EventType.failed s h = fail-Stays l v _ s h
  awaiting_typed-Stays event t s h = other_event-Stays event s _ refl h

  handle_awaiting-Stays :
      (event : PrimitiveEvent) (s : Shell) → RunsShell v s → Stays v (handle_awaiting l event s)
  unfolding handle_awaiting
  handle_awaiting-Stays event s h =
      if-intro (Stays v) (not (event.source == s.current.id)) _ _ (λ b. fail-Stays l v _ s h)
        (λ b. awaiting_typed-Stays event event.type s h)

  begin_at-Stays :
      (s : Shell) (r : Result OperationError ShellPaths) → RunsShell v s → Stays v (begin_at l s r)
  unfolding begin_at
  begin_at-Stays s (err e) h = fail-Stays l v e s h
  begin_at-Stays s (ok paths) h = next-Stays l v paths _ s h

  resume_at-Stays :
      (s : Shell) (r : Result OperationError ShellPaths) → RunsShell v s → Stays v (resume_at l s r)
  unfolding resume_at
  resume_at-Stays s (err e) h = fail-Stays l v e s h
  resume_at-Stays s (ok paths) h = dispatch_phase-Stays l v paths _ h

  resume-Stays : (s : Shell) → RunsShell v s → Stays v (resume l s)
  unfolding resume
  resume-Stays s h =
      if-intro (Stays v) (is_process l s.state.phase) _ _
        (λ b.
          if-intro (Stays v) (is_zero l s.state.process_group_id) _ _ (λ c. fail-Stays l v _ s h)
            (λ c. fail-Stays l v _ s h))
        (λ b. resume_at-Stays s _ h)

  handle_from-Stays :
      (status : Status) (event : Option PrimitiveEvent) (s : Shell)
      → RunsShell v s
      → Stays v (handle_from l status event s)
  unfolding handle_from
  handle_from-Stays ready (some event) s h = tt
  handle_from-Stays ready none s h =
      if-intro (Stays v) (not (is_initial l s.state)) _ _ (λ b. tt) (λ b. begin_at-Stays s _ h)
  handle_from-Stays awaiting none s h = resume-Stays s h
  handle_from-Stays awaiting (some event) s h = handle_awaiting-Stays event s h
  handle_from-Stays canceling (some event) s h = tt
  handle_from-Stays canceling none s h = cancel-Stays l v s h
  handle_from-Stays status event s h = tt

  -- A step of a shell that succeeds keeps the ID and the type of the operation, checkpoints only the
  -- operation that it holds, and starts a primitive only when the operation then awaits.
  pub handle-Stays :
      (event : Option PrimitiveEvent) (s : Shell) → RunsShell v s → Stays v (handle l s event)
  unfolding handle
  handle-Stays event s h = handle_from-Stays s.current.status event s h
