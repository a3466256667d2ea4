-- ===== src/Operation/Shell/Kept.antt =====
-- What each step of a shell keeps: the identity and the type of the operation, and that it awaits
-- when it dispatches.
use heuristic.Prelude.{
  ◌≡◌, refl, ap, ◌⊎◌, inl, inr, Bool, not, Option, none, some, [], leb, Option-cases, if-intro,
  nat_eq, string_eq, pair_eq, ℤ,
}
use heuristic.Prelude.Bytes.{Bytes}
use heuristic.Prelude.Exec.{Result, ok, err}
use heuristic.Primitive.{
  PrimitiveEvent, EventType, EventResult, IoReadRequest, started, exited, process_started,
  process_exited,
}
use heuristic.Operation.{Operation, awaiting}
use heuristic.Operation.Step.{Dispatch, OperationError, encoded}
use heuristic.Operation.Shell.{
  Library, Phase, create_directory, create_out, create_err, process, read_out, read_out_tail,
  read_err, read_err_tail, ShellPaths, validate_shell_create,
}
use heuristic.Operation.Shell.Steps.{
  Shell, Handled, bound_error, encode_state, checkpoint, await, end_with, fail, cancel,
  with_dispatch, dispatch, dispatch_read, dispatch_phase, next,
}
use heuristic.Operation.Shell.Events.{
  is_create_directory, created, process_started_with, process_exited_with, process_event, finished,
  finish,
}

-- Does the machine run the operation?
abbrev pub RunsShell : Operation → Shell → Type 0
RunsShell v s = (s.current.id ≡ v.id) × (s.current.type ≡ v.type)

-- A checkpoint is of the operation that the machine holds.
abbrev pub IsCheckpoint : Shell → Option Operation → Type 0
IsCheckpoint s none = Unit
IsCheckpoint s (some next) =
    (next.id ≡ s.current.id) × (next.type ≡ s.current.type) × (next.status ≡ s.current.status)

abbrev pub Stays : Operation → Handled → Type 0
Stays v (err e, s) = Unit
Stays v (ok step, s) =
    RunsShell v s
    × ((step.dispatches ≡ []) ⊎ (s.current.status ≡ awaiting))
    × IsCheckpoint s step.operation

module _ (l : Library) (v : Operation) where
  encode_state-Stays : (s : Shell) → RunsShell v s → Stays v (encode_state l s)
  unfolding encode_state encoded
  encode_state-Stays s h = elim (Option-cases (l.codec.encode s.state)) [
    | inl e ↦ rw (e, encode_state, encoded) tt
    | inr (text, e) ↦ rw (e, encode_state, encoded) (h, inl refl, (refl, refl, refl))
  ]

  encode_state-status : (s : Shell) → (encode_state l s).1.current ≡ s.current
  unfolding encode_state encoded
  encode_state-status s = elim (Option-cases (l.codec.encode s.state)) [
    | inl e ↦ rw (e, encode_state, encoded) refl
    | inr (text, e) ↦ rw (e, encode_state, encoded) refl
  ]

  pub checkpoint-Stays : (s : Shell) → RunsShell v s → Stays v (checkpoint l s)
  unfolding checkpoint
  checkpoint-Stays s h = elim (Option-cases (bound_error l s)) [
    | inl e ↦ rw (e, checkpoint) tt
    | inr (r, e) ↦ rw (e, checkpoint) (encode_state-Stays _ h)
  ]

  pub checkpoint-current : (s : Shell) → (checkpoint l s).1.current ≡ s.current
  unfolding checkpoint
  checkpoint-current s = elim (Option-cases (bound_error l s)) [
    | inl e ↦ rw (e, checkpoint) refl
    | inr (r, e) ↦ rw (e, checkpoint) (encode_state-status _)
  ]

  pub fail-Stays : (e : OperationError) (s : Shell) → RunsShell v s → Stays v (fail l e s)
  unfolding fail end_with
  fail-Stays e s h = checkpoint-Stays _ h

  pub cancel-Stays : (s : Shell) → RunsShell v s → Stays v (cancel l s)
  unfolding cancel end_with
  cancel-Stays s h = checkpoint-Stays _ h

  pub await-Stays : (s : Shell) → RunsShell v s → Stays v (await l s)
  unfolding await
  await-Stays s h = checkpoint-Stays _ h

  with_dispatch-Stays :
      (d : Dispatch) (r : Handled)
      → Stays v r
      → r.1.current.status ≡ awaiting
      → Stays v (with_dispatch l d r)
  unfolding with_dispatch
  with_dispatch-Stays d (err e, s) h a = tt
  with_dispatch-Stays d (ok step, s) (i, x, c) a = (i, inr a, c)

  pub dispatch-Stays : (d : Dispatch) (s : Shell) → RunsShell v s → Stays v (dispatch l d s)
  unfolding dispatch await
  dispatch-Stays d s h =
      with_dispatch-Stays d _ (await-Stays s h) (ap (λ c. c.status) (checkpoint-current _))

  pub dispatch_read-Stays :
      (s : Shell) (r : Result OperationError IoReadRequest)
      → RunsShell v s
      → Stays v (dispatch_read l s r)
  unfolding dispatch_read
  dispatch_read-Stays s (err e) h = fail-Stays e s h
  dispatch_read-Stays s (ok request) h = dispatch-Stays _ s h

  module _ (paths : ShellPaths) where
    next_lem :
        (phase : Phase) (s : Shell)
        → RunsShell v s
        → Stays v (dispatch_phase l paths (record s { state = record s.state { phase = phase } }))
    unfolding dispatch_phase
    next_lem create_directory s h = dispatch-Stays _ _ h
    next_lem create_out s h = dispatch-Stays _ _ h
    next_lem create_err s h = dispatch-Stays _ _ h
    next_lem process s h = dispatch-Stays _ _ h
    next_lem read_out s h = dispatch_read-Stays _ _ h
    next_lem read_err s h = dispatch_read-Stays _ _ h
    next_lem read_out_tail s h = dispatch_read-Stays _ _ h
    next_lem read_err_tail s h = dispatch_read-Stays _ _ h
    next_lem phase s h = fail-Stays _ _ h

    pub dispatch_phase-Stays : (s : Shell) → RunsShell v s → Stays v (dispatch_phase l paths s)
    dispatch_phase-Stays s h = next_lem s.state.phase s h

    pub next-Stays : (phase : Phase) (s : Shell) → RunsShell v s → Stays v (next l phase paths s)
    unfolding next
    next-Stays phase s h = next_lem phase s h

    created_lem :
        (event : PrimitiveEvent) (phase : Phase) (s : Shell)
        → RunsShell v s
        → Stays v (created l event paths (record s { state = record s.state { phase = phase } }))
    unfolding created is_create_directory
    created_lem event create_directory s h =
        if-intro (Stays v) (not (validate_shell_create event.type event.result _)) _ _
          (λ b. fail-Stays _ _ h) (λ b. next-Stays create_out _ h)
    created_lem event create_out s h =
        if-intro (Stays v) (not (validate_shell_create event.type event.result _)) _ _
          (λ b. fail-Stays _ _ h) (λ b. next-Stays create_err _ h)
    created_lem event create_err s h =
        if-intro (Stays v) (not (validate_shell_create event.type event.result _)) _ _
          (λ b. fail-Stays _ _ h) (λ b. next-Stays process _ h)
    created_lem event phase s h =
        if-intro (Stays v) (not (validate_shell_create event.type event.result _)) _ _
          (λ b. fail-Stays _ _ h) (λ b. fail-Stays _ _ h)

    pub created-Stays :
        (event : PrimitiveEvent) (s : Shell) → RunsShell v s → Stays v (created l event paths s)
    created-Stays event s h = created_lem event s.state.phase s h

    started-Stays :
        (r : EventResult) (s : Shell) → RunsShell v s → Stays v (process_started_with l r s)
    unfolding process_started_with
    started-Stays (started pid) s h =
        if-intro (Stays v) (leb pid 1) _ _ (λ b. fail-Stays _ s h) (λ b. await-Stays _ h)
    started-Stays r s h = fail-Stays _ s h

    exited-Stays :
        (r : EventResult) (s : Shell) → RunsShell v s → Stays v (process_exited_with l r paths s)
    unfolding process_exited_with
    exited-Stays (exited exit_code signal) s h = next-Stays read_out _ h
    exited-Stays r s h = fail-Stays _ s h

    pub process_event-Stays :
        (t : EventType) (r : EventResult) (s : Shell)
        → RunsShell v s
        → Stays v (process_event l t r paths s)
    unfolding process_event
    process_event-Stays process_started r s h = started-Stays r s h
    process_event-Stays process_exited r s h = exited-Stays r s h
    process_event-Stays t r s h = fail-Stays _ s h

    finished-Stays :
        (s : Shell) (exit_code : ℤ) (a b : Option (Bytes × Bool))
        → RunsShell v s
        → Stays v (finished l paths s exit_code a b)
    unfolding finished
    finished-Stays s exit_code (some a) (some b) h = checkpoint-Stays _ h
    finished-Stays s exit_code none b h = tt
    finished-Stays s exit_code (some a) none h = tt

    finish_lem :
        (code : Option ℤ) (s : Shell)
        → RunsShell v s
        → Stays v
            (finish l paths (record s { state = record s.state { pending_exit_code = code } }))
    unfolding finish
    finish_lem none s h = fail-Stays _ _ h
    finish_lem (some exit_code) s h = finished-Stays _ exit_code _ _ h

    pub finish-Stays : (s : Shell) → RunsShell v s → Stays v (finish l paths s)
    finish-Stays s h = finish_lem s.state.pending_exit_code s h
