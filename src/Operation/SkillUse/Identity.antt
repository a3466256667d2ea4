-- ===== src/Operation/SkillUse/Identity.antt =====
-- What no step of a skill-use operation changes, and that a failed primitive ends it.
use heuristic.Prelude.{
  ◌≡◌, refl, ◌⊎◌, inl, inr, ◌||◌, not, Option, none, some, [], Option-cases, if-intro, ◌==◌, nat_eq,
  string_eq, pair_eq, length,
}
use heuristic.Prelude.Exec.{Result-cases, Result, ok, err}
use heuristic.Primitive.{
  PrimitiveEvent, EventType, EventResult, failure, read_output, read_completed, io_read_output,
  io_read_completed,
}
use heuristic.Operation.{
  Operation, Status, is_terminal, ready, awaiting, canceling, completed, failed, canceled,
}
use heuristic.Operation.Step.{Step, OperationError, encoded}
use heuristic.Operation.SkillUse.{
  skill_use_read_correlation, Library, SkillUseState, is_nonempty, skill_use_operation_state,
  skill_use_step, await_skill_use, fail_skill_use, cancel_skill_use, dispatch_skill_use_read,
  read_event, failed_event, typed_event, advance_awaiting_skill_use, advance_from,
  advance_skill_use,
}

-- The identity of an operation: what the store and the manager know it by.
pub record IsSame (current next : Operation) : Type 0 where
  pub id : next.id ≡ current.id
  pub type : next.type ≡ current.type
  pub version : next.version ≡ current.version
  pub limit : next.max_output_length ≡ current.max_output_length

-- A step that succeeds checkpoints the same operation, and dispatches only when it then awaits.
abbrev pub Advances : Operation → Result OperationError Step → Type 0
Advances current (err e) = Unit
Advances current (ok step) =
    (next : Operation) × (step.operation ≡ some next)
    × IsSame current next
    × ((step.dispatches ≡ []) ⊎ (next.status ≡ awaiting))

module _ (l : Library) where
  skill_use_step-Advances :
      (current : Operation) (status : Status) (state : SkillUseState)
      → Advances current (skill_use_step l (record current { status = status }) state)
  unfolding skill_use_step encoded
  skill_use_step-Advances current status state = elim (Option-cases (l.codec.encode state)) [
    | inl e ↦ rw (e, skill_use_step) tt
    | inr (text, e) ↦
        rw (e, skill_use_step)
          (
            record current { status = status; state = some text },
            refl,
            record { id = refl; type = refl; version = refl; limit = refl },
            inl refl,
          )
  ]

  dispatch-Advances :
      (current : Operation) (state : SkillUseState)
      → Advances current (dispatch_skill_use_read l current state)
  unfolding dispatch_skill_use_read await_skill_use skill_use_step encoded is_terminal
  dispatch-Advances current state = elim (Option-cases (l.codec.encode state)) [
    | inl e ↦ rw (e, dispatch_skill_use_read) tt
    | inr (text, e) ↦
        rw (e, dispatch_skill_use_read)
          (
            record current { status = awaiting; state = some text },
            refl,
            record { id = refl; type = refl; version = refl; limit = refl },
            inr refl,
          )
  ]

  fail-Advances :
      (current : Operation) (state : SkillUseState) (e : OperationError)
      → Advances current (fail_skill_use l current state e)
  unfolding fail_skill_use
  fail-Advances current state e = skill_use_step-Advances current failed _

  read_event-Advances :
      (current : Operation) (state : SkillUseState) (t : EventType) (r : EventResult)
      → Advances current (read_event l current state t r)
  unfolding read_event await_skill_use
  read_event-Advances current state io_read_output (read_output offset chunk) =
      if-intro (Advances current) (not (offset == length state.content)) _ _
        (λ h. fail-Advances current state _) (λ h. skill_use_step-Advances current awaiting _)
  read_event-Advances current state io_read_output r = fail-Advances current state _
  read_event-Advances current state io_read_completed (read_completed size) =
      if-intro (Advances current) (not (size == length state.content)) _ _
        (λ h. fail-Advances current state _) (λ h. skill_use_step-Advances current completed _)
  read_event-Advances current state io_read_completed r = fail-Advances current state _
  read_event-Advances current state t r = fail-Advances current state _

  failed_event-Advances :
      (current : Operation) (state : SkillUseState) (r : EventResult)
      → Advances current (failed_event l current state r)
  unfolding failed_event
  failed_event-Advances current state (failure text) = fail-Advances current state _
  failed_event-Advances current state r = fail-Advances current state _

  cancel-Advances :
      (current : Operation) (state : SkillUseState)
      → Advances current (cancel_skill_use l current state)
  unfolding cancel_skill_use
  cancel-Advances current state = skill_use_step-Advances current canceled _

  typed_event-Advances :
      (current : Operation) (state : SkillUseState) (e : PrimitiveEvent) (t : EventType)
      → Advances current (typed_event l current state e t)
  unfolding typed_event
  typed_event-Advances current state e EventType.canceled = cancel-Advances current state
  typed_event-Advances current state e EventType.failed =
      failed_event-Advances current state e.result
  typed_event-Advances current state e t =
      if-intro (Advances current) (not (e.correlation_id == skill_use_read_correlation)) _ _
        (λ h. fail-Advances current state _) (λ h. read_event-Advances current state t e.result)

  awaiting-Advances :
      (current : Operation) (state : SkillUseState) (event : Option PrimitiveEvent)
      → Advances current (advance_from l current state awaiting event)
  unfolding advance_from advance_awaiting_skill_use
  awaiting-Advances current state none =
      if-intro (Advances current) (is_nonempty state.terminal_error) _ _ (λ h. tt)
        (λ h. dispatch-Advances current state)
  awaiting-Advances current state (some e) =
      if-intro (Advances current) (is_nonempty state.terminal_error) _ _ (λ h. tt)
        (λ h.
          if-intro (Advances current) (not (e.source == current.id)) _ _
            (λ h. fail-Advances current state _) (λ h. typed_event-Advances current state e e.type))

  from-Advances :
      (current : Operation) (state : SkillUseState) (status : Status)
      (event : Option PrimitiveEvent)
      → Advances current (advance_from l current state status event)
  unfolding advance_from
  from-Advances current state ready (some event) = tt
  from-Advances current state ready none =
      if-intro (Advances current) (is_nonempty state.content || is_nonempty state.terminal_error) _
        _ (λ h. tt) (λ h. dispatch-Advances current state)
  from-Advances current state awaiting event = awaiting-Advances current state event
  from-Advances current state canceling (some event) = tt
  from-Advances current state canceling none = cancel-Advances current state
  from-Advances current state status event = tt

  -- A step of a skill-use operation that succeeds checkpoints an operation with the same ID, type,
  -- version and output limit, and a step that starts a primitive leaves the operation awaiting.
  pub advance_skill_use-Advances :
      (current : Operation) (event : Option PrimitiveEvent)
      → Advances current (advance_skill_use l current event)
  unfolding advance_skill_use
  advance_skill_use-Advances current event =
      elim (Result-cases (skill_use_operation_state l current)) [
        | inl (e, p) ↦ rw (p, advance_skill_use) tt
        | inr (state, p) ↦
            rw (p, advance_skill_use) (from-Advances current state current.status event)
      ]
