-- ===== src/Operation/Local/Steps.antt =====
-- The steps of a value or a skill use in the local manager, and how `failLocalOperation` ends one.
use heuristic.Prelude.{
  String, ◌≡◌, refl, ap, subst, ◌≢◌, inl, inr, true, false, Option, some, arith, Bool-cases,
  Option-cases, if-intro, ◌==◌, nat_eq, string_eq, pair_eq,
}
use heuristic.Prelude.Exec.{Result, ok, err, Result-cases}
use heuristic.Prelude.Bytes.{Bytes}
use heuristic.Primitive.{PrimitiveEvent}
use heuristic.Operation.{Operation, Status, is_terminal, ready, canceling, awaiting, failed}
use heuristic.Operation.Machine.{Ends, Ends-next, failed_start}
use heuristic.Operation.Step.{Step, OperationError, encoded, primitive_error}
use heuristic.Operation.SkillUse.{
  SkillUseState, skill_use_operation_state, fail_skill_use, advance_skill_use, skill_use_step,
  advance_from, advance_awaiting_skill_use, typed_event, failed_event, is_nonempty,
}
use heuristic.Operation.SkillUse.Identity.{Advances, advance_skill_use-Advances}
use heuristic.Operation.Value.{decode_value, advance_value, advance_value_from}
use heuristic.Operation.Local.{
  Libraries, advance_local_operation, fail_skill, step_operation, set_failed,
}
use heuristic.Operation.SkillUse
use heuristic.Operation.Value

value_from-Advances :
    (current : Operation) (status : Status) → Advances current (advance_value_from current status)
unfolding advance_value_from
value_from-Advances current ready =
    (_, refl, record { id = refl; type = refl; version = refl; limit = refl }, inl refl)
value_from-Advances current canceling =
    (_, refl, record { id = refl; type = refl; version = refl; limit = refl }, inl refl)
value_from-Advances current status = tt

-- A step of a value operation that succeeds ends it, under the same identity, and starts nothing.
pub advance_value-Advances :
    (l : Value.Library) (current : Operation) (event : Option PrimitiveEvent)
    → Advances current (advance_value l current event)
unfolding advance_value
advance_value-Advances l current event = elim (Result-cases (decode_value l current)) [
  | inl (e, p) ↦ rw (p, advance_value) tt
  | inr (v, p) ↦ elim (Option-cases event) [
    | inl q ↦ rw (p, q, advance_value) (value_from-Advances current current.status)
    | inr (e, q) ↦ rw (p, q, advance_value) tt
  ]
]

-- `skillUseStep` checkpoints the operation that it is given.
skill_use_step_lem :
    (l : SkillUse.Library) (current : Operation) (state : SkillUseState) (step : Step)
    → skill_use_step l current state ≡ ok step
    → (text : String) × (step.operation ≡ some (record current { state = some text }))
unfolding skill_use_step encoded
skill_use_step_lem l current state step p = elim (Option-cases (l.codec.encode state)) [
  | inl q ↦ absurd (ground arith)
  | inr (text, q) ↦ (text, ground arith)
]

-- `failSkillUse` ends the operation, when it succeeds.
fail_skill_use-Ends :
    (l : SkillUse.Library) (current : Operation) (state : SkillUseState) (e : OperationError)
    (step : Step)
    → fail_skill_use l current state e ≡ ok step
    → Ends current step
unfolding fail_skill_use is_terminal
fail_skill_use-Ends l current state e step p =
    let (text, q) = skill_use_step_lem l (record current { status = failed }) _ step p in
    record {
      next = record current { status = failed; state = some text };
      checkpoint = q;
      id = refl;
      terminal = refl;
    }

-- An awaiting skill use whose read could not be started fails.
unstarted_awaiting :
    (l : SkillUse.Library) (current : Operation) (state : SkillUseState) (text : Bytes)
    (step : Step)
    → advance_from l current state awaiting (some (failed_start current text)) ≡ ok step
    → Ends current step
unfolding advance_from advance_awaiting_skill_use typed_event failed_event
unstarted_awaiting l current state text step =
    elim (Bool-cases (is_nonempty state.terminal_error)) [
      | inl b ↦ λ p. absurd (ground arith)
      | inr b ↦ λ p.
          fail_skill_use-Ends l current state (primitive_error text) step
            (ground (arith, string_eq.same_iff current.id current.id))
    ]

pub advance_skill_use-Ends :
    (l : SkillUse.Library) (current : Operation) (text : Bytes) (step : Step)
    → current.status ≡ awaiting
    → advance_skill_use l current (some (failed_start current text)) ≡ ok step
    → Ends current step
unfolding advance_skill_use
advance_skill_use-Ends l current text step a p =
    elim (Result-cases (skill_use_operation_state l current)) [
      | inl (e, q) ↦ absurd (ground arith)
      | inr (state, q) ↦
          let r : advance_from l current state current.status (some (failed_start current text))
              ≡ ok step =
            ground arith in
          unstarted_awaiting l current state text step (
            subst (λ t. advance_from l current state t (some (failed_start current text)) ≡ ok step)
              a r)
    ]

pub ne_lem : (a b : String) → a ≢ b → (a == b) ≡ false
ne_lem a b n = ground (arith, string_eq.same_iff a b)

pub eq_lem : (a b : String) → (a == b) ≡ false → a ≢ b
eq_lem a b n = λ e. absurd (ground (arith, string_eq.same_iff a b))

pub is_lem : (a b c : String) → a ≡ b → (a == c) ≡ (b == c)
is_lem a b c e = rw e refl

pub pair_lem : {A B : Type 0} (r : A × B) (a : A) → r.0 ≡ a → (b : B) × (r ≡ (a, b))
pair_lem r a e = (r.1, ap (λ x. (x, r.1)) e)

module _ (ls : Libraries) where
  -- Has the operation no machine of its own, and no remote handler?
  abbrev pub IsPlain : Operation → Type 0
  IsPlain v = (v.type ≢ "shell") × (v.type ≢ "view_image") × (v.type ≢ "remote_job")

  pub advance_local-Advances :
      (current : Operation) (event : Option PrimitiveEvent)
      → Advances current (advance_local_operation ls current event)
  unfolding advance_local_operation
  advance_local-Advances current event =
      if-intro (Advances current) (current.type == "value") _ _
        (λ b. advance_value-Advances ls.values current event)
        (λ b.
          if-intro (Advances current) (current.type == "skill_use") _ _
            (λ c. advance_skill_use-Advances ls.skills current event) (λ c. tt))

  -- A plain operation that awaits is a skill use.
  pub advance_local-Ends :
      (current : Operation) (text : Bytes) (step : Step)
      → current.status ≡ awaiting
      → advance_local_operation ls current (some (failed_start current text)) ≡ ok step
      → Ends current step
  unfolding advance_local_operation advance_value
  advance_local-Ends current text step a p = elim (Bool-cases (current.type == "value")) [
    | inl b ↦ elim (Result-cases (decode_value ls.values current)) [
      | inl (e, q) ↦ absurd (ground arith)
      | inr (v, q) ↦ absurd (ground arith)
    ]
    | inr b ↦ elim (Bool-cases (current.type == "skill_use")) [
      | inr c ↦ absurd (ground arith)
      | inl c ↦ advance_skill_use-Ends ls.skills current text step a (ground arith)
    ]
  ]

  -- What `failLocalOperation` makes of an operation, where it returns: it ended, under the same ID.
  unfoldable pub Failed : Operation → Option Operation → Type 0
  Failed v r =
      (next : Operation) → r ≡ some next → (next.id ≡ v.id) × (is_terminal next.status ≡ true)

  pub set_failed-Failed : (v : Operation) → Failed v (some (set_failed ls v))
  unfolding Failed is_terminal
  set_failed-Failed v next e =
      let i : set_failed ls v ≡ next = ground arith in
      subst (λ (w : Operation). (w.id ≡ v.id) × (is_terminal w.status ≡ true)) i (refl, refl)

  step_operation-Failed :
      (v : Operation) (state : SkillUseState) (e : OperationError) (r : Result OperationError Step)
      → fail_skill_use ls.skills v state e ≡ r
      → Failed v (step_operation ls (some (set_failed ls v)) r)
  unfolding Failed step_operation
  step_operation-Failed v state e (err x) p = set_failed-Failed v
  step_operation-Failed v state e (ok step) p =
      λ next. Ends-next v step next (fail_skill_use-Ends ls.skills v state e step p)

  pub fail_skill-Failed :
      (v : Operation) (e : OperationError) (r : Result OperationError SkillUseState)
      → Failed v (fail_skill ls v e r)
  unfolding Failed fail_skill
  fail_skill-Failed v e (err x) = set_failed-Failed v
  fail_skill-Failed v e (ok state) = step_operation-Failed v state e _ refl
