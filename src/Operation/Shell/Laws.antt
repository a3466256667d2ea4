-- ===== src/Operation/Shell/Laws.antt =====
-- The machine of a shell keeps the laws of the local manager.
use heuristic.Prelude.{
  ◌≡◌, refl, sym, ap, ◌∙◌, subst, ◌⊎◌, inl, inr, true, Option, none, some, [], arith, Bool-cases,
  Option-cases, nat_eq, string_eq, pair_eq,
}
use heuristic.Prelude.Bytes.{Bytes}
use heuristic.Prelude.Exec.{ok, err}
use heuristic.Primitive.{PrimitiveEvent}
use heuristic.Operation.{Operation, is_terminal, awaiting, failed}
use heuristic.Operation.Machine.{Ends, Ends-next}
use heuristic.Operation.Step.{Step, OperationError, encoded, is_panic}
use heuristic.Operation.Shell.{Library}
use heuristic.Operation.Shell.Steps.{
  new_shell, Shell, Handled, bound_error, encode_state, checkpoint, end_with, fail, next,
}
use heuristic.Operation.Shell.Kept.{RunsShell, IsCheckpoint, Stays}
use heuristic.Primitive.{failure}
use heuristic.Operation.Machine.{IsMachine, failed_start}
use heuristic.Operation.Shell.{shell_operation_state}
use heuristic.Operation.Shell.Handle.{
  awaiting_typed, handle_awaiting, handle_from, handle, step_or, fail_shell, shell_machine,
}
use heuristic.Operation.Shell.{shell_primitive_failure}
use heuristic.Prelude.Exec.{Result-cases}
use heuristic.Operation.Shell.Reads.{handle-Stays}

module _ (l : Library) (v : Operation) where
  encode_state-Ends :
      (s s' : Shell) (step : Step)
      → RunsShell v s
      → is_terminal s.current.status ≡ true
      → encode_state l s ≡ (ok step, s')
      → Ends v step
  unfolding encode_state encoded
  encode_state-Ends s s' step h t p = elim (Option-cases (l.codec.encode s.state)) [
    | inl e ↦ absurd (ground arith)
    | inr (text, e) ↦ record {
      next = record s.current { state = some text };
      checkpoint = ground arith;
      id = h.0;
      terminal = t;
    }
  ]

  -- A checkpoint of a terminal status ends the operation.
  checkpoint-Ends :
      (s s' : Shell) (step : Step)
      → RunsShell v s
      → is_terminal s.current.status ≡ true
      → checkpoint l s ≡ (ok step, s')
      → Ends v step
  unfolding checkpoint
  checkpoint-Ends s s' step h t p = elim (Option-cases (bound_error l s)) [
    | inl e ↦ absurd (ground arith)
    | inr (r, e) ↦
        encode_state-Ends
          (record s { state = record s.state { terminal_error = r.0; error_truncated = r.1 } }) s'
          step h t (ground arith)
  ]

  fail-Ends :
      (e : OperationError) (s s' : Shell) (step : Step)
      → RunsShell v s
      → fail l e s ≡ (ok step, s')
      → Ends v step
  unfolding fail end_with is_terminal
  fail-Ends e s s' step h p = checkpoint-Ends _ s' step h refl p

  new_shell-Runs : (s : Shell) → new_shell l v ≡ ok s → RunsShell v s
  unfolding new_shell
  new_shell-Runs s p = elim (Result-cases (shell_operation_state l v)) [
    | inl (e, q) ↦ absurd (ground arith)
    | inr (state, q) ↦ (ground arith, ground arith)
  ]

  failed_lem :
      (after : Operation)
      → record v { status = failed } ≡ after
      → (after.id ≡ v.id) × (is_terminal after.status ≡ true)
  unfolding is_terminal
  failed_lem after e =
      subst (λ (w : Operation). (w.id ≡ v.id) × (is_terminal w.status ≡ true)) e (refl, refl)

  step_or-Ends :
      (r : Handled)
      → ((step : Step) → r.0 ≡ ok step → Ends v step)
      → (after : Operation) → step_or l v r.0 ≡ some after
      → (after.id ≡ v.id) × (is_terminal after.status ≡ true)
  unfolding step_or is_terminal
  step_or-Ends (err e, s) h after p =
      failed_lem after
        (elim (Bool-cases (is_panic e)) [ inl b ↦ absurd (ground arith) | inr b ↦ ground arith ])
  step_or-Ends (ok step, s) h after p = Ends-next v step after (h step refl) p

  pair_lem : {A B : Type 0} (r : A × B) (a : A) → r.0 ≡ a → r ≡ (a, r.1)
  pair_lem r a e = ap (λ x. (x, r.1)) e

  fail_shell-Ends :
      (e : OperationError) (after : Operation)
      → fail_shell l v e ≡ some after
      → (after.id ≡ v.id) × (is_terminal after.status ≡ true)
  unfolding fail_shell
  fail_shell-Ends e after r = elim (Result-cases (new_shell l v)) [
    | inl (x, p) ↦ failed_lem after (let q = rw (p, fail_shell) at r in ground arith)
    | inr (s, p) ↦
        step_or-Ends (fail l e s)
          (λ step q. fail-Ends e s _ step (new_shell-Runs s p) (pair_lem (fail l e s) (ok step) q))
          after (rw (p, fail_shell) at r)
  ]

  -- A shell that awaits, whose dispatch could not be started, ends.
  unstarted-Ends :
      (s s' : Shell) (text : Bytes) (step : Step)
      → RunsShell v s
      → s.current.status ≡ awaiting
      → handle l s (some (failed_start v text)) ≡ (ok step, s')
      → Ends v step
  unfolding handle handle_from handle_awaiting awaiting_typed
  unstarted-Ends s s' text step h a p =
      let q : handle_from l awaiting (some (failed_start v text)) s ≡ (ok step, s') =
        subst (λ t. handle_from l t (some (failed_start v text)) s ≡ (ok step, s')) a p in
      fail-Ends (shell_primitive_failure (failure text)) s s' step h
        (ground (arith, string_eq.same_iff v.id s.current.id))

module _ (l : Library) where
  Awaits : Shell → Operation → Type 0
  Awaits s v = RunsShell v s × (s.current.status ≡ awaiting)

  stays_lem :
      (s s' : Shell) (v : Operation) (e : Option PrimitiveEvent) (step : Step)
      → RunsShell v s
      → handle l s e ≡ (ok step, s')
      → Stays v (ok step, s')
  stays_lem s s' v e step h p = subst (Stays v) p (handle-Stays l v e s h)

  kept_lem :
      (s s' : Shell) (v : Operation) (e : Option PrimitiveEvent) (step : Step)
      → RunsShell v s
      → handle l s e ≡ (ok step, s')
      → step.operation ≡ none
      → RunsShell v s' × ((step.dispatches ≡ []) ⊎ Awaits s' v)
  unfolding Awaits
  kept_lem s s' v e step h p q =
      let (i, d, c) = stays_lem s s' v e step h p in
      (i, elim d [ inl x ↦ inl x | inr x ↦ inr (i, x) ])

  advanced_lem :
      (s s' : Shell) (v next : Operation) (e : Option PrimitiveEvent) (step : Step)
      → RunsShell v s
      → handle l s e ≡ (ok step, s')
      → step.operation ≡ some next
      → (next.id ≡ v.id)
        × (next.type ≡ v.type)
        × RunsShell next s'
        × ((step.dispatches ≡ []) ⊎ Awaits s' next)
  unfolding Awaits
  advanced_lem s s' v next e step h p q =
      let (i, d, c) = stays_lem s s' v e step h p in
      let (ci, ct, cs) = subst (IsCheckpoint s') q c in
      let r : RunsShell next s' = (sym ci, sym ct) in
      (ci ∙ i.0, ct ∙ i.1, r, elim d [ inl x ↦ inl x | inr x ↦ inr (r, x) ])

  pub shell_machine-IsMachine : IsMachine (shell_machine l)
  unfolding Awaits
  shell_machine-IsMachine = record {
    Owns = λ s v. RunsShell v s;
    Starts = Awaits;
    initialized = λ v s other p. new_shell-Runs l v s p;
    kept = kept_lem;
    advanced = advanced_lem;
    unstarted = λ s s' v text step h p. unstarted-Ends l v s s' text step h.0 h.1 p;
    refused = λ s v e after h p. fail_shell-Ends l v e after p;
  }
