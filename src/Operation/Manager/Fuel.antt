-- ===== src/Operation/Manager/Fuel.antt =====
-- The depth to which `acceptLocalStep` calls itself: the step after a dispatch that could not be started
-- ends the operation, so a second call is the last.
use heuristic.Prelude.{
  ℕ, suc, ◌+◌, String, ◌≡◌, refl, ap, ◌⊎◌, inl, inr, Bool, Option, some, List, [], ◌∷◌, arith,
  Bool-cases, Option-cases, nat_eq, string_eq, pair_eq,
}
use mathlib.Core.Option
use heuristic.Prelude.Exec.{Result, ok, err}
use heuristic.Prelude.Bytes.{Bytes}
use heuristic.Primitive.{PrimitiveEvent}
use heuristic.Operation.{Operation, is_terminal}
use heuristic.Operation.Machine.{Machine, IsMachine, failed_start, Ends}
use heuristic.Operation.Step.{Step, Dispatch, OperationError, error_text, unstartable}
use heuristic.Operation.Manager.{Manager, is_startable}
use heuristic.Operation.Manager.Accept.{start_failed, start_all, accept_step}

module _ {m : Machine} (laws : IsMachine m) (format : OperationError → Bytes) (id : String)
    (canceled : Bool) where
  open m use {Actor, handle}

  module _ (fuel : ℕ) where
    ended_lem :
        (a : Actor) (v : Operation) (step : Step) (s : Manager m)
        → Ends v step
        → accept_step m format (suc fuel) id canceled a v step s
          ≡ accept_step m format 1 id canceled a v step s
    unfolding accept_step
    ended_lem a v step s ends = rw (ends.checkpoint, accept_step) (rw ends.terminal refl)

    start_failed_lem :
        (a : Actor) (v : Operation) (text : Bytes) (n : ℕ) (s : Manager m)
        (r : Result OperationError Step × Actor)
        → laws.Starts a v
        → handle a v (some (failed_start v text)) ≡ r
        → start_failed m format (accept_step m format (suc fuel) id canceled) id canceled v n s r
          ≡ start_failed m format (accept_step m format 1 id canceled) id canceled v n s r
    unfolding start_failed
    start_failed_lem a v text n s (err e, a') starts g = refl
    start_failed_lem a v text n s (ok step, a') starts g =
        ap (λ r. Option.map (λ r. (n + r.0, r.1)) r)
          (ended_lem a' v step _ (laws.unstarted a a' v text step starts g))

    start_all_lem :
        (a : Actor) (v : Operation) (ds : List Dispatch) (n : ℕ) (s : Manager m)
        → ((ds ≡ []) ⊎ laws.Starts a v)
        → start_all m format (accept_step m format (suc fuel) id canceled) id canceled a v ds n s
          ≡ start_all m format (accept_step m format 1 id canceled) id canceled a v ds n s
    unfolding start_all
    start_all_lem a v [] n s starts = refl
    start_all_lem a v (d ∷ ds) n s (inl e) = absurd (ground arith)
    start_all_lem a v (d ∷ ds) n s (inr starts) =
        elim (Bool-cases (is_startable d.type d.content)) [
          | inl b ↦ rw (b, start_all) (start_all_lem a v ds (n + 1) s (inr starts))
          | inr b ↦
              rw (b, start_all)
                (start_failed_lem a v (error_text format (unstartable d.type)) n s _ starts refl)
        ]

    -- A step that the machine returns is accepted with any more fuel as it is with 2.
    pub accept_step-fuel :
        (a a' : Actor) (v : Operation) (e : Option PrimitiveEvent) (step : Step) (s : Manager m)
        → laws.Owns a v
        → handle a v e ≡ (ok step, a')
        → accept_step m format (suc (suc fuel)) id canceled a' v step s
          ≡ accept_step m format 2 id canceled a' v step s
    unfolding accept_step
    accept_step-fuel a a' v e step s owns g = elim (Option-cases step.operation) [
      | inl at ↦
          let (owns', idle) = laws.kept a a' v e step owns g at in
          rw (at, accept_step) (start_all_lem a' v step.dispatches 0 _ idle)
      | inr (next, at) ↦
          let (i, t, owns', starts) = laws.advanced a a' v next e step owns g at in
          rw (at, accept_step)
            (elim (Bool-cases (is_terminal next.status)) [
              | inl b ↦ rw (b, accept_step) refl
              | inr b ↦ rw (b, accept_step) (start_all_lem a' next step.dispatches 0 _ starts)
            ])
    ]
