-- ===== src/Operation/Manager/Returns.antt =====
-- A step that the machine returns is accepted: `acceptLocalStep` keeps the invariant, where it returns.
use heuristic.Prelude.{
  ℕ, suc, String, ◌≡◌, sym, ◌∙◌, subst, ◌⊎◌, inl, inr, Bool, true, false, Option, none, some, [],
  arith, Option-cases, if-intro, nat_eq, string_eq, pair_eq,
}
use heuristic.Prelude.Exec.{ok}
use heuristic.Prelude.Map
use heuristic.Prelude.Map.{lookup-insert}
use heuristic.Primitive.{PrimitiveEvent}
use heuristic.Operation.{Operation, is_terminal}
use heuristic.Operation.Machine.{Machine, IsMachine}
use heuristic.Operation.Step.{Step}
use heuristic.Operation.RemoteJob.{Library}
use heuristic.Operation.Manager.{Running, Manager, append_update, put, delete}
use heuristic.Operation.Manager.Accept.{local_running, start_all, accept_step}
use heuristic.Operation.Manager.Sound.{RunsIt, IsSound, update-IsSound, finish-IsSound}
use heuristic.Operation.Manager.Steps.{ReturnsAccepted, start_all-Returns}

module _ {m : Machine} (laws : IsMachine m) (l : Library) (id : String) (canceled : Bool) where
  open m use {Actor, handle}

  lookup_self : (c : Running m) (s : Manager m) → Map.lookup id (put m id c s).operations ≡ some c
  lookup_self c s = ground (arith, lookup-insert id id c s.operations, string_eq.same_iff id id)

  -- Any running operation that the manager may write under the identity.
  abbrev pub IsReady : Manager m → Type 0
  IsReady s =
      (c : Running m)
      → c.operation.id ≡ id
      → RunsIt laws l c.operation c.runner
      → IsSound laws l (put m id c s)

  module _ (a : Actor) (next : Operation) (i : next.id ≡ id) (s : Manager m) where
    checkpoint-Returns :
        (fuel : ℕ) (step : Step)
        → IsReady s
        → laws.Owns a next
        → ((step.dispatches ≡ []) ⊎ laws.Starts a next)
        → is_terminal next.status ≡ false
        → ReturnsAccepted laws l (
            start_all m l.format
              (accept_step m l.format (suc fuel) id canceled)
              id
              canceled
              a
              next
              step.dispatches
              0
              (append_update m next (put m id (local_running m l.format next canceled a) s)))
    checkpoint-Returns fuel step ready owns starts goes_on =
        let c = local_running m l.format next canceled a in
        start_all-Returns laws l id canceled fuel next a step.dispatches 0 _ c i (lookup_self c s)
          (update-IsSound laws l (put m id c s) (ready c i owns) id c next (lookup_self c s) i
            goes_on)
          owns starts

    terminal-Returns :
        IsReady s
        → laws.Owns a next
        → is_terminal next.status ≡ true
        → IsSound laws l (
            delete m next.id
              (append_update m next (put m id (local_running m l.format next canceled a) s)))
    terminal-Returns ready owns ended =
        let c = local_running m l.format next canceled a in
        subst (λ k. IsSound laws l (delete m k (append_update m next (put m id c s)))) (sym i)
          (finish-IsSound laws l (put m id c s) (ready c i owns) id c next (lookup_self c s) i
            ended)

  module _ (a a' : Actor) (v : Operation) (e : Option PrimitiveEvent) (step : Step) (s : Manager m)
      (same : v.id ≡ id) (owns : laws.Owns a v) (g : handle a v e ≡ (ok step, a'))
      (ready : IsReady s) where
    accept_none-Returns :
        (fuel : ℕ)
        → step.operation ≡ none
        → ReturnsAccepted laws l (accept_step m l.format (suc (suc fuel)) id canceled a' v step s)
    unfolding accept_step
    accept_none-Returns fuel at =
        let (owns', idle) = laws.kept a a' v e step owns g at in
        let c = local_running m l.format v canceled a' in
        rw (at, accept_step)
          (start_all-Returns laws l id canceled fuel v a' step.dispatches 0 _ c same
            (lookup_self c s) (ready c same owns') owns' idle)

    accept_some-Returns :
        (fuel : ℕ) (next : Operation)
        → step.operation ≡ some next
        → ReturnsAccepted laws l (accept_step m l.format (suc (suc fuel)) id canceled a' v step s)
    unfolding accept_step
    accept_some-Returns fuel next at =
        let (was, kind, owns', starts) = laws.advanced a a' v next e step owns g at in
        let i = was ∙ same in
        rw (at, accept_step)
          (if-intro (ReturnsAccepted laws l) (is_terminal next.status) _ _
            (λ ended. terminal-Returns a' next i s ready owns' ended)
            (λ goes_on. checkpoint-Returns a' next i s fuel step ready owns' starts goes_on))

    pub accept_step-Returns :
        (fuel : ℕ)
        → ReturnsAccepted laws l (accept_step m l.format (suc (suc fuel)) id canceled a' v step s)
    accept_step-Returns fuel = elim (Option-cases step.operation) [
      | inl at ↦ accept_none-Returns fuel at
      | inr (next, at) ↦ accept_some-Returns fuel next at
    ]
