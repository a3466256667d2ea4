-- ===== src/Operation/Machine.antt =====
-- What the operation manager asks of the state machine of an operation: `initialize` and
-- `handle` of harness/operation/local_manager.go, `failLocalOperation`, and the laws that the manager
-- relies on.
use heuristic.Prelude.{
  arith, nat_eq, pair_eq, sym, ◌∙◌, subst, ◌≡◌, ◌⊎◌, true, false, ◌==◌, string_eq, Option, none,
  some, [],
}
use heuristic.Prelude.Bytes.{Bytes}
use heuristic.Prelude.Exec.{Result, ok}
use heuristic.Primitive.{PrimitiveEvent, EventType, failure}
use heuristic.Operation.{Operation, is_terminal}
use heuristic.Operation.Step.{Step, OperationError}

-- `handle` is given the operation that the manager holds, since some machines read it; where the code
-- panics it gives the error `panicked`, at which the manager ends, and `fail` gives `none`.
pub record Machine : Type 1 where
  pub Actor : Type 0
  pub initialize : Operation → Result OperationError Actor
  pub handle : Actor → Operation → Option PrimitiveEvent → Result OperationError Step × Actor
  pub fail : Operation → OperationError → Option Operation

-- The event that stands for a dispatch that could not be started.
abbrev pub failed_start : Operation → Bytes → PrimitiveEvent
failed_start current text = record {
  type = EventType.failed;
  source = current.id;
  correlation_id = "";
  result = failure text;
}

-- A step that ends the operation and starts nothing.
pub record Ends (current : Operation) (step : Step) : Type 0 where
  pub next : Operation
  pub checkpoint : step.operation ≡ some next
  pub id : next.id ≡ current.id
  pub terminal : is_terminal next.status ≡ true

pub Ends-next :
    (v : Operation) (step : Step) (next : Operation)
    → Ends v step
    → step.operation ≡ some next
    → (next.id ≡ v.id) × (is_terminal next.status ≡ true)
Ends-next v step next ends p =
    let i : ends.next ≡ next = let q = sym ends.checkpoint ∙ p in ground arith in
    subst (λ (w : Operation). (w.id ≡ v.id) × (is_terminal w.status ≡ true)) i
      (ends.id, ends.terminal)

module _ (m : Machine) where
  open m use {Actor, initialize, handle, fail}

  -- The laws. `Owns` holds of an actor and its operation between two events, and `Starts` after a
  -- step that dispatches.
  pub record IsMachine : Type 1 where
    pub Owns : Actor → Operation → Type 0
    pub Starts : Actor → Operation → Type 0
    pub initialized :
        (v : Operation) (a : Actor)
        → (v.type == "remote_job") ≡ false
        → initialize v ≡ ok a
        → Owns a v
    pub kept :
        (a a' : Actor) (v : Operation) (e : Option PrimitiveEvent) (step : Step)
        → Owns a v
        → handle a v e ≡ (ok step, a')
        → step.operation ≡ none
        → Owns a' v × ((step.dispatches ≡ []) ⊎ Starts a' v)
    pub advanced :
        (a a' : Actor) (v next : Operation) (e : Option PrimitiveEvent) (step : Step)
        → Owns a v
        → handle a v e ≡ (ok step, a')
        → step.operation ≡ some next
        → (next.id ≡ v.id)
          × (next.type ≡ v.type)
          × Owns a' next
          × ((step.dispatches ≡ []) ⊎ Starts a' next)
    pub unstarted :
        (a a' : Actor) (v : Operation) (text : Bytes) (step : Step)
        → Starts a v
        → handle a v (some (failed_start v text)) ≡ (ok step, a')
        → Ends v step
    pub refused :
        (a : Actor) (v : Operation) (e : OperationError) (next : Operation)
        → Owns a v
        → fail v e ≡ some next
        → (next.id ≡ v.id) × (is_terminal next.status ≡ true)
