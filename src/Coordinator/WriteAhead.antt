-- ===== src/Coordinator/WriteAhead.antt =====
-- The order in which a round calls the session store and the operation manager.
use heuristic.Prelude.{
  ◌≡◌, refl, Bool, true, false, List, [], ◌∷◌, ◌++◌, arith, nat_eq, string_eq, pair_eq,
}
use mathlib.Core.List.{Mem}
use heuristic.Prelude.Exec.{Outcome-state}
use heuristic.Operation.{Operation}
use heuristic.Inbox.{Input}
use heuristic.SessionStore.{ToolCallStatus}
use heuristic.Coordinator.{World, Coordinator, Effect, dispatched}
use heuristic.Coordinator.Local.{add_turn}
use heuristic.Coordinator.Steps.{IsStep, is_quiet}
use heuristic.Coordinator.Commits.{IsStored}
use heuristic.Coordinator.Loop.{Event, round}
use heuristic.Coordinator.Rounds.{round-Keeps}

-- Does the call dispatch an operation?
abbrev pub is_dispatch : Effect → Bool
is_dispatch (dispatched v) = true
is_dispatch e = false

-- The calls `base` with calls after them, each dispatched operation one of a stored status.
pub data IsWriteAhead (base : List Effect) : List Effect → Type 0 where
  same : IsWriteAhead base base
  other :
      (es : List Effect) (e : Effect)
      → is_dispatch e ≡ false
      → IsWriteAhead base es
      → IsWriteAhead base (es ++ e ∷ [])
  start :
      (es : List Effect) (status : ToolCallStatus) (v : Operation)
      → IsStored status es
      → Mem v status.operations
      → IsWriteAhead base es
      → IsWriteAhead base (es ++ dispatched v ∷ [])

is_quiet_lem : (e : Effect) → is_quiet e ≡ true → is_dispatch e ≡ false
is_quiet_lem (dispatched v) h = absurd (ground arith)
is_quiet_lem e h = ground arith

IsWriteAhead-IsStep : (base : List Effect) → IsStep (λ c. IsWriteAhead base c.effects)
unfolding add_turn
IsWriteAhead-IsStep base = record {
  local = record {
    builder = λ c b h. h;
    calls = λ c t h. h;
    ops = λ c o h. h;
    grace = λ c g k h. h;
    more = λ c h. h;
    delivered = λ c h. h;
    turn = λ c t h. h;
  };
  effect = λ c e k h. other c.effects e (is_quiet_lem e k) h;
  uuid = λ c n h. h;
  call = λ c b h. h;
  stop = λ c m e h. h;
  interrupt = λ c h. h;
  cancelled = λ c h. h;
}

-- In a round, whatever the other components answer and whether or not it fails, an operation is
-- handed to the manager only after a tool-call status that carries it was accepted by the session
-- store.
pub round-IsWriteAhead :
    (w : World) (e : Event) (inputs : List Input) (updates : List Operation) (c : Coordinator)
    → IsWriteAhead c.effects (round w e inputs updates c).1.effects
round-IsWriteAhead w e inputs updates c =
    Outcome-state (λ s. IsWriteAhead c.effects s.effects) (round w e inputs updates c)
      ((round-Keeps (IsWriteAhead-IsStep c.effects) w
          (λ s status v i m h. start s.effects status v i m h) (λ s h. h)
          (λ s t r h. other s.effects _ refl h) e inputs updates).run
        c same)
