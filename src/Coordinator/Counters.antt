-- ===== src/Coordinator/Counters.antt =====
-- The input counters of the loop (`deliveredInputs`, `currentTurnInputs`, `availableInputs`), whose
-- difference `pendingInputs` decides whether the model is called.
use heuristic.Prelude.{
  ◌≤◌, inl, inr, ◌||◌, List, [], ◌∷◌, map, arith, Option-cases, nat_eq, string_eq, pair_eq,
}
use heuristic.Prelude.Exec.{
  Keeps, Outcome-state, Hoare-pure, Hoare-if, Hoare-modify, Hoare-bind, Hoare-read,
}
use heuristic.Operation.{Operation, is_terminal}
use heuristic.Inbox.{Input}
use heuristic.SessionStore.{Item}
use heuristic.ContextBuilder.{Builder}
use heuristic.Coordinator.{World, Coordinator, new_coordinator, has_pending_inputs}
use heuristic.Coordinator.Local.{add_turn}
use heuristic.Coordinator.Frame.{add_item-Keeps}
use heuristic.Coordinator.Steps.{IsStep, perform_lem, reconcile_tool_calls-Keeps}
use heuristic.Coordinator.Commits.{schedule_tool_calls-Keeps}
use heuristic.Coordinator.Schedule.{
  dispatch_operation, dispatch_each, dispatch_operations, require_model_response,
}
use heuristic.Coordinator.Loop.{Event, round}
use heuristic.Coordinator.Begin.{
  restore_item, restorable, restore_items, restore_operations, restore, begin,
}
use heuristic.Coordinator.Rounds.{round-Keeps, request_model_response-Keeps}

-- What the model answered was given to it, and what it was given had arrived.
pub record IsCounted (c : Coordinator) : Type 0 where
  pub answered : c.delivered_inputs ≤ c.current_turn_inputs
  pub given : c.current_turn_inputs ≤ c.available_inputs

IsCounted-IsStep : IsStep IsCounted
unfolding add_turn
IsCounted-IsStep = record {
  local = record {
    builder = λ c b h. record { answered = h.answered; given = h.given };
    calls = λ c t h. record { answered = h.answered; given = h.given };
    ops = λ c o h. record { answered = h.answered; given = h.given };
    grace = λ c g k h. record { answered = h.answered; given = h.given };
    more = λ c h. record { answered = h.answered; given = let p = h.given in omega arith };
    delivered = λ c h. record { answered = omega arith; given = h.given };
    turn = λ c t h. record {
      answered = let p = h.answered in let q = h.given in omega arith;
      given = omega arith;
    };
  };
  effect = λ c e k h. record { answered = h.answered; given = h.given };
  uuid = λ c n h. record { answered = h.answered; given = h.given };
  call = λ c b h. record { answered = h.answered; given = h.given };
  stop = λ c m e h. record { answered = h.answered; given = h.given };
  interrupt = λ c h. record { answered = h.answered; given = h.given };
  cancelled = λ c h. record { answered = h.answered; given = h.given };
}

-- A round, whatever event it takes and whether or not it fails, keeps the counters in order: the
-- inputs that the model answered are at most those that the current turn gave it, and those at most
-- the inputs that arrived.
pub round-IsCounted :
    (w : World) (e : Event) (inputs : List Input) (updates : List Operation) (c : Coordinator)
    → IsCounted c
    → IsCounted (round w e inputs updates c).1
round-IsCounted w e inputs updates c h = Outcome-state IsCounted (round w e inputs updates c) (
    (round-Keeps IsCounted-IsStep w
        (λ c s v i m h. record { answered = h.answered; given = h.given })
        (λ c h. record { answered = h.answered; given = h.given })
        (λ c t r h. record { answered = h.answered; given = h.given }) e inputs updates).run
      c h)

module _ (w : World) where
  dispatch_each-IsCounted : (vs : List Operation) → Keeps IsCounted (dispatch_each w vs)
  unfolding dispatch_each dispatch_operation
  dispatch_each-IsCounted [] = Hoare-pure _ tt
  dispatch_each-IsCounted (v ∷ vs) =
      Hoare-bind (λ _. IsCounted)
        (Hoare-if (is_terminal v.status) (λ _. Hoare-pure _ tt)
          (λ _. perform_lem w _ (λ c h. record { answered = h.answered; given = h.given })))
        (λ _. dispatch_each-IsCounted vs)

  restore_item-IsCounted : (item : Item) → Keeps IsCounted (restore_item w item)
  unfolding restore_item
  restore_item-IsCounted item = record {
    run = λ c h. elim (Option-cases (restorable w item.kind item.content c)) [
      | inl e ↦ rw (e, restore_item) ((add_item-Keeps IsCounted-IsStep.local w item).run c h)
      | inr (x, e) ↦ rw (e, restore_item) h
    ];
  }

  restore_items-IsCounted : (items : List Item) → Keeps IsCounted (restore_items w items)
  unfolding restore_items
  restore_items-IsCounted [] = Hoare-pure _ tt
  restore_items-IsCounted (i ∷ is) =
      Hoare-bind (λ _. IsCounted) (restore_item-IsCounted i) (λ _. restore_items-IsCounted is)

  restore_operations_lem :
      (vs : List Operation) (c : Coordinator) → IsCounted c → IsCounted (restore_operations vs c)
  unfolding restore_operations
  restore_operations_lem [] c h = h
  restore_operations_lem (v ∷ vs) c h =
      restore_operations_lem vs _ (IsCounted-IsStep.local.ops c _ h)

  begin-Keeps :
      (items : List Item) (operations : List Operation) → Keeps IsCounted (begin w items operations)
  unfolding begin restore dispatch_operations
  begin-Keeps items operations =
      Hoare-bind (λ _. IsCounted)
        (Hoare-bind (λ _. IsCounted) (restore_items-IsCounted items)
          (λ _. Hoare-modify _ (restore_operations_lem operations)))
        (λ _.
          Hoare-bind (λ _. IsCounted) (schedule_tool_calls-Keeps IsCounted-IsStep w)
            (λ statuses.
              Hoare-bind (λ _. IsCounted) (reconcile_tool_calls-Keeps IsCounted-IsStep w)
                (λ _.
                  Hoare-bind (λ _. IsCounted)
                    (record {
                      run = λ c h. (dispatch_each-IsCounted (map (λ e. e.1) c.operations)).run c h;
                    })
                    (λ _.
                      Hoare-bind (λ _. IsCounted) (Hoare-read IsCounted)
                        (λ c.
                          Hoare-if (require_model_response statuses || has_pending_inputs c)
                            (λ _.
                              request_model_response-Keeps IsCounted-IsStep w
                                (λ c s v i m h. record { answered = h.answered; given = h.given })
                                (λ c h. record { answered = h.answered; given = h.given })
                                (λ c t r h. record { answered = h.answered; given = h.given }))
                            (λ _. Hoare-pure _ tt))))))

-- Restoring any items and operations, with all that `Run` does before its loop, ends with the
-- counters in order, also where it fails.
pub begin-IsCounted :
    (w : World) (items : List Item) (operations : List Operation) (builder : Builder)
    → IsCounted (begin w items operations (new_coordinator builder)).1
begin-IsCounted w items operations builder =
    Outcome-state IsCounted (begin w items operations (new_coordinator builder)) (
      (begin-Keeps w items operations).run (new_coordinator builder)
        (record { answered = omega arith; given = omega arith }))
