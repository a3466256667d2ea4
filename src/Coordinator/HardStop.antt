-- ===== src/Coordinator/HardStop.antt =====
-- What the loop still does once `stop_hard` was accepted and the model is interrupted.
use heuristic.Prelude.{
  ◌≡◌, refl, sym, subst, Bool, true, false, List, [], ◌∷◌, ◌++◌, arith, if◌then◌else◌, nat_eq,
  string_eq, pair_eq,
}
use heuristic.Prelude.Exec.{Outcome, Outcome-state, Keeps, Hoare-pure, Hoare-modify, Hoare-bind}
use heuristic.Operation.{Operation}
use heuristic.Inbox.{Input}
use heuristic.Coordinator.{World, Coordinator, Effect, clear_tool_grace}
use heuristic.Coordinator.Local.{add_turn}
use heuristic.Coordinator.Steps.{
  IsStep, is_quiet, handle_inbox_inputs-Keeps, process_operations-Keeps, post_heartbeat-Keeps,
  handle_stop-Keeps, process_events-Keeps,
}
use heuristic.Coordinator.Loop.{
  is_stop_hard, is_enabled, Event, received, updated, heartbeat_due, grace_due, responded,
  handle_event, conclude, continues, stops, round,
}

-- The calls `base` with calls after them that start no operation and no request.
pub data IsQuietAfter (base : List Effect) : List Effect → Type 0 where
  same : IsQuietAfter base base
  more :
      (es : List Effect) (e : Effect)
      → is_quiet e ≡ true
      → IsQuietAfter base es
      → IsQuietAfter base (es ++ e ∷ [])

-- A hard stop was accepted, no response is awaited, and nothing was started since `base`.
pub record IsStopped (base : List Effect) (c : Coordinator) : Type 0 where
  pub hard : is_stop_hard c.stop.mode ≡ true
  pub interrupted : c.cancel_model ≡ false
  pub quiet : IsQuietAfter base c.effects

IsStopped-IsStep : (base : List Effect) → IsStep (IsStopped base)
unfolding add_turn
IsStopped-IsStep base = record {
  local = record {
    builder = λ c b h. record { hard = h.hard; interrupted = h.interrupted; quiet = h.quiet };
    calls = λ c t h. record { hard = h.hard; interrupted = h.interrupted; quiet = h.quiet };
    ops = λ c o h. record { hard = h.hard; interrupted = h.interrupted; quiet = h.quiet };
    grace = λ c g k h. record { hard = h.hard; interrupted = h.interrupted; quiet = h.quiet };
    more = λ c h. record { hard = h.hard; interrupted = h.interrupted; quiet = h.quiet };
    delivered = λ c h. record { hard = h.hard; interrupted = h.interrupted; quiet = h.quiet };
    turn = λ c t h. record { hard = h.hard; interrupted = h.interrupted; quiet = h.quiet };
  };
  effect = λ c e k h. record {
    hard = h.hard;
    interrupted = h.interrupted;
    quiet = more c.effects e k h.quiet;
  };
  uuid = λ c n h. record { hard = h.hard; interrupted = h.interrupted; quiet = h.quiet };
  call = λ c b h. record { hard = h.hard; interrupted = h.interrupted; quiet = h.quiet };
  stop = λ c m e h. absurd (let p = h.hard in ground arith);
  interrupt = λ c h. record { hard = h.hard; interrupted = refl; quiet = h.quiet };
  cancelled = λ c h. record { hard = h.hard; interrupted = h.interrupted; quiet = h.quiet };
}

module _ (base : List Effect) (w : World) where
  handle_event-IsStopped :
      (e : Event) (c : Coordinator)
      → is_enabled w c e ≡ true
      → IsStopped base c
      → Outcome (λ _. IsStopped base) (IsStopped base) (handle_event w e c)
  unfolding handle_event is_enabled
  handle_event-IsStopped (received input) c n h =
      (handle_inbox_inputs-Keeps (IsStopped-IsStep base) w (input ∷ [])).run c h
  handle_event-IsStopped (updated v) c n h =
      (process_operations-Keeps (IsStopped-IsStep base) w (v ∷ [])).run c h
  handle_event-IsStopped heartbeat_due c n h =
      (post_heartbeat-Keeps (IsStopped-IsStep base) w).run c h
  handle_event-IsStopped grace_due c n h =
      (Hoare-modify {P = IsStopped base} {Q = λ _. IsStopped base} clear_tool_grace
          (λ c p. (IsStopped-IsStep base).local.grace c _ _ p)).run
        c h
  handle_event-IsStopped (responded turn r) c n h = absurd (let p = h.interrupted in ground arith)

  conclude-IsStopped : (b : Bool) → Keeps (IsStopped base) (conclude w b)
  unfolding conclude
  conclude-IsStopped b = record {
    run = λ c h.
        rw (h.hard, conclude)
          ((Hoare-bind (λ _. IsStopped base) (handle_stop-Keeps (IsStopped-IsStep base) w)
              (λ stopped.
                Hoare-pure (λ _. IsStopped base) (if stopped then stops else continues))).run
            c h);
  }

-- Once a hard stop was accepted and no response is awaited, this stays so through every round that
-- the loop can take, and the round requests no response and hands no operation to the manager.
pub round-IsStopped :
    (w : World) (e : Event) (inputs : List Input) (updates : List Operation) (base : List Effect)
    (c : Coordinator)
    → is_enabled w c e ≡ true
    → IsStopped base c
    → IsStopped base (round w e inputs updates c).1
unfolding round
round-IsStopped w e inputs updates base c n h =
    Outcome-state (IsStopped base) (round w e inputs updates c) (
      (Hoare-bind {P = λ s. s ≡ c} (λ _. IsStopped base)
          (record {
            run = λ s p.
                subst (λ x. Outcome (λ _. IsStopped base) (IsStopped base) (handle_event w e x))
                  (sym p) (handle_event-IsStopped base w e c n h);
          })
          (λ _.
            Hoare-bind (λ _. IsStopped base)
              (process_events-Keeps (IsStopped-IsStep base) w inputs updates)
              (λ b. conclude-IsStopped base w b))).run
        c refl)
