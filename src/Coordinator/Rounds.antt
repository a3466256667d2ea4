-- ===== src/Coordinator/Rounds.antt =====
-- What a whole round keeps: the steps of `Steps`, with those that start operations and requests.
use heuristic.Prelude.{
  String, inl, inr, Bool, true, false, ◌&&◌, not, Option, none, some, List, [], ◌∷◌, ◌++◌,
  if◌then◌else◌, Bool-cases, if-intro, nat_eq, string_eq, pair_eq, All, All-map,
}
use mathlib.Core.List.{Mem, mem-cons_of_mem, mem-cons_self}
use heuristic.Prelude.Exec.{
  Hoare, Keeps, Hoare-pure, Hoare-if, Hoare-modify, Hoare-bind, Hoare-read, Hoare-raise,
  Hoare-weaken, Hoare-relax,
}
use heuristic.Llm.{Response, Request}
use heuristic.Operation.{Operation, is_terminal}
use heuristic.Inbox.{Input}
use heuristic.SessionStore.{ModelResponse, ToolCallStatus}
use heuristic.Coordinator.{
  World, Coordinator, dispatched, requested, interrupt_model, clear_tool_grace, is_empty,
}
use heuristic.Coordinator.Local.{is_compaction_response}
use heuristic.Coordinator.Steps.{
  IsStep, perform_lem, record_item-Keeps, handle_inbox_inputs-Keeps, process_operations-Keeps,
  post_heartbeat-Keeps, handle_stop-Keeps, process_events-Keeps,
}
use heuristic.Coordinator.Commits.{IsStored, before, schedule_tool_calls-IsStored}
use heuristic.Coordinator.Schedule.{dispatch_operation, dispatch_each, require_model_response}
use heuristic.Coordinator.Loop.{
  is_stop_hard, request_model_response, handle_model_response, dispatch_statuses, start_grace,
  status_keys, process_model_response, Event, received, updated, heartbeat_due, grace_due,
  responded, handle_event, continues, stops, conclude, round,
}

module _ {P : Coordinator → Type 0} (l : IsStep P) (w : World)
    (dispatch : (c : Coordinator) (status : ToolCallStatus) (v : Operation)
      → IsStored status c.effects
      → Mem v status.operations
      → P c
      → P (record c { effects = c.effects ++ dispatched v ∷ [] })) where
  -- The statuses of a response that are in the store.
  abbrev AreStored : List ToolCallStatus → Coordinator → Type 0
  AreStored statuses c = All (λ v. IsStored v c.effects) statuses

  dispatch_operation-Keeps :
      (statuses : List ToolCallStatus) (status : ToolCallStatus) (v : Operation)
      → ((c : Coordinator) → AreStored statuses c → IsStored status c.effects)
      → Mem v status.operations
      → Keeps (λ c. AreStored statuses c × P c) (dispatch_operation w v)
  unfolding dispatch_operation
  dispatch_operation-Keeps statuses status v pick m =
      Hoare-if (is_terminal v.status) (λ _. Hoare-pure _ tt)
        (λ _. perform_lem w _ (λ c h. (
          All-map _ _ statuses (λ s. before c.effects _) h.0,
          dispatch c status v (pick c h.0) m h.1,
        )))

  dispatch_each-Keeps :
      (statuses : List ToolCallStatus) (status : ToolCallStatus) (vs : List Operation)
      → ((c : Coordinator) → AreStored statuses c → IsStored status c.effects)
      → ((v : Operation) → Mem v vs → Mem v status.operations)
      → Keeps (λ c. AreStored statuses c × P c) (dispatch_each w vs)
  unfolding dispatch_each
  dispatch_each-Keeps statuses status [] pick m = Hoare-pure _ tt
  dispatch_each-Keeps statuses status (v ∷ vs) pick m =
      Hoare-bind (λ _ c. AreStored statuses c × P c)
        (dispatch_operation-Keeps statuses status v pick (m v mem-cons_self))
        (λ _. dispatch_each-Keeps statuses status vs pick (λ x h. m x (mem-cons_of_mem _ h)))

  dispatch_statuses-Keeps :
      (statuses rest : List ToolCallStatus)
      → ((c : Coordinator) → AreStored statuses c → AreStored rest c)
      → Keeps (λ c. AreStored statuses c × P c) (dispatch_statuses w rest)
  unfolding dispatch_statuses
  dispatch_statuses-Keeps statuses [] pick = Hoare-pure _ tt
  dispatch_statuses-Keeps statuses (v ∷ vs) pick =
      Hoare-bind (λ _ c. AreStored statuses c × P c)
        (dispatch_each-Keeps statuses v v.operations (λ c h. (pick c h).0) (λ x h. h))
        (λ _. dispatch_statuses-Keeps statuses vs (λ c h. (pick c h).1))

  handle_model_response-AreStored :
      (r : ModelResponse) → Hoare P (handle_model_response w r) (λ vs c. AreStored vs c × P c) P
  unfolding handle_model_response
  handle_model_response-AreStored r =
      Hoare-bind (λ _. P) (record_item-Keeps l w _)
        (λ _.
          Hoare-bind (λ _. P) (Hoare-read P)
            (λ c.
              Hoare-if (is_compaction_response r c)
                (λ _. Hoare-weaken (λ c p. (tt, p)) (Hoare-pure (λ vs c. AreStored vs c × P c) []))
                (λ _.
                  Hoare-bind (λ vs c. P c × AreStored vs c) (schedule_tool_calls-IsStored l w)
                    (λ vs.
                      Hoare-bind (λ _ c. AreStored vs c × P c)
                        (Hoare-modify _ (λ c h. (h.1, l.call c (require_model_response vs) h.0)))
                        (λ _. Hoare-pure (λ vs c. AreStored vs c × P c) vs)))))

  start_grace_lem : (vs : List ToolCallStatus) (c : Coordinator) → P c → P (start_grace vs c)
  unfolding start_grace
  start_grace_lem vs c p =
      if-intro P (not c.call_model && not (is_empty vs))
        (record c { grace_tool_calls = c.grace_tool_calls ++ status_keys vs; grace = true }) c
        (λ _. l.local.grace c _ _ p) (λ _. p)

  process_model_response-Keeps :
      (turn : String) (r : Option Response) → Keeps P (process_model_response w turn r)
  unfolding process_model_response
  process_model_response-Keeps turn none =
      Hoare-bind (λ _. P) (Hoare-modify interrupt_model l.interrupt) (λ _. Hoare-raise _)
  process_model_response-Keeps turn (some r) =
      Hoare-bind (λ _. P) (Hoare-modify interrupt_model l.interrupt)
        (λ _.
          Hoare-bind (λ vs c. AreStored vs c × P c) (handle_model_response-AreStored _)
            (λ vs.
              Hoare-bind (λ _ c. AreStored vs c × P c)
                (Hoare-relax _ _ _ _ (λ _ c h. h) (λ c h. h.1)
                  (dispatch_statuses-Keeps vs vs (λ c h. h)))
                (λ _. Hoare-modify _ (λ c h. start_grace_lem vs c h.1))))

  module _
      (arm : (c : Coordinator) → P c → P (record c { cancel_model = true; call_model = false }))
      (request : (c : Coordinator) (turn : String) (r : Request)
        → P c
        → P (record c { effects = c.effects ++ requested turn r ∷ [] })) where
    pub request_model_response-Keeps : Keeps P (request_model_response w)
    unfolding request_model_response
    request_model_response-Keeps =
        Hoare-bind (λ _. P) (Hoare-modify interrupt_model l.interrupt)
          (λ _.
            Hoare-bind (λ _. P) (Hoare-read P)
              (λ c.
                Hoare-bind (λ _. P) (Hoare-modify _ (λ c p. l.uuid c _ p))
                  (λ _.
                    Hoare-bind (λ _. P) (record_item-Keeps l w _)
                      (λ _.
                        Hoare-bind (λ _. P) (Hoare-modify _ arm)
                          (λ _. perform_lem w _ (λ c. request c _ _))))))

    conclude-Keeps : (call_model : Bool) → Keeps P (conclude w call_model)
    unfolding conclude
    conclude-Keeps call_model = record {
      run = λ c p. elim (Bool-cases (is_stop_hard c.stop.mode)) [
        | inl e ↦
            rw (e, conclude)
              ((Hoare-bind (λ _. P) (handle_stop-Keeps l w)
                  (λ stopped. Hoare-pure (λ _. P) (if stopped then stops else continues))).run
                c p)
        | inr e ↦
            rw (e, conclude)
              ((Hoare-bind (λ _. P)
                  (Hoare-if call_model
                    (λ _.
                      Hoare-bind (λ _. P) request_model_response-Keeps
                        (λ _. Hoare-modify clear_tool_grace (λ c p. l.local.grace c _ _ p)))
                    (λ _. Hoare-pure (λ _. P) tt))
                  (λ _. Hoare-bind (λ _. P) (Hoare-read P) (λ c. Hoare-pure (λ _. P) _))).run
                c p)
      ];
    }

    handle_event-Keeps : (e : Event) → Keeps P (handle_event w e)
    unfolding handle_event
    handle_event-Keeps (received input) = handle_inbox_inputs-Keeps l w (input ∷ [])
    handle_event-Keeps (updated v) = process_operations-Keeps l w (v ∷ [])
    handle_event-Keeps heartbeat_due = post_heartbeat-Keeps l w
    handle_event-Keeps grace_due = Hoare-modify clear_tool_grace (λ c p. l.local.grace c _ _ p)
    handle_event-Keeps (responded turn r) = process_model_response-Keeps turn r

    pub round-Keeps :
        (e : Event) (inputs : List Input) (updates : List Operation)
        → Keeps P (round w e inputs updates)
    unfolding round
    round-Keeps e inputs updates =
        Hoare-bind (λ _. P) (handle_event-Keeps e)
          (λ _. Hoare-bind (λ _. P) (process_events-Keeps l w inputs updates) conclude-Keeps)
