-- ===== src/Coordinator/Frame.antt =====
-- What the steps of the loop can change: a property that survives the few assignments that
-- `addItemToLocalState` makes is kept by each of its cases.
use heuristic.Prelude.{
  String, inl, inr, Bool, not, Option, none, some, List, [], ◌∷◌, if◌then◌else◌, Bool-cases,
  Option-cases, if-intro, ◌==◌, nat_eq, string_eq, pair_eq,
}
use heuristic.Prelude.Exec.{
  Result, ok, err, Outcome, Keeps, Hoare-pure, Hoare-if, Hoare-modify, Hoare-bind,
}
use heuristic.Prelude.Map
use heuristic.Llm.{ToolResult, ItemType, Content, of_tool_call}
use heuristic.Llm
use heuristic.Operation.{Operation}
use heuristic.Session.{Turn}
use heuristic.Inbox.{
  Input, InputKind, external, control, InputError, ControlMessage, validate, decode_control_message,
}
use heuristic.SessionStore.{
  Item, ItemKind, ItemData, of_fork, of_input, of_turn, of_model_response, of_tool_call_status,
  ModelResponse, ToolCallStatus,
}
use heuristic.ContextBuilder.{Builder, BuilderError, add_model_response, add_external_input}
use heuristic.Coordinator.{World, Translator, Coordinator, ToolCallKey, ToolCallState}
use heuristic.Coordinator.Local.{
  with_builder, available, add_operations, add_tool_call, add_tool_calls, with_call_status,
  add_tool_call_operations, finish_tool_call, unavailable_result, show_result, translated_result,
  call_result, collect_operations, add_tool_result_to_local_state, is_heartbeat,
  add_decoded_control, add_external_result, add_valid_input, add_input, add_turn,
  is_compaction_response, add_response, add_status, requires_translator,
  tool_call_operations_are_terminal, add_data, add_item_to_local_state,
}

-- The assignments of `addItemToLocalState`.
pub record IsLocal (P : Coordinator → Type 0) : Type 0 where
  pub builder : (c : Coordinator) (b : Builder) → P c → P (record c { context_builder = b })
  pub calls :
      (c : Coordinator) (t : List (ToolCallKey × ToolCallState))
      → P c
      → P (record c { tool_calls = t })
  pub ops :
      (c : Coordinator) (o : List (String × Operation)) → P c → P (record c { operations = o })
  pub grace :
      (c : Coordinator) (g : Bool) (k : List ToolCallKey)
      → P c
      → P (record c { grace = g; grace_tool_calls = k })
  pub more : (c : Coordinator) → P c → P (available c)
  pub delivered :
      (c : Coordinator) → P c → P (record c { delivered_inputs = c.current_turn_inputs })
  pub turn : (c : Coordinator) (t : Turn) → P c → P (add_turn t c)

module _ {P : Coordinator → Type 0} (l : IsLocal P) where
  with_builder-Keeps : (b : Option Builder) → Keeps P (with_builder b)
  with_builder-Keeps none = record { run = λ c p. p }
  with_builder-Keeps (some b) = record { run = λ c p. l.builder c b p }

  pub add_operations_lem : (vs : List Operation) (c : Coordinator) → P c → P (add_operations vs c)
  unfolding add_operations
  add_operations_lem [] c p = p
  add_operations_lem (v ∷ vs) c p = add_operations_lem vs _ (l.ops c _ p)

  add_tool_call-Keeps :
      (turn : String) (t : ItemType) (d : Content) → Keeps P (add_tool_call turn t d)
  unfolding add_tool_call
  add_tool_call-Keeps turn ItemType.tool_call (of_tool_call call) = record {
    run = λ c p. l.calls c _ p;
  }
  add_tool_call-Keeps turn ItemType.tool_call _ = record { run = λ c p. p }
  add_tool_call-Keeps turn _ d = record { run = λ c p. p }

  add_tool_calls-Keeps : (turn : String) (is : List Llm.Item) → Keeps P (add_tool_calls turn is)
  unfolding add_tool_calls
  add_tool_calls-Keeps turn [] = Hoare-pure _ tt
  add_tool_calls-Keeps turn (i ∷ is) =
      Hoare-bind _ (add_tool_call-Keeps turn i.type i.content) (λ _. add_tool_calls-Keeps turn is)

  with_call_status_lem :
      (v : ToolCallStatus) (call : Option ToolCallState) (c : Coordinator)
      → P c
      → P (with_call_status v call c)
  unfolding with_call_status
  with_call_status_lem v none c p = p
  with_call_status_lem v (some call) c p = l.calls c _ p

  finish_tool_call_lem : (key : ToolCallKey) (c : Coordinator) → P c → P (finish_tool_call key c)
  unfolding finish_tool_call
  finish_tool_call_lem key c p = l.more _ (l.grace _ _ _ (l.calls c _ p))

  show_result-Keeps : (v : ToolCallStatus) (r : Option ToolResult) → Keeps P (show_result v r)
  unfolding show_result
  show_result-Keeps v none = record { run = λ c p. p }
  show_result-Keeps v (some r) = record {
    run = λ c p.
        let rest = λ (_ : Unit {0}).
          Hoare-if (not (tool_call_operations_are_terminal (v.turn_id, v.call_id) c))
            (λ _. Hoare-pure (λ _. P) tt)
            (λ _. Hoare-modify _ (finish_tool_call_lem (v.turn_id, v.call_id))) in
        (Hoare-bind (λ _. P) (with_builder-Keeps _) rest).run c p;
  }

  unavailable_result-Keeps : (v : ToolCallStatus) → Keeps P (unavailable_result v)
  unfolding unavailable_result
  unavailable_result-Keeps v = record {
    run = λ c p. elim (Bool-cases (requires_translator v)) [
      | inl e ↦ rw (e, unavailable_result) p
      | inr e ↦
          rw (e, unavailable_result)
            ((Hoare-bind (λ _. P) (with_builder-Keeps _)
                (λ _. Hoare-modify _ (finish_tool_call_lem (v.turn_id, v.call_id)))).run
              c p)
    ];
  }

  translated_result-Keeps :
      (v : ToolCallStatus) (t : Translator) (ops : Option (List Operation))
      → Keeps P (translated_result v t ops)
  unfolding translated_result
  translated_result-Keeps v t none = record { run = λ c p. p }
  translated_result-Keeps v t (some ops) = record {
    run = λ c p. (show_result-Keeps v (t.translate_result v.call_id v.status ops)).run c p;
  }

  call_result-Keeps :
      (w : World) (v : ToolCallStatus) (call : Option ToolCallState)
      → Keeps P (call_result w v call)
  unfolding call_result
  call_result-Keeps w v none = record { run = λ c p. p }
  call_result-Keeps w v (some call) = record {
    run = λ c p. elim (Option-cases (w.resolve call.tool_call.name)) [
      | inl e ↦ rw (e, Outcome, call_result) ((unavailable_result-Keeps v).run c p)
      | inr (t, e) ↦
          rw (e, Outcome, call_result)
            ((translated_result-Keeps v t
                (collect_operations call.operations c.operations v.status.waiting_for)).run
              c p)
    ];
  }

  add_tool_result-Keeps :
      (w : World) (v : ToolCallStatus) → Keeps P (add_tool_result_to_local_state w v)
  unfolding add_tool_result_to_local_state
  add_tool_result-Keeps w v = record {
    run = λ c p. (call_result-Keeps w v (Map.lookup (v.turn_id, v.call_id) c.tool_calls)).run c p;
  }

  add_decoded_control-Keeps :
      (m : Result InputError ControlMessage) → Keeps P (add_decoded_control m)
  unfolding add_decoded_control
  add_decoded_control-Keeps (err e) = record { run = λ c p. p }
  add_decoded_control-Keeps (ok m) = record {
    run = λ c p.
        (Hoare-bind (λ _. P) (with_builder-Keeps _)
            (λ _. Hoare-modify _ (λ c p.
              if-intro P (is_heartbeat m.mode) (available c) c (λ _. l.more c p) (λ _. p)))).run
          c p;
  }

  add_external_result_lem :
      (r : Option BuilderError × Builder) (c : Coordinator)
      → P c
      → Outcome (λ _. P) P (add_external_result r c)
  unfolding add_external_result
  add_external_result_lem (some e, b) c p = l.builder c b p
  add_external_result_lem (none, b) c p = l.more _ (l.builder c b p)

  add_valid_input-Keeps :
      (w : World) (input : Input) (k : InputKind) → Keeps P (add_valid_input w input k)
  unfolding add_valid_input
  add_valid_input-Keeps w input external = record {
    run = λ c p. add_external_result_lem (add_external_input w.json input c.context_builder) c p;
  }
  add_valid_input-Keeps w input control = record {
    run = λ c p. (add_decoded_control-Keeps (decode_control_message w.json input)).run c p;
  }
  add_valid_input-Keeps w input k = record { run = λ c p. p }

  add_input-Keeps : (w : World) (input : Input) → Keeps P (add_input w input)
  unfolding add_input
  add_input-Keeps w input = record {
    run = λ c p. elim (Option-cases (validate w.json input)) [
      | inl e ↦ rw (e, add_input) ((add_valid_input-Keeps w input input.kind).run c p)
      | inr (x, e) ↦ rw (e, add_input) p
    ];
  }

  responded_lem :
      (r : ModelResponse) (c : Coordinator)
      → P c
      → P (record c {
        context_builder = add_model_response r.response c.context_builder;
        delivered_inputs =
            if r.turn_id == c.current_turn_id then c.current_turn_inputs else c.delivered_inputs;
      })
  responded_lem r c p = elim (Bool-cases (r.turn_id == c.current_turn_id)) [
    | inl e ↦ rw e (l.delivered _ (l.builder c (add_model_response r.response c.context_builder) p))
    | inr e ↦ rw e (l.builder c (add_model_response r.response c.context_builder) p)
  ]

  add_response-Keeps : (r : ModelResponse) → Keeps P (add_response r)
  unfolding add_response
  add_response-Keeps r = record {
    run = λ c p. elim (Bool-cases (is_compaction_response r c)) [
      | inl e ↦ rw (e, add_response) p
      | inr e ↦
          rw (e, add_response)
            ((add_tool_calls-Keeps r.turn_id r.response.output).run _ (responded_lem r c p))
    ];
  }

  add_status-Keeps : (w : World) (v : ToolCallStatus) → Keeps P (add_status w v)
  unfolding add_status add_tool_call_operations
  add_status-Keeps w v = record {
    run = λ c p. (add_tool_result-Keeps w v).run _ (
        with_call_status_lem v
          (Map.lookup (v.turn_id, v.call_id) (add_operations v.operations c).tool_calls) _
          (add_operations_lem v.operations c p));
  }

  add_data-Keeps : (w : World) (k : ItemKind) (d : ItemData) → Keeps P (add_data w k d)
  unfolding add_data
  add_data-Keeps w ItemKind.fork (of_fork v) = record {
    run = λ c p. l.grace _ _ _ (l.ops _ _ (l.calls c _ p));
  }
  add_data-Keeps w ItemKind.input (of_input v) = record { run = (add_input-Keeps w v).run }
  add_data-Keeps w ItemKind.turn (of_turn v) = record { run = λ c p. l.turn c v p }
  add_data-Keeps w ItemKind.model_response (of_model_response v) = record {
    run = (add_response-Keeps v).run;
  }
  add_data-Keeps w ItemKind.tool_call_status (of_tool_call_status v) = record {
    run = (add_status-Keeps w v).run;
  }
  add_data-Keeps w (ItemKind.other k) d = record { run = λ c p. p }
  add_data-Keeps w k d = record { run = λ c p. p }

  pub add_item-Keeps : (w : World) (item : Item) → Keeps P (add_item_to_local_state w item)
  unfolding add_item_to_local_state
  add_item-Keeps w item = record { run = (add_data-Keeps w item.kind item.content).run }
