-- ===== src/Coordinator/Steps.antt =====
-- A property that survives the assignments of the loop and its calls of other components, but for
-- those that start operations and model requests, is kept by each handler.
use heuristic.Prelude.{
  ℕ, String, ◌≡◌, refl, inl, inr, Bool, true, false, not, Option, none, some, List, [], ◌∷◌, ◌++◌,
  map, if◌then◌else◌, Bool-cases, Option-cases, if-intro, nat_eq, string_eq, pair_eq,
}
use heuristic.Prelude.Exec.{
  Result, ok, err, Keeps, Hoare-pure, Hoare-if, Hoare-modify, Hoare-bind, Hoare-read, Hoare-raise,
  Outcome_lem, Outcome-state,
}
use heuristic.Prelude.Map
use heuristic.Json.{ControlMode, stop_hard, stop_when_idle, update_settings}
use heuristic.Operation.{Operation, is_terminal}
use heuristic.Inbox.{Input, InputKind, control, InputError, ControlMessage, decode_control_message}
use heuristic.SessionStore.{
  Item, ItemKind, ItemData, of_input, of_turn, of_model_response, of_tool_call_status,
}
use heuristic.Coordinator.{
  World, Coordinator, ToolCallKey, ToolCallState, CoordinatorError, Effect, dispatched, cancelled,
  requested, perform, interrupt_model,
}
use heuristic.Coordinator.Local.{add_operation, tool_call_operations_are_terminal}
use heuristic.Coordinator.Frame.{IsLocal, add_item-Keeps}
use heuristic.Coordinator.Schedule.{
  new_item, store_data, store_item, record_item, waited_operations, call_status, reconcile_call,
  reconcile_key, reconcile_keys, reconcile_tool_calls,
}
use heuristic.Coordinator.Loop.{
  is_stop_hard, accept_stop, cancel_each, cancel_operations, handle_stop, has_pending_operations,
  accept_control, accept_decoded, after_input, handle_inbox_input, handle_inbox_inputs, is_external,
  handle_operation_update, process_operations, submit_heartbeat, post_heartbeat, process_events,
}

-- A call that neither dispatches an operation nor requests a response.
abbrev pub is_quiet : Effect → Bool
is_quiet (dispatched v) = false
is_quiet (requested turn r) = false
is_quiet e = true

-- The assignments of the handlers, and their calls.
pub record IsStep (P : Coordinator → Type 0) : Type 0 where
  pub local : IsLocal P
  pub effect :
      (c : Coordinator) (e : Effect)
      → is_quiet e ≡ true
      → P c
      → P (record c { effects = c.effects ++ e ∷ [] })
  pub uuid : (c : Coordinator) (n : ℕ) → P c → P (record c { uuids = n })
  pub call : (c : Coordinator) (b : Bool) → P c → P (record c { call_model = b })
  pub stop :
      (c : Coordinator) (m : ControlMessage)
      → is_stop_hard c.stop.mode ≡ false
      → P c
      → P (record c { stop = m })
  pub interrupt : (c : Coordinator) → P c → P (interrupt_model c)
  pub cancelled : (c : Coordinator) → P c → P (record c { cancellation_requested = true })

pub perform_lem :
    {P : Coordinator → Type 0} (w : World) (e : Effect)
    → ((c : Coordinator) → P c → P (record c { effects = c.effects ++ e ∷ [] }))
    → Keeps P (perform w e)
unfolding perform
perform_lem w e f = record {
  run = λ c p. elim (Bool-cases (w.accepts c.effects e)) [
    | inl a ↦ rw (a, perform) (f c p)
    | inr a ↦ rw (a, perform) p
  ];
}

module _ {P : Coordinator → Type 0} (l : IsStep P) (w : World) where
  pub perform-Keeps : (e : Effect) → is_quiet e ≡ true → Keeps P (perform w e)
  perform-Keeps e q = perform_lem w e (λ c. l.effect c e q)

  store_data-Keeps : (item : Item) (k : ItemKind) (d : ItemData) → Keeps P (store_data w item k d)
  unfolding store_data
  store_data-Keeps item ItemKind.input (of_input v) = perform-Keeps _ refl
  store_data-Keeps item ItemKind.turn (of_turn v) = perform-Keeps _ refl
  store_data-Keeps item ItemKind.model_response (of_model_response v) = perform-Keeps _ refl
  store_data-Keeps item ItemKind.tool_call_status (of_tool_call_status v) = perform-Keeps _ refl
  store_data-Keeps item ItemKind.fork d = Hoare-raise _
  store_data-Keeps item (ItemKind.other k) d = Hoare-raise _
  store_data-Keeps item k d = Hoare-raise _

  pub record_item-Keeps : (item : Item) → Keeps P (record_item w item)
  unfolding record_item store_item
  record_item-Keeps item =
      Hoare-bind _ (add_item-Keeps l.local w item)
        (λ _. store_data-Keeps item item.kind item.content)

  accept_stop_lem : (m : ControlMessage) (c : Coordinator) → P c → P (accept_stop m c)
  unfolding accept_stop
  accept_stop_lem m c p =
      if-intro P (is_stop_hard c.stop.mode) c (record c { stop = m }) (λ _. p) (λ e. l.stop c m e p)

  accept_control_lem :
      (m : ControlMessage) (mode : ControlMode) (c : Coordinator)
      → P c
      → P (accept_control m mode c)
  unfolding accept_control
  accept_control_lem m update_settings c p = p
  accept_control_lem m stop_hard c p = l.local.grace _ _ _ (accept_stop_lem m c p)
  accept_control_lem m stop_when_idle c p = l.local.grace _ _ _ (accept_stop_lem m c p)
  accept_control_lem m mode c p = l.local.grace _ _ _ p

  accept_decoded-Keeps : (m : Result InputError ControlMessage) → Keeps P (accept_decoded m)
  unfolding accept_decoded
  accept_decoded-Keeps (err e) = Hoare-raise _
  accept_decoded-Keeps (ok m) = Hoare-modify _ (accept_control_lem m m.mode)

  after_input-Keeps : (input : Input) (k : InputKind) → Keeps P (after_input w input k)
  unfolding after_input
  after_input-Keeps input control = accept_decoded-Keeps (decode_control_message w.json input)
  after_input-Keeps input k = Hoare-modify _ (λ c p. l.local.grace c _ _ p)

  mark_call_lem :
      (input : Input) (c : Coordinator)
      → P c
      → P (if is_external input.kind then record c { call_model = true } else c)
  mark_call_lem input c p =
      if-intro P (is_external input.kind) (record c { call_model = true }) c (λ _. l.call c true p)
        (λ _. p)

  pub handle_inbox_inputs-Keeps : (inputs : List Input) → Keeps P (handle_inbox_inputs w inputs)
  unfolding handle_inbox_inputs handle_inbox_input
  handle_inbox_inputs-Keeps [] = Hoare-pure _ tt
  handle_inbox_inputs-Keeps (input ∷ rest) =
      Hoare-bind _ (Hoare-bind _ (record_item-Keeps _) (λ _. after_input-Keeps input input.kind))
        (λ _.
          Hoare-bind _ (Hoare-modify _ (mark_call_lem input)) (λ _. handle_inbox_inputs-Keeps rest))

  pub process_operations-Keeps : (vs : List Operation) → Keeps P (process_operations w vs)
  unfolding process_operations handle_operation_update
  process_operations-Keeps [] = Hoare-pure _ tt
  process_operations-Keeps (v ∷ vs) =
      Hoare-bind _
        (Hoare-bind _ (Hoare-modify (add_operation v) (λ c p. l.local.ops c _ p))
          (λ _. perform-Keeps _ refl))
        (λ _. process_operations-Keeps vs)

  reconcile_call-Keeps :
      (key : ToolCallKey) (call : Option ToolCallState) → Keeps P (reconcile_call w key call)
  unfolding reconcile_call
  reconcile_call-Keeps key none = record { run = λ c p. p }
  reconcile_call-Keeps key (some call) = record {
    run = λ c p. elim (Option-cases call.status) [
      | inl e ↦ rw (e, reconcile_call) p
      | inr (s, e) ↦
          let status = call_status key (waited_operations c.operations s.waiting_for, s) in
          rw (e, reconcile_call)
            ((Hoare-bind (λ _. P)
                (record_item-Keeps
                  (new_item ItemKind.tool_call_status (of_tool_call_status status)))
                (λ _.
                  Hoare-bind (λ _. P) (Hoare-read P)
                    (λ after.
                      Hoare-pure (λ _. P)
                        (elim (Map.lookup key after.tool_calls) [
                          | none ↦ status ∷ []
                          | some x ↦ []
                        ])))).run
              c p)
    ];
  }

  reconcile_key-Keeps : (key : ToolCallKey) → Keeps P (reconcile_key w key)
  unfolding reconcile_key
  reconcile_key-Keeps key = record {
    run = λ c p. elim (Bool-cases (not (tool_call_operations_are_terminal key c))) [
      | inl e ↦ rw (e, reconcile_key) p
      | inr e ↦
          rw (e, reconcile_key) ((reconcile_call-Keeps key (Map.lookup key c.tool_calls)).run c p)
    ];
  }

  reconcile_keys-Keeps : (keys : List ToolCallKey) → Keeps P (reconcile_keys w keys)
  unfolding reconcile_keys
  reconcile_keys-Keeps [] = Hoare-pure (λ _. P) []
  reconcile_keys-Keeps (key ∷ rest) =
      Hoare-bind (λ _. P) (reconcile_key-Keeps key)
        (λ done.
          Hoare-bind (λ _. P) (reconcile_keys-Keeps rest)
            (λ others. Hoare-pure (λ _. P) (done ++ others)))

  pub reconcile_tool_calls-Keeps : Keeps P (reconcile_tool_calls w)
  unfolding reconcile_tool_calls
  reconcile_tool_calls-Keeps = record {
    run = λ c p. (reconcile_keys-Keeps (map (λ e. e.0) c.tool_calls)).run c p;
  }

  kept_error_lem :
      (r : Result CoordinatorError (Unit {0}))
      (x : Result CoordinatorError (Unit {0}) × Coordinator)
      → P x.1
      → P
          (elim r as (λ _. Result CoordinatorError (Unit {0}) × Coordinator) [
            | ok u ↦ x
            | err e ↦ (err e, x.1)
          ]).1
  kept_error_lem (ok u) x p = p
  kept_error_lem (err e) x p = p

  cancel_each_lem :
      (reason : String) (ops : List (String × Operation)) (c : Coordinator)
      → P c
      → P (cancel_each w reason ops c).1
  unfolding cancel_each
  cancel_each_lem reason [] c p = p
  cancel_each_lem reason ((id, v) ∷ ops) c p =
      let next = (perform w (cancelled id reason) c).1 in
      elim (Bool-cases (is_terminal v.status)) [
        | inl e ↦ rw e (cancel_each_lem reason ops c p)
        | inr e ↦ rw e (
            kept_error_lem (perform w (cancelled id reason) c).0 (cancel_each w reason ops next) (
              cancel_each_lem reason ops next (
                Outcome-state P (perform w (cancelled id reason) c)
                  ((perform-Keeps _ refl).run c p))))
      ]

  cancel_operations-Keeps : Keeps P (cancel_operations w)
  unfolding cancel_operations
  cancel_operations-Keeps = record {
    run = λ c p.
        Outcome_lem P (cancel_each w c.stop.reason c.operations c)
          (cancel_each_lem c.stop.reason c.operations c p);
  }

  pub handle_stop-Keeps : Keeps P (handle_stop w)
  unfolding handle_stop
  handle_stop-Keeps =
      Hoare-bind (λ _. P) (Hoare-read P)
        (λ c.
          Hoare-bind (λ _. P)
            (Hoare-if c.cancellation_requested (λ _. Hoare-pure (λ _. P) tt)
              (λ _.
                Hoare-bind (λ _. P) (Hoare-modify interrupt_model l.interrupt)
                  (λ _.
                    Hoare-bind (λ _. P) cancel_operations-Keeps (λ _. Hoare-modify _ l.cancelled))))
            (λ _.
              Hoare-bind (λ _. P) (Hoare-read P)
                (λ c. Hoare-pure (λ _. P) (not (has_pending_operations c)))))

  submit_heartbeat-Keeps : (payload : Option String) → Keeps P (submit_heartbeat w payload)
  unfolding submit_heartbeat
  submit_heartbeat-Keeps none = record { run = λ c p. p }
  submit_heartbeat-Keeps (some payload) = record {
    run = λ c p. (perform-Keeps _ refl).run _ (l.uuid c _ p);
  }

  pub post_heartbeat-Keeps : Keeps P (post_heartbeat w)
  unfolding post_heartbeat
  post_heartbeat-Keeps = record {
    run = λ c p.
        (submit_heartbeat-Keeps
            (w.heartbeat_payload (w.sort_calls (map (λ e. e.1.tool_call) c.tool_calls)))).run
          c p;
  }

  pub process_events-Keeps :
      (inputs : List Input) (updates : List Operation) → Keeps P (process_events w inputs updates)
  unfolding process_events
  process_events-Keeps inputs updates =
      Hoare-bind (λ _. P) (handle_inbox_inputs-Keeps inputs)
        (λ _.
          Hoare-bind (λ _. P) (process_operations-Keeps updates)
            (λ _.
              Hoare-bind (λ _. P) reconcile_tool_calls-Keeps
                (λ _. Hoare-bind (λ _. P) (Hoare-read P) (λ c. Hoare-pure (λ _. P) _))))
