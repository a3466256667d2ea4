-- ===== src/Coordinator/Commits.antt =====
-- What `scheduleToolCalls` leaves in the session store: the status of each call that it returns,
-- with the operations that the call started.
use heuristic.Prelude.{
  refl, inl, inr, List, [], ◌∷◌, ◌++◌, Bool-cases, Option-cases, nat_eq, string_eq, pair_eq, All,
}
use heuristic.Prelude.Exec.{
  Hoare, Keeps, Hoare-pure, Hoare-modify, Hoare-bind, Hoare-read, Hoare-weaken, Hoare-relax,
}
use heuristic.Llm.{ToolCall}
use heuristic.SessionStore.{Item, ItemKind, of_tool_call_status, ToolCallStatus}
use heuristic.Coordinator.{World, Coordinator, ToolCallKey, ToolCallState, Effect, stored, perform}
use heuristic.Coordinator.Local.{add_turn}
use heuristic.Coordinator.Frame.{IsLocal, add_item-Keeps, add_operations_lem}
use heuristic.Coordinator.Steps.{IsStep}
use heuristic.Coordinator.Schedule.{
  new_item, store_data, store_item, record_item, call_status, translate_call, schedule_tool_call,
  schedule_entries, schedule_tool_calls,
}

-- The item of a status.
abbrev pub status_item : ToolCallStatus → Item
status_item v = new_item ItemKind.tool_call_status (of_tool_call_status v)

-- A status was stored with the calls of other components that were made so far.
pub data IsStored (v : ToolCallStatus) : List Effect → Type 0 where
  at_last : (es : List Effect) → IsStored v (es ++ stored (status_item v) ∷ [])
  before : (es : List Effect) (e : Effect) → IsStored v es → IsStored v (es ++ e ∷ [])

module _ {P Q : Coordinator → Type 0} where
  IsLocal-pair : IsLocal P → IsLocal Q → IsLocal (λ c. P c × Q c)
  IsLocal-pair p q = record {
    builder = λ c b h. (p.builder c b h.0, q.builder c b h.1);
    calls = λ c t h. (p.calls c t h.0, q.calls c t h.1);
    ops = λ c o h. (p.ops c o h.0, q.ops c o h.1);
    grace = λ c g k h. (p.grace c g k h.0, q.grace c g k h.1);
    more = λ c h. (p.more c h.0, q.more c h.1);
    delivered = λ c h. (p.delivered c h.0, q.delivered c h.1);
    turn = λ c t h. (p.turn c t h.0, q.turn c t h.1);
  }

  IsStep-pair : IsStep P → IsStep Q → IsStep (λ c. P c × Q c)
  IsStep-pair p q = record {
    local = IsLocal-pair p.local q.local;
    effect = λ c e k h. (p.effect c e k h.0, q.effect c e k h.1);
    uuid = λ c n h. (p.uuid c n h.0, q.uuid c n h.1);
    call = λ c b h. (p.call c b h.0, q.call c b h.1);
    stop = λ c m e h. (p.stop c m e h.0, q.stop c m e h.1);
    interrupt = λ c h. (p.interrupt c h.0, q.interrupt c h.1);
    cancelled = λ c h. (p.cancelled c h.0, q.cancelled c h.1);
  }

module _ (v : ToolCallStatus) where
  IsStored-IsStep : IsStep (λ c. IsStored v c.effects)
  unfolding add_turn
  IsStored-IsStep = record {
    local = record {
      builder = λ c b h. h;
      calls = λ c t h. h;
      ops = λ c o h. h;
      grace = λ c g k h. h;
      more = λ c h. h;
      delivered = λ c h. h;
      turn = λ c t h. h;
    };
    effect = λ c e k h. before c.effects e h;
    uuid = λ c n h. h;
    call = λ c b h. h;
    stop = λ c m e h. h;
    interrupt = λ c h. h;
    cancelled = λ c h. h;
  }

module _ {P : Coordinator → Type 0} (l : IsStep P) (w : World) where
  store_status-IsStored :
      (v : ToolCallStatus)
      → Hoare P (store_item w (status_item v)) (λ _ c. P c × IsStored v c.effects) P
  unfolding store_item store_data perform
  store_status-IsStored v = record {
    run = λ c p. elim (Bool-cases (w.accepts c.effects (stored (status_item v)))) [
      | inl a ↦ rw a (l.effect c (stored (status_item v)) refl p, at_last c.effects)
      | inr a ↦ rw a p
    ];
  }

  schedule_tool_call-IsStored :
      (key : ToolCallKey) (call : ToolCall)
      → Hoare P (schedule_tool_call w key call) (λ v c. P c × IsStored v c.effects) P
  unfolding schedule_tool_call record_item
  schedule_tool_call-IsStored key call =
      Hoare-bind (λ _. P) (Hoare-read P)
        (λ c.
          let translated = translate_call w c.uuids call in
          let status = call_status key translated in
          Hoare-bind (λ _. P)
            (Hoare-modify _ (λ c p. add_operations_lem l.local translated.0 _ (l.uuid c _ p)))
            (λ _.
              Hoare-bind (λ _ c. P c × IsStored status c.effects)
                (Hoare-bind (λ _. P) (add_item-Keeps l.local w (status_item status))
                  (λ _. store_status-IsStored status))
                (λ _. Hoare-pure (λ v c. P c × IsStored v c.effects) status)))

pub schedule_entries-IsStored :
    {P : Coordinator → Type 0} (l : IsStep P) (w : World)
    (entries : List (ToolCallKey × ToolCallState))
    → Hoare P (schedule_entries w entries) (λ vs c. P c × All (λ v. IsStored v c.effects) vs) P
unfolding schedule_entries
schedule_entries-IsStored {P = P} l w [] =
    Hoare-weaken (λ c p. (p, tt)) (Hoare-pure (λ vs c. P c × All (λ v. IsStored v c.effects) vs) [])
schedule_entries-IsStored {P = P} l w ((key, call) ∷ rest) = elim (Option-cases call.status) [
  | inl e ↦
      rw (e, schedule_entries)
        (Hoare-bind _ (schedule_tool_call-IsStored l w key call.tool_call) (λ v.
          Hoare-bind (λ vs c. P c × (IsStored v c.effects × All (λ v. IsStored v c.effects) vs))
            (Hoare-relax _ _ _ _ (λ vs c h. (h.0.0, (h.0.1, h.1))) (λ c h. h.0)
              (schedule_entries-IsStored (IsStep-pair l (IsStored-IsStep v)) w rest))
            (λ vs. Hoare-pure (λ vs c. P c × All (λ v. IsStored v c.effects) vs) (v ∷ vs))))
  | inr (s, e) ↦ rw (e, schedule_entries) (schedule_entries-IsStored l w rest)
]

-- Every status that `scheduleToolCalls` returns is stored.
pub schedule_tool_calls-IsStored :
    {P : Coordinator → Type 0} (l : IsStep P) (w : World)
    → Hoare P (schedule_tool_calls w) (λ vs c. P c × All (λ v. IsStored v c.effects) vs) P
unfolding schedule_tool_calls
schedule_tool_calls-IsStored l w = record {
  run = λ c p. (schedule_entries-IsStored l w c.tool_calls).run c p;
}

pub schedule_tool_calls-Keeps :
    {P : Coordinator → Type 0} (l : IsStep P) (w : World) → Keeps P (schedule_tool_calls w)
schedule_tool_calls-Keeps {P = P} l w =
    Hoare-relax _ (λ _. P) _ P (λ vs c h. h.0) (λ c h. h) (schedule_tool_calls-IsStored l w)
