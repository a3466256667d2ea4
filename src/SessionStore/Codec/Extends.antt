-- ===== src/SessionStore/Codec/Extends.antt =====
-- The records of the methods of the head: each stands for the change that its method made.
use heuristic.Prelude.{
  ℕ, ◌≡◌, refl, sym, ap, ◌∙◌, subst, ◌≢◌, false, List, [], ◌∷◌, ◌++◌, arith, nat_eq, string_eq,
  pair_eq, length,
}
use heuristic.Prelude.Exec.{Result, ok, Exec}
use heuristic.Json.{Json}
use heuristic.Operation.{Operation}
use heuristic.Session.{Turn}
use heuristic.Inbox.{Input}
use heuristic.SessionStore.{
  Item, ItemKind, ItemData, of_input, of_turn, of_model_response, of_tool_call_status,
  ModelResponse, ToolCallStatus,
}
use heuristic.SessionStore.Head.{
  SessionHead, StoreError, append_input, append_turn, append_model_response,
  append_tool_call_status, save_operation,
}
use heuristic.SessionStore.State.{
  StoredState, recorded, append_input_item, append_turn_item, append_model_response_item,
  append_tool_call_status_item,
}
use heuristic.SessionStore.Replay.{
  refusal, replay_data, replay_item, save_operation_item, replay_record, DecodedRecord, of_item,
  of_operation,
}
use heuristic.SessionStore.Codec.{LogCodec}
use heuristic.SessionStore.Codec.Reader.{is_fork, is_status}
use heuristic.SessionStore.Codec.Made.{
  Made, Makes, fails, makes, input-Makes, turn-Makes, response-Makes, status-Makes,
}
use heuristic.SessionStore.Codec.Append.{IsNext}
use heuristic.SessionStore.Codec.Laws.{ReadsBack}

module _ (j : Json) (c : LogCodec) where
  -- The record comes next, and its replay does what the method of the state does, whose head is
  -- then the one that the head's method left.
  pub record Extends (method : Exec StoredState StoreError (Unit {0})) (s : StoredState)
      (d : DecodedRecord) (after : SessionHead) : Type 0 where
    pub next : IsNext j c s d
    pub back : ReadsBack j c d
    pub last : StoredState
    pub method_is : method s ≡ (ok tt, last)
    pub replayed : replay_record j d s ≡ (ok tt, last)
    pub head_is : last.head ≡ after
    pub session : after.snapshot ≡ s.snapshot

  made_lem :
      (head : SessionHead) (kind : ItemKind) (content : ItemData) (at : ℕ)
      (m : Result StoreError Item × SessionHead) (item : Item) (after : SessionHead)
      → Makes head kind content at m
      → m ≡ (ok item, after)
      → Made head kind content at item after
  made_lem head kind content at m item after (fails e h) p =
      absurd (ground (arith, ap (λ x. x.0) p))
  made_lem head kind content at m item after (makes i h made) p =
      let q : i ≡ item = let r = ap (λ x. x.0) p in ground arith in
      subst (λ x. Made head kind content at x after) q
        (subst (λ x. Made head kind content at i x) (ap (λ x. x.1) p) made)

  -- The head's method, and what the replay of its record does.
  Extends-Made :
      (method : Exec StoredState StoreError (Unit {0})) (s : StoredState) (f : Item → Item)
      (kind : ItemKind) (content : ItemData) (at : ℕ) (ops : List Operation)
      (m : Result StoreError Item × SessionHead) (item : Item) (after : SessionHead)
      → at ≢ 0
      → is_fork j c kind ≡ false
      → (is_status j c kind ≡ false → length ops ≡ 0)
      → ((n : ℕ)
          → ReadsBack j c (
              of_item (record {
                item = record { sequence = n; recorded_at = at; kind = kind; content = content };
                operations = ops;
              })))
      → Makes s.head kind content at m
      → method s ≡ recorded s f m
      → replay_data j ops at kind content s ≡ refusal (recorded s f m)
      → m ≡ (ok item, after)
      → Extends method s (of_item (record { item = item; operations = ops })) after
  unfolding replay_record replay_item recorded
  Extends-Made method s f kind content at ops m item after timed owned alone reads can is step e =
      let made = made_lem s.head kind content at m item after can e in
      record {
        next = (
          made.sequence,
          λ z. timed (sym made.time ∙ z),
          rw made.kind_is owned,
          rw made.kind_is alone,
        );
        back =
            subst
              (λ k. ReadsBack j c (
                of_item (record {
                  item = record {
                    sequence = item.sequence;
                    recorded_at = item.recorded_at;
                    kind = k;
                    content = item.content;
                  };
                  operations = ops;
                })))
              (sym made.kind_is)
              (subst
                (λ k. ReadsBack j c (
                  of_item (record {
                    item = record {
                      sequence = item.sequence;
                      recorded_at = item.recorded_at;
                      kind = kind;
                      content = k;
                    };
                    operations = ops;
                  })))
                (sym made.content_is)
                (subst
                  (λ k. ReadsBack j c (
                    of_item (record {
                      item = record {
                        sequence = item.sequence;
                        recorded_at = k;
                        kind = kind;
                        content = content;
                      };
                      operations = ops;
                    })))
                  (sym made.time) (reads item.sequence)));
        last = record { head = after; items = s.items ++ f item ∷ [] };
        method_is = is ∙ ap (recorded s f) e;
        replayed =
            ap (λ k. replay_data j ops item.recorded_at k item.content s) made.kind_is
            ∙ ap (λ k. replay_data j ops item.recorded_at kind k s) made.content_is
            ∙ ap (λ k. replay_data j ops k kind content s) made.time
            ∙ step
            ∙ ap (λ x. refusal (recorded s f x)) e;
        head_is = refl;
        session = made.session;
      }

  module _ (s : StoredState) (at : ℕ) (timed : at ≢ 0) (item : Item) (after : SessionHead) where
    pub input-Extends :
        (v : Input)
        → ((n : ℕ)
            → ReadsBack j c (
                of_item (record {
                  item = record {
                    sequence = n;
                    recorded_at = at;
                    kind = ItemKind.input;
                    content = of_input v;
                  };
                  operations = [];
                })))
        → append_input j v at s.head ≡ (ok item, after)
        → Extends
            (append_input_item j v at)
            s
            (of_item (record { item = item; operations = [] }))
            after
    unfolding replay_data append_input_item is_fork
    input-Extends v reads e =
        Extends-Made _ s (λ i. i) ItemKind.input (of_input v) at [] _ item after timed refl
          (λ _. refl) reads (input-Makes j at s.head v) refl refl e

    pub turn-Extends :
        (v : Turn)
        → ((n : ℕ)
            → ReadsBack j c (
                of_item (record {
                  item = record {
                    sequence = n;
                    recorded_at = at;
                    kind = ItemKind.turn;
                    content = of_turn v;
                  };
                  operations = [];
                })))
        → append_turn v at s.head ≡ (ok item, after)
        → Extends
            (append_turn_item v at)
            s
            (of_item (record { item = item; operations = [] }))
            after
    unfolding replay_data append_turn_item is_fork
    turn-Extends v reads e =
        Extends-Made _ s (λ i. i) ItemKind.turn (of_turn v) at [] _ item after timed refl
          (λ _. refl) reads (turn-Makes j at s.head v) refl refl e

    pub response-Extends :
        (v : ModelResponse)
        → ((n : ℕ)
            → ReadsBack j c (
                of_item (record {
                  item = record {
                    sequence = n;
                    recorded_at = at;
                    kind = ItemKind.model_response;
                    content = of_model_response v;
                  };
                  operations = [];
                })))
        → append_model_response v at s.head ≡ (ok item, after)
        → Extends
            (append_model_response_item v at)
            s
            (of_item (record { item = item; operations = [] }))
            after
    unfolding replay_data append_model_response_item is_fork
    response-Extends v reads e =
        Extends-Made _ s (λ i. i) ItemKind.model_response (of_model_response v) at [] _ item after
          timed refl (λ _. refl) reads (response-Makes j at s.head v) refl refl e

    pub status-Extends :
        (v : ToolCallStatus) (ops : List Operation)
        → ((n : ℕ)
            → ReadsBack j c (
                of_item (record {
                  item = record {
                    sequence = n;
                    recorded_at = at;
                    kind = ItemKind.tool_call_status;
                    content = of_tool_call_status v;
                  };
                  operations = ops;
                })))
        → append_tool_call_status j v ops at s.head ≡ (ok item, after)
        → Extends
            (append_tool_call_status_item j v ops at)
            s
            (of_item (record { item = item; operations = ops }))
            after
    unfolding replay_data append_tool_call_status_item is_fork is_status
    status-Extends v ops reads e =
        Extends-Made _ s _ ItemKind.tool_call_status (of_tool_call_status v) at ops _ item after
          timed refl (λ b. absurd (ground arith)) reads (status-Makes j at s.head v ops) refl refl e

  pub operation-Extends :
      (s : StoredState) (v : Operation) (after : SessionHead)
      → ReadsBack j c (of_operation v)
      → save_operation j v s.head ≡ (ok tt, after)
      → Extends (save_operation_item j v) s (of_operation v) after
  unfolding replay_record save_operation_item save_operation
  operation-Extends s v after back e = record {
    next = tt;
    back = back;
    last = record s { head = after };
    method_is = ap (λ x. (x.0, record s { head = x.1 })) e;
    replayed = ap (λ x. refusal (x.0, record s { head = x.1 })) e;
    head_is = refl;
    session = ground arith;
  }
