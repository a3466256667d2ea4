-- ===== src/SessionStore/Invariant.antt =====
-- The whole invariant of a stored state, and that replaying records keeps it.
use heuristic.Prelude.{
  ℕ, suc, ◌+◌, ◌<◌, String, ◌≡◌, refl, ◌∙◌, inl, inr, List, [], ◌∷◌, ◌++◌, arith, nat_eq, string_eq,
  pair_eq, length, length-append, All, All-append, contains,
}
use heuristic.Prelude.Exec.{Result, ok, err}
use heuristic.Json.{Json}
use heuristic.Operation.{Operation}
use heuristic.SessionStore.{
  Item, ItemKind, ItemData, of_input, of_turn, of_model_response, of_tool_call_status, Fits,
  IsTyped,
}
use heuristic.SessionStore.Head.{SessionHead, StoreError, save_operation, sequence_mod}
use heuristic.SessionStore.State.{
  StoredState, new_stored_state, recorded, append_input_item, append_turn_item,
  append_model_response_item, append_tool_call_status_item,
}
use heuristic.SessionStore.Replay.{
  refusal, replay_data, DecodedRecord, of_item, of_operation, replay_record, replay_item,
  save_operation_item,
}
use heuristic.SessionStore.Positions.{save-HasOperations, save_outcomes, IsIndexed-nil}
use heuristic.SessionStore.Consistent.{
  IsConsistent, Accepts, refuses, accepts, input-Accepts, turn-Accepts, response-Accepts,
  status-Accepts,
}

-- The items carry the sequences k + 1, k + 2, …
abbrev pub Numbered : ℕ → List Item → Type 0
Numbered k [] = Unit
Numbered k (i ∷ is) = (i.sequence ≡ suc k) × Numbered (suc k) is

Numbered-append :
    (k : ℕ) (xs : List Item) (i : Item)
    → Numbered k xs
    → i.sequence ≡ suc (k + length xs)
    → Numbered k (xs ++ i ∷ [])
Numbered-append k [] i h e = (e ∙ omega arith, tt)
Numbered-append k (x ∷ xs) i h e = (h.0, Numbered-append (suc k) xs i h.1 (e ∙ omega arith))

pub record IsWellFormed (j : Json) (s : StoredState) : Type 0 where
  pub consistent : IsConsistent j s.head
  pub counted : s.item_sequence ≡ length s.items
  pub numbered : Numbered 0 s.items
  pub typed : All IsTyped s.items

-- Room for one more item before the uint64 sequence would wrap.
abbrev pub HasRoom : StoredState → Type 0
HasRoom s = length s.items + 1 < sequence_mod

recorded-IsWellFormed :
    {j : Json} (s : StoredState) (f : Item → Item) {kind : ItemKind} {content : ItemData}
    {m : Result StoreError Item × SessionHead}
    → IsWellFormed j s
    → HasRoom s
    → ((i : Item)
        → i.kind ≡ kind
        → i.content ≡ content
        → IsTyped (f i) × ((f i).sequence ≡ i.sequence))
    → Accepts j s.head kind content m
    → IsWellFormed j (recorded s f m).1
unfolding recorded
recorded-IsWellFormed s f w room keep (refuses e) = w
recorded-IsWellFormed s f w room keep (accepts item after a) =
    let (typed, same) = keep item a.kind_is a.content_is in
    let next : after.item_sequence ≡ suc (length s.items) = omega (arith, a.next, w.counted) in
    record {
      consistent = a.consistent;
      counted = next ∙ omega (arith, length-append s.items (f item ∷ []));
      numbered = Numbered-append 0 s.items (f item) w.numbered (same ∙ a.same ∙ next ∙ omega arith);
      typed = All-append IsTyped s.items _ w.typed (typed, tt);
    }

typed_as : {k k' : ItemKind} {d d' : ItemData} → k ≡ k' → d ≡ d' → Fits k' d' → Fits k d
typed_as p q h = rw (p, q) h

saved-IsWellFormed :
    (j : Json) (v : Operation) (s : StoredState)
    → IsWellFormed j s
    → IsWellFormed j (record s { head = (save_operation j v s.head).1 })
saved-IsWellFormed j v s w =
    let c = w.consistent in
    record {
      consistent = elim (save_outcomes j v s.head c.operations) [
        | inl (e, _, r) ↦ rw r c
        | inr (i, x, _, _, _, _, _, r) ↦
            let kept = save-HasOperations j v s.head c.operations in
            rw r (record {
              operations = rw r at kept;
              owned_known = c.owned_known;
              responded_owned = c.responded_owned;
              statuses_owned = c.statuses_owned;
              latest_known = c.latest_known;
            })
      ];
      counted = elim (save_outcomes j v s.head c.operations) [
        | inl (e, _, r) ↦ rw r w.counted
        | inr (i, x, _, _, _, _, _, r) ↦ rw r w.counted
      ];
      numbered = w.numbered;
      typed = w.typed;
    }

pub refusal-state : (r : Result StoreError (Unit {0}) × StoredState) → (refusal r).1 ≡ r.1
refusal-state (ok u, s) = refl
refusal-state (err e, s) = refl

module _ (j : Json) (operations : List Operation) (at : ℕ) (s : StoredState) (w : IsWellFormed j s)
    (room : HasRoom s) where
  data-IsWellFormed :
      (k : ItemKind) (d : ItemData) → IsWellFormed j (replay_data j operations at k d s).1
  unfolding replay_data append_input_item append_turn_item append_model_response_item
      append_tool_call_status_item
  data-IsWellFormed ItemKind.input (of_input v) = rw (refusal-state (append_input_item j v at s)) (
      recorded-IsWellFormed s (λ i. i) w room (λ i k d. (typed_as k d tt, refl))
        (input-Accepts j at s.head w.consistent v))
  data-IsWellFormed ItemKind.input _ = w
  data-IsWellFormed ItemKind.turn (of_turn v) = rw (refusal-state (append_turn_item v at s)) (
      recorded-IsWellFormed s (λ i. i) w room (λ i k d. (typed_as k d tt, refl))
        (turn-Accepts j at s.head w.consistent v))
  data-IsWellFormed ItemKind.turn _ = w
  data-IsWellFormed ItemKind.model_response (of_model_response v) =
      rw (refusal-state (append_model_response_item v at s)) (
        recorded-IsWellFormed s (λ i. i) w room (λ i k d. (typed_as k d tt, refl))
          (response-Accepts j at s.head w.consistent v))
  data-IsWellFormed ItemKind.model_response _ = w
  data-IsWellFormed ItemKind.tool_call_status (of_tool_call_status v) =
      rw (refusal-state (append_tool_call_status_item j v operations at s)) (
        recorded-IsWellFormed s _ w room (λ i k d. (typed_as k refl tt, refl))
          (status-Accepts j at s.head w.consistent v operations))
  data-IsWellFormed ItemKind.tool_call_status _ = w
  data-IsWellFormed _ d = w

-- Every record of owned history, accepted or refused, keeps the state well-formed, while there is
-- room for one more item below the limit of the uint64 sequence: operations valid and indexed by
-- ID, owned turns, responses and statuses known, items numbered from 1 with the data of their kind.
pub replay_record-IsWellFormed :
    (j : Json) (r : DecodedRecord) (s : StoredState)
    → IsWellFormed j s
    → HasRoom s
    → IsWellFormed j (replay_record j r s).1
unfolding replay_record replay_item save_operation_item
replay_record-IsWellFormed j (of_item r) s w room =
    data-IsWellFormed j r.operations r.item.recorded_at s w room r.item.kind r.item.content
replay_record-IsWellFormed j (of_operation v) s w room =
    rw (refusal-state (save_operation_item j v s)) (saved-IsWellFormed j v s w)

pub new_stored_state-IsWellFormed :
    (j : Json) (id : String) (at : ℕ) → IsWellFormed j (new_stored_state id at)
unfolding contains
new_stored_state-IsWellFormed j id at = record {
  consistent = record {
    operations = record { indexed = IsIndexed-nil; valid = tt };
    owned_known = λ a h. h;
    responded_owned = λ a h. h;
    statuses_owned = λ t c h. ground arith;
    latest_known = inl refl;
  };
  counted = refl;
  numbered = tt;
  typed = tt;
}
