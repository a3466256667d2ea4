-- ===== src/SessionStore/Positions.antt =====
-- The invariant of a session's state, kept by every record: items are numbered from 1 and carry the
-- data of their kind, the operations are valid and found at their recorded positions, and turns,
-- responses and statuses refer to one another.
use heuristic.Prelude.{
  ℕ, String, ◌≡◌, sym, ap, ◌∙◌, subst, ◌≢◌, ◌⊎◌, inl, inr, false, ◌&&◌, none, some, List, [], ◌∷◌,
  ◌++◌, arith, Bool-cases, Option-cases, ◌==◌, nat_eq, string_eq, pair_eq, length, get_elem?, set,
  get_elem?-append_left, get_elem?-append_last, get_elem?-lt, get_elem?-set_self, get_elem?-set_ne,
  All, All-append, All-set, contains, contains-cons, get_elem?-append_cases, get_elem?-set_cases,
}
use mathlib.Core.List.{append-nil, append_assoc}
use heuristic.Prelude.Map
use heuristic.Prelude.Map.{lookup-insert}
use heuristic.Prelude.Exec.{Result, ok, err}
use heuristic.Json.{Json}
use heuristic.Operation.{Operation}
use heuristic.SessionStore.Head.{
  SessionHead, StoreError, validate_operation, check_operations, initialize_operations,
  save_operation, panicked, operation_missing, changed_type_or_version,
}

-- `operationPositions` is the index of `Operations`: each ID stands where it says, and each
-- operation is found there.
pub record IsIndexed (operations : List Operation) (positions : List (String × ℕ)) : Type 0 where
  pub stands :
      (id : String) (i : ℕ)
      → Map.lookup id positions ≡ some i
      → (v : Operation) × (get_elem? operations i ≡ some v) × (v.id ≡ id)
  pub found :
      (i : ℕ) (v : Operation) → get_elem? operations i ≡ some v → Map.lookup v.id positions ≡ some i

pub IsIndexed-nil : IsIndexed [] []
IsIndexed-nil = record {
  stands = λ id i h. absurd (ground (arith, Map.lookup-nil {V = ℕ} id));
  found = λ i v h. ground arith;
}

-- An operation with a new ID at the end.
append-IsIndexed :
    (ops : List Operation) (ps : List (String × ℕ)) (v : Operation)
    → IsIndexed ops ps
    → Map.lookup v.id ps ≡ none
    → IsIndexed (ops ++ v ∷ []) (Map.insert v.id (length ops) ps)
append-IsIndexed ops ps v h fresh = record {
  stands = λ id i p. elim (Bool-cases (v.id == id)) [
    | inl same ↦
        let last : length ops ≡ i = ground (arith, lookup-insert v.id id (length ops) ps) in
        (
          v,
          subst (λ n. get_elem? (ops ++ v ∷ []) n ≡ some v) last (get_elem?-append_last ops v),
          (string_eq.same_iff v.id id).0 same,
        )
    | inr other ↦
        let (w, at, e) = h.stands id i (ground (arith, lookup-insert v.id id (length ops) ps)) in
        (w, get_elem?-append_left ops (v ∷ []) i (get_elem?-lt ops i at) ∙ at, e)
  ];
  found = λ i w p. elim (get_elem?-append_cases ops v i w p) [
    | inl old ↦ ground (
      arith,
      lookup-insert v.id w.id (length ops) ps,
      h.found i w old,
      string_eq.same_iff v.id w.id,
    )
    | inr (last, new) ↦
        ground (arith, lookup-insert v.id w.id (length ops) ps, string_eq.same_iff v.id w.id)
  ];
}

set-IsIndexed :
    (ops : List Operation) (ps : List (String × ℕ)) (v : Operation) (i : ℕ)
    → IsIndexed ops ps
    → Map.lookup v.id ps ≡ some i
    → IsIndexed (set ops i v) ps
set-IsIndexed ops ps v i h at = record {
  stands = λ id k p. elim (Bool-cases (v.id == id)) [
    | inl same ↦
        let e : v.id ≡ id = (string_eq.same_iff v.id id).0 same in
        let here : i ≡ k = ground (arith, ap (λ a. Map.lookup a ps) e) in
        let (w, there, _) = h.stands v.id i at in
        (
          v,
          subst (λ n. get_elem? (set ops i v) n ≡ some v) here
              (get_elem?-set_self ops i v (get_elem?-lt ops i there)),
          e,
        )
    | inr other ↦
        let (w, there, e) = h.stands id k p in
        let (w', there', e') = h.stands v.id i at in
        (
          w,
          get_elem?-set_ne ops i k v (λ (same : i ≡ k).
                ground (arith, string_eq.same_iff v.id id, ap (λ n. get_elem? ops n) same))
              ∙ there,
          e,
        )
  ];
  found = λ k w p. elim (get_elem?-set_cases ops i v k w p) [
    | inl (here, same) ↦ ground (arith)
    | inr (there, old) ↦ h.found k w old
  ];
}

abbrev pub IsValidOperation : Json → Operation → Type 0
IsValidOperation j v = validate_operation j v ≡ none

-- What a passed check says of the first operation and of the rest.
check_operations_inv :
    (j : Json) (ps : List (String × ℕ)) (seen : List String) (v : Operation) (rest : List Operation)
    → check_operations j ps seen (v ∷ rest) ≡ none
    → IsValidOperation j v
      × (contains seen v.id ≡ false)
      × (Map.lookup v.id ps ≡ none)
      × (check_operations j ps (v.id ∷ seen) rest ≡ none)
unfolding check_operations
check_operations_inv j ps seen v rest h = ground arith

initialize-IsIndexed :
    (j : Json) (ps : List (String × ℕ)) (seen : List String) (ops : List Operation)
    (head : SessionHead)
    → check_operations j ps seen ops ≡ none
    → ((id : String)
        → contains seen id ≡ false
        → Map.lookup id ps ≡ none
        → Map.lookup id head.operation_positions ≡ none)
    → IsIndexed head.operations head.operation_positions
    → IsIndexed
        (initialize_operations ops head).operations
        (initialize_operations ops head).operation_positions
unfolding initialize_operations
initialize-IsIndexed j ps seen [] head h fresh x = x
initialize-IsIndexed j ps seen (v ∷ rest) head h fresh x =
    let (valid, new, unknown, later) = check_operations_inv j ps seen v rest h in
    initialize-IsIndexed j ps (v.id ∷ seen) rest _ later
      (λ id n u. ground (
        arith,
        contains-cons v.id seen id,
        lookup-insert v.id id (length head.operations) head.operation_positions,
        fresh id,
      ))
      (append-IsIndexed head.operations head.operation_positions v x (fresh v.id new unknown))

-- The operations of a first status are appended in order.
pub operations-initialize :
    (ops : List Operation) (head : SessionHead)
    → (initialize_operations ops head).operations ≡ head.operations ++ ops
unfolding initialize_operations
operations-initialize [] head = sym (append-nil _)
operations-initialize (v ∷ rest) head =
    operations-initialize rest _ ∙ append_assoc head.operations (v ∷ []) rest

check_operations-All :
    (j : Json) (ps : List (String × ℕ)) (seen : List String) (ops : List Operation)
    → check_operations j ps seen ops ≡ none
    → All (IsValidOperation j) ops
check_operations-All j ps seen [] h = tt
check_operations-All j ps seen (v ∷ rest) h =
    let (valid, new, unknown, later) = check_operations_inv j ps seen v rest h in
    (valid, check_operations-All j ps (v.id ∷ seen) rest later)

-- The part of the invariant that concerns the operations.
pub record HasOperations (j : Json) (head : SessionHead) : Type 0 where
  pub indexed : IsIndexed head.operations head.operation_positions
  pub valid : All (IsValidOperation j) head.operations

pub initialize-HasOperations :
    (j : Json) (ops : List Operation) (head : SessionHead)
    → check_operations j head.operation_positions [] ops ≡ none
    → HasOperations j head
    → HasOperations j (initialize_operations ops head)
initialize-HasOperations j ops head h x = record {
  indexed = initialize-IsIndexed j head.operation_positions [] ops head h (λ id n u. u) x.indexed;
  valid = rw (operations-initialize ops head) (
      All-append (IsValidOperation j) head.operations ops x.valid
        (check_operations-All j head.operation_positions [] ops h));
}

validate_operation-ne-panicked : (j : Json) (v : Operation) → validate_operation j v ≢ some panicked
unfolding validate_operation
validate_operation-ne-panicked j v h = ground arith

-- The two outcomes of a save, on a state whose operations are indexed.
abbrev pub Saved :
    Json → Operation → SessionHead → Result StoreError (Unit {0}) × SessionHead → Type 0
Saved j v head r =
    ((e : StoreError) × (e ≢ panicked) × (r ≡ (err e, head)))
    ⊎ ((i : ℕ) × (w : Operation) × (Map.lookup v.id head.operation_positions ≡ some i)
        × (get_elem? head.operations i ≡ some w)
        × (w.type ≡ v.type)
        × (w.version ≡ v.version)
        × IsValidOperation j v
        × (r ≡ (ok tt, record head { operations = set head.operations i v })))

-- Saving an operation on a head whose operations are valid and indexed either fails, not with a
-- panic, and changes nothing, or replaces the operation at the index of the ID, which has the same
-- type and version, and changes nothing else.
pub save_outcomes :
    (j : Json) (v : Operation) (head : SessionHead)
    → HasOperations j head
    → Saved j v head (save_operation j v head)
unfolding save_operation
save_outcomes j v head x = elim (Option-cases (validate_operation j v)) [
  | inr (e, bad) ↦
      inl (e, λ same. validate_operation-ne-panicked j v (bad ∙ ap some same), ground arith)
  | inl good ↦ elim (Option-cases (Map.lookup v.id head.operation_positions)) [
    | inl missing ↦ inl (operation_missing, λ same. ground arith, ground arith)
    | inr (i, at) ↦
        let (w, there, _) = x.indexed.stands v.id i at in
        elim (Bool-cases (w.type == v.type && w.version == v.version)) [
          | inl same ↦ inr (
            i,
            w,
            at,
            there,
            ground (arith, string_eq.same_iff w.type v.type),
            ground arith,
            good,
            ground arith,
          )
          | inr other ↦ inl (changed_type_or_version, λ same. ground arith, ground arith)
        ]
  ]
]

pub save-HasOperations :
    (j : Json) (v : Operation) (head : SessionHead)
    → HasOperations j head
    → HasOperations j (save_operation j v head).1
save-HasOperations j v head x = elim (save_outcomes j v head x) [
  | inl (e, _, r) ↦ rw r x
  | inr (i, w, at, there, _, _, good, r) ↦ rw r (record {
    indexed = set-IsIndexed head.operations head.operation_positions v i x.indexed at;
    valid = All-set (IsValidOperation j) head.operations i v good x.valid;
  })
]
