-- ===== src/SessionStore/Inherit.antt =====
-- What `forkStoredState` of harness/sessionstore/localfile/state.go takes over from the parent.
use heuristic.Prelude.{
  ℕ, suc, ◌+◌, String, ◌≡◌, refl, sym, ap, ◌∙◌, subst, ◌⊎◌, inl, inr, true, ◌&&◌, Option, none,
  some, List, [], ◌∷◌, ◌++◌, map, arith, Bool-cases, Option-cases, nat_eq, string_eq, pair_eq,
  get_elem?, take,
}
use mathlib.Core.List.{append_assoc, append-nil}
use heuristic.Prelude.Exec.{Result-cases, Result, ok, err}
use heuristic.SessionStore.{
  Item, ItemKind, ItemData, Fork, of_fork, of_turn, of_model_response, of_tool_call_status,
}
use heuristic.SessionStore.Head.{StoreError, append_item}
use heuristic.SessionStore.State.{
  belongs, found, is_turn, StoredState, new_stored_state, inherit_data, inherit_item, inherit_items,
  append_fork, append_fork_to, fork_at, find_boundary, fork_stored_state,
}

-- An inherited item: a status leaves behind the operations that its record initialized.
abbrev pub strip_as : Item → ItemKind → ItemData → Item
strip_as i ItemKind.tool_call_status (of_tool_call_status v) = record i {
  content = of_tool_call_status (record v { operations = [] });
}
strip_as i k d = i

abbrev pub strip : Item → Item
strip i = strip_as i i.kind i.content

pub ok-injective : {E A : Type 0} {a b : A} → ◌≡◌ {A = Result E A} (ok a) (ok b) → a ≡ b
ok-injective h = ground arith

inherit_data-items :
    (s : StoredState) (i : Item) (k : ItemKind) (d : ItemData) {s' : StoredState}
    → inherit_data s i k d ≡ ok s'
    → s'.items ≡ s.items ++ strip_as i k d ∷ []
unfolding inherit_data
inherit_data-items s i ItemKind.fork d h = ap (λ x. x.items) (sym (ok-injective h))
inherit_data-items s i ItemKind.input d h = ap (λ x. x.items) (sym (ok-injective h))
inherit_data-items s i (ItemKind.other k) d h = ap (λ x. x.items) (sym (ok-injective h))
inherit_data-items s i ItemKind.turn (of_turn v) h = ap (λ x. x.items) (sym (ok-injective h))
inherit_data-items s i ItemKind.model_response (of_model_response v) h =
    ap (λ x. x.items) (sym (ok-injective h))
inherit_data-items s i ItemKind.tool_call_status (of_tool_call_status v) h =
    ap (λ x. x.items) (sym (ok-injective h))
inherit_data-items s i k d h = absurd (ground arith)

pub inherit_items-items :
    (is : List Item) (s : StoredState) {s' : StoredState}
    → inherit_items is s ≡ ok s'
    → s'.items ≡ s.items ++ map strip is
unfolding inherit_items inherit_item
inherit_items-items [] s h = ap (λ x. x.items) (sym (ok-injective h)) ∙ sym (append-nil s.items)
inherit_items-items (i ∷ is) s h = elim (Result-cases (inherit_item i s)) [
  | inl (e, p) ↦ absurd (let h' = rw (p, inherit_items) at h in ground arith)
  | inr (t, p) ↦
      inherit_items-items is t (rw (p, inherit_items) at h)
      ∙ rw
          (inherit_data-items (record s { head = record s.head { item_sequence = i.sequence } }) i
            i.kind i.content p)
          (append_assoc s.items (strip i ∷ []) (map strip is))
]

-- A state that owns nothing and whose history is `taken`, and after it the fork.
pub record IsFork (value : Fork) (at : ℕ) (taken : List Item) (s : StoredState) : Type 0 where
  pub items :
      s.items
      ≡ taken
        ++ record {
          sequence = s.item_sequence;
          recorded_at = at;
          kind = ItemKind.fork;
          content = of_fork value;
        }
          ∷ []
  pub owned_turns : s.owned_turns ≡ []
  pub responded_turns : s.responded_turns ≡ []
  pub tool_call_statuses : s.tool_call_statuses ≡ []
  pub operations : s.operations ≡ []
  pub operation_positions : s.operation_positions ≡ []

append_fork-IsFork :
    (value : Fork) (at : ℕ) (s : StoredState) → IsFork value at s.items (append_fork value at s)
unfolding append_fork append_item
append_fork-IsFork value at s = record {
  items = refl;
  owned_turns = refl;
  responded_turns = refl;
  tool_call_statuses = refl;
  operations = refl;
  operation_positions = refl;
}

-- The item at an index belongs to the turn.
abbrev pub BelongsAt : String → List Item → ℕ → Type 0
BelongsAt id items m =
    (i : Item) × (get_elem? items m ≡ some i) × (belongs id i.kind i.content ≡ some true)

-- The boundary is the one before, or the index of an item of the turn.
find_boundary-BelongsAt :
    (id : String) (k : ℕ) (before : Option ℕ) (items : List Item) {b : ℕ}
    → find_boundary id k before items ≡ ok (some b)
    → (before ≡ some b) ⊎ ((m : ℕ) × (b ≡ k + m) × BelongsAt id items m)
unfolding find_boundary
find_boundary-BelongsAt id k before [] h = inl (ok-injective h)
find_boundary-BelongsAt id k before (i ∷ is) h =
    elim (Bool-cases (found before && is_turn i.kind)) [
      | inl e ↦ inl (ok-injective (rw (e, find_boundary) at h))
      | inr e ↦ elim (Option-cases (belongs id i.kind i.content)) [
        | inl p ↦ absurd (let h' = rw (e, p, find_boundary) at h in ground arith)
        | inr (x, p) ↦ elim (Bool-cases x) [
          | inl t ↦
              elim (find_boundary-BelongsAt id (k + 1) (some k) is
                (rw (e, p, t, find_boundary) at h)) [
                  | inl q ↦ inr (0, ground arith, (i, refl, p ∙ ap some t))
                  | inr (m, q, there) ↦ inr (suc m, omega arith, there)
                ]
          | inr f ↦
              elim (find_boundary-BelongsAt id (k + 1) before is
                (rw (e, p, f, find_boundary) at h)) [
                  | inl q ↦ inl q
                  | inr (m, q, there) ↦ inr (suc m, omega arith, there)
                ]
        ]
      ]
    ]

fork_at-IsFork :
    (parent : StoredState) (id previous : String) (at : ℕ) (r : Result StoreError (Option ℕ))
    {s : StoredState}
    → fork_at parent id previous at r ≡ ok s
    → (n : ℕ) × (r ≡ ok (some n))
      × IsFork
          (record { parent_id = parent.snapshot.session.id; previous_turn_id = previous })
          at
          (map strip (take (n + 1) parent.items))
          s
unfolding fork_at append_fork_to
fork_at-IsFork parent id previous at (err e) h = absurd (ground arith)
fork_at-IsFork parent id previous at (ok none) h = absurd (ground arith)
fork_at-IsFork parent id previous at (ok (some n)) {s} h =
    let value : Fork = record {
      parent_id = parent.snapshot.session.id;
      previous_turn_id = previous;
    } in
    elim (Result-cases (inherit_items (take (n + 1) parent.items) (new_stored_state id at))) [
      | inl (e, p) ↦ absurd (let h' = rw (p, fork_at) at h in ground arith)
      | inr (t, p) ↦ (
        n,
        refl,
        subst (IsFork value at (map strip (take (n + 1) parent.items)))
            (ok-injective (rw (p, fork_at) at h))
            (subst (λ taken. IsFork value at taken (append_fork value at t))
              (inherit_items-items (take (n + 1) parent.items) (new_stored_state id at) p)
              (append_fork-IsFork value at t)),
      )
    ]

-- A fork that succeeds has as its history the parent's items up to one that belongs to the turn
-- that it is forked at, their statuses without the operations that they initialized, and then the
-- fork item with its own sequence and the parent's ID; it owns no turn, response, status or
-- operation.
pub fork_stored_state-IsFork :
    (parent : StoredState) (id previous : String) (at : ℕ) {s : StoredState}
    → fork_stored_state parent id previous at ≡ ok s
    → (n : ℕ) × BelongsAt previous parent.items n
      × IsFork
          (record { parent_id = parent.snapshot.session.id; previous_turn_id = previous })
          at
          (map strip (take (n + 1) parent.items))
          s
unfolding fork_stored_state
fork_stored_state-IsFork parent id previous at h =
    let (n, found, fork) =
      fork_at-IsFork parent id previous at (find_boundary previous 0 none parent.items) h in
    elim (find_boundary-BelongsAt previous 0 none parent.items found) [
      | inl e ↦ absurd (ground arith)
      | inr (m, e, there) ↦
          (n, subst (BelongsAt previous parent.items) (omega (arith, e)) there, fork)
    ]
