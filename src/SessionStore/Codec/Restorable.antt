-- ===== src/SessionStore/Codec/Restorable.antt =====
-- The states that `publishInitialState` writes, new sessions and forks: a log holds all of each.
use heuristic.Prelude.{
  ℕ, ◌+◌, ◌%◌, ◌≤◌, String, ◌≡◌, refl, sym, ap, ◌∙◌, subst, ◌≢◌, inl, inr, true, Option, none, some,
  List, [], ◌∷◌, ◌++◌, map, arith, nat_eq, string_eq, pair_eq, length, take, All, All-append,
}
use heuristic.Prelude.Exec.{Result, ok, err, Result-cases}
use heuristic.Json.{Json}
use heuristic.SessionStore.{
  Item, ItemKind, ItemData, of_fork, of_turn, of_model_response, of_tool_call_status, Fork,
}
use heuristic.SessionStore.Head.{sequence_mod, StoreError, append_item}
use heuristic.SessionStore.State.{
  StoredState, inherit_item, inherit_items, inherit_data, new_stored_state, append_fork,
  append_fork_to, fork_at, find_boundary, fork_stored_state,
}
use heuristic.SessionStore.Inherit.{strip, strip_as, ok-injective, inherit_items-items}
use heuristic.Prelude.Bytes.{Bytes}
use heuristic.SessionStore.Codec.{LogCodec, encode_initial_log}
use heuristic.SessionStore.Codec.Reader.{is_fork, decode_log}
use heuristic.SessionStore.Codec.Laws.{IsLogCodec, ReadsBack}
use heuristic.SessionStore.Codec.Initial.{IsBare, bare, last_fork}
use heuristic.SessionStore.Replay.{of_item}
use heuristic.SessionStore.Codec.Restored.{AllInherited, decode_log-encode_initial_log}

module _ (j : Json) (c : LogCodec) where
  -- What `decodeLog` needs in order to restore the state from its items.
  pub record IsRestorable (t : StoredState) : Type 0 where
    pub timed : t.snapshot.session.created_at ≢ 0
    pub plain : All (λ (i : Item). IsBare i.kind i.content) t.items
    pub owned : AllInherited j c t.items
    pub state :
        inherit_items t.items (new_stored_state t.snapshot.session.id t.snapshot.session.created_at)
        ≡ ok t

  pub new_stored_state-IsRestorable :
      (id : String) (at : ℕ) → at ≢ 0 → IsRestorable (new_stored_state id at)
  unfolding inherit_items
  new_stored_state-IsRestorable id at h = record {
    timed = h;
    plain = tt;
    owned = omega arith;
    state = refl;
  }

  last_fork-append :
      (items : List Item) (item : Item) (n k : ℕ)
      → is_fork j c item.kind ≡ true
      → n + length (items ++ item ∷ []) ≤ last_fork j c n k (items ++ item ∷ [])
  last_fork-append [] item n k h = rw h (omega arith)
  last_fork-append (i ∷ items) item n k h = omega (arith, last_fork-append items item (n + 1) _ h)

bare_lem :
    (n at : ℕ) (k : ItemKind) (d : ItemData)
    → IsBare
        (strip_as (record { sequence = n; recorded_at = at; kind = k; content = d }) k d).kind
        (strip_as (record { sequence = n; recorded_at = at; kind = k; content = d }) k d).content
bare_lem n at ItemKind.tool_call_status (of_tool_call_status v) = refl
bare_lem n at k d = tt

All-IsBare-strip :
    (items : List Item) → All (λ (i : Item). IsBare i.kind i.content) (map strip items)
All-IsBare-strip [] = tt
All-IsBare-strip (i ∷ items) =
    (bare_lem i.sequence i.recorded_at i.kind i.content, All-IsBare-strip items)

strip_data_lem :
    (n at : ℕ) (k : ItemKind) (d : ItemData) (s : StoredState)
    → inherit_item
        (strip_as (record { sequence = n; recorded_at = at; kind = k; content = d }) k d)
        s
      ≡ inherit_item (record { sequence = n; recorded_at = at; kind = k; content = d }) s
unfolding inherit_item inherit_data
strip_data_lem n at ItemKind.tool_call_status (of_tool_call_status v) s = refl
strip_data_lem n at k d s = refl

inherit_items-strip :
    (items : List Item) (s : StoredState)
    → inherit_items (map strip items) s ≡ inherit_items items s
unfolding inherit_items
inherit_items-strip [] s = refl
inherit_items-strip (i ∷ items) s =
    let same = strip_data_lem i.sequence i.recorded_at i.kind i.content s in
    elim (Result-cases (inherit_item i s)) [
      | inl (e, p) ↦ rw (same, p, inherit_items) refl
      | inr (t, p) ↦ rw (same, p, inherit_items) (inherit_items-strip items t)
    ]

inherit_items-append :
    (xs ys : List Item) (s t : StoredState)
    → inherit_items xs s ≡ ok t
    → inherit_items (xs ++ ys) s ≡ inherit_items ys t
unfolding inherit_items
inherit_items-append [] ys s t e = ap (inherit_items ys) (ok-injective e)
inherit_items-append (i ∷ xs) ys s t e = elim (Result-cases (inherit_item i s)) [
  | inl (x, p) ↦ absurd (let q = rw (p, inherit_items) at e in ground arith)
  | inr (u, p) ↦ rw (p, inherit_items) (inherit_items-append xs ys u t (rw (p, inherit_items) at e))
]

inherit_data-snapshot :
    (i : Item) (k : ItemKind) (d : ItemData) (s t : StoredState)
    → inherit_data s i k d ≡ ok t
    → t.snapshot ≡ s.snapshot
unfolding inherit_data
inherit_data-snapshot i ItemKind.turn (of_turn v) s t e = ground arith
inherit_data-snapshot i ItemKind.model_response (of_model_response v) s t e = ground arith
inherit_data-snapshot i ItemKind.tool_call_status (of_tool_call_status v) s t e = ground arith
inherit_data-snapshot i ItemKind.fork d s t e = ground arith
inherit_data-snapshot i ItemKind.input d s t e = ground arith
inherit_data-snapshot i (ItemKind.other k) d s t e = ground arith
inherit_data-snapshot i k d s t e = absurd (ground arith)

inherit_items-snapshot :
    (items : List Item) (s t : StoredState) → inherit_items items s ≡ ok t → t.snapshot ≡ s.snapshot
unfolding inherit_items inherit_item
inherit_items-snapshot [] s t e = ap (λ (x : StoredState). x.snapshot) (sym (ok-injective e))
inherit_items-snapshot (i ∷ items) s t e = elim (Result-cases (inherit_item i s)) [
  | inl (x, p) ↦ absurd (let q = rw (p, inherit_items) at e in ground arith)
  | inr (u, p) ↦
      inherit_items-snapshot items u t (rw (p, inherit_items) at e)
      ∙ inherit_data-snapshot i i.kind i.content _ u p
]

-- A fork that succeeds: the inherited items, and the fork item after them.
record Forked (id : String) (at : ℕ) (s : StoredState) : Type 0 where
  pub taken : List Item
  pub before : StoredState
  pub value : Fork
  pub inherited : inherit_items taken (new_stored_state id at) ≡ ok before
  pub whole : append_fork value at before ≡ s

fork_at-Forked :
    (parent : StoredState) (id previous : String) (at : ℕ) (r : Result StoreError (Option ℕ))
    (s : StoredState)
    → fork_at parent id previous at r ≡ ok s
    → Forked id at s
unfolding fork_at append_fork_to
fork_at-Forked parent id previous at (err e) s h = absurd (ground arith)
fork_at-Forked parent id previous at (ok none) s h = absurd (ground arith)
fork_at-Forked parent id previous at (ok (some n)) s h =
    elim (Result-cases (inherit_items (take (n + 1) parent.items) (new_stored_state id at))) [
      | inl (e, p) ↦ absurd (let q = rw (p, fork_at) at h in ground arith)
      | inr (t, p) ↦ record {
        taken = take (n + 1) parent.items;
        before = t;
        value = record { parent_id = parent.snapshot.session.id; previous_turn_id = previous };
        inherited = p;
        whole = ok-injective (rw (p, fork_at) at h);
      }
    ]

module _ (j : Json) (c : LogCodec) where
  append_fork-IsRestorable :
      (id : String) (at : ℕ) (taken : List Item) (t : StoredState) (value : Fork)
      → at ≢ 0
      → inherit_items taken (new_stored_state id at) ≡ ok t
      → IsRestorable j c (append_fork value at t)
  unfolding append_fork append_item inherit_items inherit_item inherit_data is_fork
  append_fork-IsRestorable id at taken t value timed e =
      let item : Item = record {
        sequence = (t.item_sequence + 1) % sequence_mod;
        recorded_at = at;
        kind = ItemKind.fork;
        content = of_fork value;
      } in
      let kept : t.snapshot ≡ record { session = record { id = id; created_at = at } } =
        inherit_items-snapshot taken (new_stored_state id at) t e in
      let items : t.items ≡ map strip taken =
        inherit_items-items taken (new_stored_state id at) e in
      record {
        timed = λ z. timed (sym (ap (λ k. k.session.created_at) kept) ∙ z);
        plain =
            subst (λ is. All (λ (i : Item). IsBare i.kind i.content) (is ++ item ∷ [])) (sym items)
              (All-append (λ (i : Item). IsBare i.kind i.content) (map strip taken) (item ∷ [])
                (All-IsBare-strip taken) (tt, tt));
        owned = omega (arith, last_fork-append j c t.items item 0 0 refl);
        state =
            ap
              (λ k.
                inherit_items (t.items ++ item ∷ [])
                  (new_stored_state k.session.id k.session.created_at))
              kept
            ∙ ap (λ is. inherit_items (is ++ item ∷ []) (new_stored_state id at)) items
            ∙ inherit_items-append (map strip taken) (item ∷ []) (new_stored_state id at) t
                (inherit_items-strip taken (new_stored_state id at) ∙ e)
            ∙ refl;
      }

  -- A fork is restored by its log.
  pub fork_stored_state-IsRestorable :
      (parent : StoredState) (id previous : String) (at : ℕ) (s : StoredState)
      → at ≢ 0
      → fork_stored_state parent id previous at ≡ ok s
      → IsRestorable j c s × (s.snapshot.session.id ≡ id)
  unfolding fork_stored_state append_fork append_item
  fork_stored_state-IsRestorable parent id previous at s timed h =
      let f =
        fork_at-Forked parent id previous at (find_boundary previous 0 none parent.items) s h in
      (
        subst (IsRestorable j c) f.whole
            (append_fork-IsRestorable id at f.taken f.before f.value timed f.inherited),
        sym (ap (λ (x : StoredState). x.snapshot.session.id) f.whole)
            ∙ ap (λ k. k.session.id)
                (inherit_items-snapshot f.taken (new_stored_state id at) f.before f.inherited),
      )

  -- Where encoding/json reads back the header of a session and the lines that it makes, and reads
  -- back each item of a fork as it was written, which it does of no raw JSON with white space, the
  -- fork, made at a time that is not zero and encoded by `encodeInitialLog`, decodes to the very
  -- same state, with the whole text committed.
  pub encode_initial_log-fork_stored_state :
      (parent : StoredState) (id previous : String) (at : ℕ) (t : StoredState) (text : Bytes)
      → IsLogCodec j c
      → at ≢ 0
      → fork_stored_state parent id previous at ≡ ok t
      → All (λ (i : Item). ReadsBack j c (of_item (bare i))) t.items
      → encode_initial_log j c t.snapshot.session t.items ≡ some text
      → decode_log j c text ≡ ok (t, length text)
  encode_initial_log-fork_stored_state parent id previous at t text laws timed made back e =
      let (h, same) = fork_stored_state-IsRestorable parent id previous at t timed made in
      decode_log-encode_initial_log j c laws t.snapshot.session t.items t text h.timed h.plain
        h.owned back h.state e
