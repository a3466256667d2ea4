-- ===== src/Operation/ViewImage/Laws.antt =====
-- The machine of an image keeps the laws of the local manager.
use heuristic.Prelude.{
  ◌≡◌, refl, sym, ap, ◌∙◌, subst, ◌⊎◌, inl, inr, true, false, Option, none, some, [], arith,
  Bool-cases, Option-cases, nat_eq, string_eq, pair_eq,
}
use heuristic.Prelude.Bytes.{Bytes}
use heuristic.Prelude.Exec.{ok, Result-cases}
use heuristic.Llm.{bytes}
use heuristic.Primitive.{PrimitiveEvent, EventType, failure, ViewImageResult}
use heuristic.Operation.{Operation, is_terminal, awaiting, failed}
use heuristic.Operation.Machine.{IsMachine, Ends, Ends-next, failed_start}
use heuristic.Operation.Step.{Step, OperationError, encoded, error_text, wrapped}
use heuristic.Operation.ViewImage.{
  ViewImageState, Library, ViewImage, validate_view_image_state, decode_view_image_state,
  new_view_image, checkpoint, finish, error_result, fail, failed_event, typed_event, is_failure,
  handle_event, active_event, unresolved, handle_from, handle, step_of, fail_view_image,
  view_image_machine,
}
use heuristic.Operation.ViewImage.Kept.{RunsView, IsCheckpoint, Stays, handle-Stays}

pair_lem : {A B : Type 0} (r : A × B) (a : A) → r.0 ≡ a → r ≡ (a, r.1)
pair_lem r a e = ap (λ x. (x, r.1)) e

module _ (l : Library) (v : Operation) where
  decoded_lem :
      (state : ViewImageState)
      → decode_view_image_state l v ≡ ok state
      → (v.type ≡ "view_image")
        × (v.version ≡ 1)
        × (l.codec.decode (bytes v.state) ≡ some state)
        × (validate_view_image_state state ≡ true)
  unfolding decode_view_image_state
  decoded_lem state e = elim (Option-cases (l.codec.decode (bytes v.state))) [
    | inl q ↦ absurd (ground arith)
    | inr (s, q) ↦
        let i : s ≡ state = ground arith in
        (
          ground (arith, string_eq.same_iff v.type "view_image"),
          ground (arith, nat_eq.same_iff v.version 1),
          q ∙ ap some i,
          ground arith,
        )
  ]

  new_view_image-Runs : (s : ViewImage) → new_view_image l v ≡ ok s → RunsView l v s
  unfolding RunsView new_view_image
  new_view_image-Runs s p = elim (Result-cases (decode_view_image_state l v)) [
    | inl (e, q) ↦ absurd (ground arith)
    | inr (state, q) ↦
        let (t, n, d, h) = decoded_lem state q in
        let made : ViewImage = record {
          current = record v { state = none };
          state = state;
          chunks = [];
          read_size = 0;
          processing = false;
        } in
        let i : made ≡ s = ground arith in subst (RunsView l v) i (refl, refl, t, n, h)
  ]

  finish-Ends :
      (r : ViewImageResult) (s s' : ViewImage) (step : Step)
      → s.current.id ≡ v.id
      → finish l r failed s ≡ (ok step, s')
      → Ends v step
  unfolding finish checkpoint encoded is_terminal
  finish-Ends r s s' step i p =
      elim (Option-cases (l.codec.encode (record s.state { result = some r }))) [
        | inl e ↦ absurd (ground arith)
        | inr (text, e) ↦ record {
          next = record s.current { status = failed; state = some text };
          checkpoint = ground arith;
          id = i;
          terminal = refl;
        }
      ]

  rejected-Ends :
      (text : Bytes) (s s' : ViewImage) (step : Step)
      → s.current.id ≡ v.id
      → typed_event l true EventType.failed (failure text) s ≡ (ok step, s')
      → Ends v step
  unfolding typed_event failed_event fail
  rejected-Ends text s s' step i p =
      let r = error_result l (error_text l.format (wrapped "image primitive failed: " text)) in
      elim (Bool-cases s.processing) [
        | inl b ↦ finish-Ends r s s' step i (ground arith)
        | inr b ↦ finish-Ends r s s' step i (ground arith)
      ]

  -- `failViewImage` ends the operation, where it returns.
  fail_view_image-Ends :
      (e : OperationError) (next : Operation)
      → fail_view_image l v e ≡ some next
      → (next.id ≡ v.id) × (is_terminal next.status ≡ true)
  unfolding fail_view_image step_of fail RunsView
  fail_view_image-Ends e next p = elim (Result-cases (new_view_image l v)) [
    | inl (x, q) ↦ absurd (let r = rw (q, fail_view_image) at p in ground arith)
    | inr (s, q) ↦
        let i : s.current.id ≡ v.id = (new_view_image-Runs s q).0 in
        let r : step_of l (fail l e s).0 ≡ some next = rw (q, fail_view_image) at p in
        elim (Result-cases (fail l e s).0) [
          | inl (x, g) ↦ absurd (let t = rw (g, step_of) at r in ground arith)
          | inr (step, g) ↦
              Ends-next v step next
                (finish-Ends (error_result l (error_text l.format e)) s _ step i
                  (pair_lem (fail l e s) (ok step) g))
                (rw (g, step_of) at r)
        ]
  ]

  -- A dispatch that could not be started ends the operation.
  unstarted-Ends :
      (text : Bytes) (s s' : ViewImage) (step : Step)
      → s.current.id ≡ v.id
      → s.current.status ≡ awaiting
      → s.state.result ≡ none
      → handle l s (some (failed_start v text)) ≡ (ok step, s')
      → Ends v step
  unfolding handle handle_from unresolved active_event handle_event is_failure
  unstarted-Ends text s s' step i a r p =
      let q : handle_from l awaiting (some (failed_start v text)) s ≡ (ok step, s') =
        subst (λ t. handle_from l t (some (failed_start v text)) s ≡ (ok step, s')) a p in
      let w : unresolved l awaiting (some (failed_start v text)) none s ≡ (ok step, s') =
        subst (λ t. unresolved l awaiting (some (failed_start v text)) t s ≡ (ok step, s')) r q in
      rejected-Ends text s s' step i (ground (arith, string_eq.same_iff v.id s.current.id))

module _ (l : Library) where
  Owned : ViewImage → Operation → Type 0
  Owned s v = RunsView l v s

  Awaits : ViewImage → Operation → Type 0
  Awaits s v = Owned s v × (s.current.status ≡ awaiting) × (s.state.result ≡ none)

  stays_lem :
      (s s' : ViewImage) (v : Operation) (e : Option PrimitiveEvent) (step : Step)
      → Owned s v
      → handle l s e ≡ (ok step, s')
      → Stays l v (ok step, s')
  unfolding Owned
  stays_lem s s' v e step h p = subst (Stays l v) p (handle-Stays l v e s h)

  kept_lem :
      (s s' : ViewImage) (v : Operation) (e : Option PrimitiveEvent) (step : Step)
      → Owned s v
      → handle l s e ≡ (ok step, s')
      → step.operation ≡ none
      → Owned s' v × ((step.dispatches ≡ []) ⊎ Awaits s' v)
  unfolding Owned Awaits
  kept_lem s s' v e step h p q =
      let (i, d, c) = stays_lem s s' v e step h p in
      (i, elim d [ inl x ↦ inl x | inr x ↦ inr (i, x.0, x.1) ])

  advanced_lem :
      (s s' : ViewImage) (v next : Operation) (e : Option PrimitiveEvent) (step : Step)
      → Owned s v
      → handle l s e ≡ (ok step, s')
      → step.operation ≡ some next
      → (next.id ≡ v.id)
        × (next.type ≡ v.type)
        × Owned s' next
        × ((step.dispatches ≡ []) ⊎ Awaits s' next)
  unfolding Owned Awaits RunsView
  advanced_lem s s' v next e step h p q =
      let ((i, t, k, n, w), d, c) = stays_lem s s' v e step h p in
      let (ci, ct) = subst (IsCheckpoint l v s') q c in
      let o : Owned s' next = (sym ci, sym ct, k, n, w) in
      (ci ∙ i, ct ∙ t, o, elim d [ inl x ↦ inl x | inr x ↦ inr (o, x.0, x.1) ])

  unstarted_lem :
      (s s' : ViewImage) (v : Operation) (text : Bytes) (step : Step)
      → Awaits s v
      → handle l s (some (failed_start v text)) ≡ (ok step, s')
      → Ends v step
  unfolding Awaits Owned RunsView
  unstarted_lem s s' v text step h p = unstarted-Ends l v text s s' step h.0.0 h.1 h.2 p

  initialized_lem : (v : Operation) (s : ViewImage) → new_view_image l v ≡ ok s → Owned s v
  unfolding Owned
  initialized_lem v s p = new_view_image-Runs l v s p

  pub view_image_machine-IsMachine : IsMachine (view_image_machine l)
  view_image_machine-IsMachine = record {
    Owns = Owned;
    Starts = Awaits;
    initialized = λ v s other p. initialized_lem v s p;
    kept = kept_lem;
    advanced = advanced_lem;
    unstarted = unstarted_lem;
    refused = λ s v e next h p. fail_view_image-Ends l v e next p;
  }
