-- ===== src/Operation/ViewImage/Kept.antt =====
-- What each step of an image keeps: the identity and the type of the operation, and that it awaits
-- with no result when it dispatches.
use heuristic.Prelude.{
  ◌+◌, ◌≡◌, refl, sym, ◌∙◌, subst, ◌⊎◌, inl, inr, Bool, true, ◌&&◌, ◌||◌, not, Option, none, some,
  [], arith, ltb, Option-cases, if-intro, ◌==◌, nat_eq, string_eq, pair_eq, length,
}
use heuristic.Prelude.Bytes.{Bytes}
use heuristic.Prelude.Exec.{ok, err}
use heuristic.Primitive.{
  PrimitiveEvent, EventType, EventResult, absent, failure, read_output, read_completed, computed,
  io_read_output, io_read_completed, compute_completed, ViewImageResult,
}
use heuristic.Operation.{Operation, Status, ready, awaiting, canceling}
use heuristic.Operation.Step.{OperationError, encoded}
use heuristic.Operation.ViewImage.{
  Library, ViewImage, Viewed, validate_view_image_state, checkpoint, finish, fail, cancel,
  start_reading, read, process, is_nonempty, processed, handle_read, canceled_event, failed_event,
  typed_event, handle_event, active_event, unresolved, handle_from, handle,
  max_view_image_source_bytes,
}

module _ (l : Library) (v : Operation) where
  -- Does the machine run the operation?
  unfoldable pub RunsView : ViewImage → Type 0
  RunsView s =
      (s.current.id ≡ v.id)
      × (s.current.type ≡ v.type)
      × (s.current.type ≡ "view_image")
      × (s.current.version ≡ 1)
      × (validate_view_image_state s.state ≡ true)

  -- Does it await an event?
  abbrev pub IsActive : ViewImage → Type 0
  IsActive s = (s.current.status ≡ awaiting) × (s.state.result ≡ none)

  abbrev pub IsCheckpoint : ViewImage → Option Operation → Type 0
  IsCheckpoint s none = Unit
  IsCheckpoint s (some next) = (next.id ≡ s.current.id) × (next.type ≡ s.current.type)

  abbrev pub Stays : Viewed → Type 0
  Stays (err e, s) = Unit
  Stays (ok step, s) =
      RunsView s × ((step.dispatches ≡ []) ⊎ IsActive s) × IsCheckpoint s step.operation

  checkpoint-Stays : (s : ViewImage) → RunsView s → Stays (checkpoint l s)
  unfolding checkpoint encoded
  checkpoint-Stays s h = elim (Option-cases (l.codec.encode s.state)) [
    | inl e ↦ rw (e, checkpoint, encoded) tt
    | inr (text, e) ↦ rw (e, checkpoint, encoded) (h, inl refl, (refl, refl))
  ]

  checkpoint_self : (s : ViewImage) → (checkpoint l s).1 ≡ s
  unfolding checkpoint encoded
  checkpoint_self s = elim (Option-cases (l.codec.encode s.state)) [
    | inl e ↦ rw (e, checkpoint, encoded) refl
    | inr (text, e) ↦ rw (e, checkpoint, encoded) refl
  ]

  finish-Stays :
      (r : ViewImageResult) (status : Status) (s : ViewImage)
      → RunsView s
      → Stays (finish l r status s)
  unfolding finish RunsView validate_view_image_state
  finish-Stays r status s h = checkpoint-Stays _ h

  fail-Stays : (e : OperationError) (s : ViewImage) → RunsView s → Stays (fail l e s)
  unfolding fail
  fail-Stays e s h = finish-Stays _ _ s h

  cancel-Stays : (s : ViewImage) → RunsView s → Stays (cancel l s)
  unfolding cancel
  cancel-Stays s h = finish-Stays _ _ s h

  start_reading-Stays : (r : Viewed) → Stays r → IsActive r.1 → Stays (start_reading l r)
  unfolding start_reading
  start_reading-Stays (err e, s) h a = tt
  start_reading-Stays (ok step, s) (h, d, c) a = (h, inr a, c)

  read-Stays : (s : ViewImage) → RunsView s → s.state.result ≡ none → Stays (read l s)
  unfolding read RunsView
  read-Stays s h e =
      start_reading-Stays _ (checkpoint-Stays _ h)
        (subst IsActive (sym (checkpoint_self _)) (refl, e))

  process-Stays :
      (cause : Option Bytes) (s : ViewImage) → RunsView s → IsActive s → Stays (process l cause s)
  unfolding process RunsView
  process-Stays cause s h a = (h, inr a, tt)

  processed-Stays :
      (t : EventType) (r : EventResult) (s : ViewImage) → RunsView s → Stays (processed l t r s)
  unfolding processed
  processed-Stays compute_completed (computed (some result)) s h =
      if-intro Stays (is_nonempty l result.error) _ _ (λ b. finish-Stays _ _ s h)
        (λ b. finish-Stays _ _ s h)
  processed-Stays compute_completed r s h = tt
  processed-Stays t r s h = tt

  handle_read-Stays :
      (t : EventType) (r : EventResult) (s : ViewImage)
      → RunsView s
      → IsActive s
      → Stays (handle_read l t r s)
  unfolding handle_read RunsView
  handle_read-Stays io_read_output (read_output offset chunk) s h a =
      if-intro Stays (not (offset == s.read_size) || ltb _ (s.read_size + length chunk)) _ _
        (λ b. tt) (λ b. (h, inl refl, tt))
  handle_read-Stays io_read_output r s h a = tt
  handle_read-Stays io_read_completed (read_completed size) s h a =
      if-intro Stays (not (_ == s.read_size)) _ _ (λ b. tt)
        (λ b.
          if-intro Stays (ltb max_view_image_source_bytes size) _ _ (λ c. process-Stays _ s h a)
            (λ c. process-Stays _ s h a))
  handle_read-Stays io_read_completed r s h a = tt
  handle_read-Stays t r s h a = tt

  failed_event-Stays :
      (rejected : Bool) (r : EventResult) (s : ViewImage)
      → RunsView s
      → IsActive s
      → Stays (failed_event l rejected r s)
  unfolding failed_event
  failed_event-Stays rejected (failure text) s h a =
      if-intro Stays (s.processing || rejected) _ _ (λ b. fail-Stays _ s h)
        (λ b.
          if-intro Stays (s.read_size == 0) _ _ (λ c. fail-Stays _ s h)
            (λ c. process-Stays _ s h a))
  failed_event-Stays rejected r s h a = tt

  canceled_event-Stays :
      (r : EventResult) (s : ViewImage) → RunsView s → Stays (canceled_event l r s)
  unfolding canceled_event
  canceled_event-Stays absent s h = cancel-Stays s h
  canceled_event-Stays r s h = tt

  typed_event-Stays :
      (rejected : Bool) (t : EventType) (r : EventResult) (s : ViewImage)
      → RunsView s
      → IsActive s
      → Stays (typed_event l rejected t r s)
  unfolding typed_event
  typed_event-Stays rejected EventType.canceled r s h a = canceled_event-Stays r s h
  typed_event-Stays rejected EventType.failed r s h a = failed_event-Stays rejected r s h a
  typed_event-Stays rejected t r s h a =
      if-intro Stays s.processing _ _ (λ b. processed-Stays t r s h)
        (λ b. handle_read-Stays t r s h a)

  handle_event-Stays :
      (event : PrimitiveEvent) (s : ViewImage)
      → RunsView s
      → IsActive s
      → Stays (handle_event l event s)
  unfolding handle_event
  handle_event-Stays event s h a =
      if-intro Stays (not (event.source == s.current.id)) _ _ (λ b. tt)
        (λ b.
          if-intro Stays (not (event.correlation_id == _) && not _) _ _ (λ c. tt)
            (λ c. typed_event-Stays _ event.type event.result s h a))

  active_event-Stays :
      (status : Status) (event : Option PrimitiveEvent) (s : ViewImage)
      → s.current.status ≡ status
      → ((status ≡ ready) ⊎ (status ≡ awaiting))
      → RunsView s
      → s.state.result ≡ none
      → Stays (active_event l status event s)
  unfolding active_event
  active_event-Stays status none s e d h r =
      if-intro Stays s.processing _ _ (λ b. tt) (λ b. read-Stays s h r)
  active_event-Stays ready (some event) s e d h r = tt
  active_event-Stays status (some event) s e (inr a) h r = handle_event-Stays event s h (e ∙ a, r)
  active_event-Stays awaiting (some event) s e (inl a) h r = handle_event-Stays event s h (e, r)
  active_event-Stays status (some event) s e (inl a) h r = absurd (ground arith)

  unresolved-Stays :
      (status : Status) (event : Option PrimitiveEvent) (result : Option ViewImageResult)
      (s : ViewImage)
      → s.current.status ≡ status
      → ((status ≡ ready) ⊎ (status ≡ awaiting))
      → RunsView s
      → s.state.result ≡ result
      → Stays (unresolved l status event result s)
  unfolding unresolved
  unresolved-Stays status event (some result) s e d h r = tt
  unresolved-Stays status event none s e d h r = active_event-Stays status event s e d h r

  handle_from-Stays :
      (status : Status) (event : Option PrimitiveEvent) (s : ViewImage)
      → s.current.status ≡ status
      → RunsView s
      → Stays (handle_from l status event s)
  unfolding handle_from
  handle_from-Stays ready event s e h = unresolved-Stays ready event _ s e (inl refl) h refl
  handle_from-Stays awaiting event s e h = unresolved-Stays awaiting event _ s e (inr refl) h refl
  handle_from-Stays canceling (some event) s e h = tt
  handle_from-Stays canceling none s e h = cancel-Stays s h
  handle_from-Stays status event s e h = tt

  -- A step of an image that succeeds keeps the ID and the type of the operation, in what it
  -- checkpoints too, and starts a primitive only when the operation then awaits.
  pub handle-Stays :
      (event : Option PrimitiveEvent) (s : ViewImage) → RunsView s → Stays (handle l s event)
  unfolding handle
  handle-Stays event s h = handle_from-Stays s.current.status event s refl h
