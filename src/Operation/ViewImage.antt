-- ===== src/Operation/ViewImage.antt =====
-- The machine of harness/operation/image.go: it reads a source, hands it to the compute primitive,
-- and checkpoints the result. The image that `prepareViewImage` makes comes back in an event.
pub mod Kept
pub mod Laws
use heuristic.Prelude.{
  ℕ, ◌+◌, ◌-◌, ◌*◌, String, Bool, true, false, ◌&&◌, ◌||◌, not, Option, none, some, List, [], ◌∷◌,
  ◌++◌, if◌then◌else◌, ◌==◌, nat_eq, string_eq, length, leb, ltb, ℤ, pos, negsuc,
}
use heuristic.Prelude.Bytes.{Bytes, ascii}
use heuristic.Prelude.Exec.{Result, ok, err}
use heuristic.Llm.{bytes}
use heuristic.Primitive.{
  PrimitiveEvent, EventType, EventResult, absent, failure, read_output, read_completed, computed,
  io_read, compute, of_read, of_compute, io_read_output, io_read_completed, compute_completed,
  ViewImageConfig, ViewImageResult,
}
use heuristic.Operation.{
  Operation, Spec, Status, ready, awaiting, canceling, completed, failed, canceled,
}
use heuristic.Operation.Machine.{Machine}
use heuristic.Operation.Step.{
  Step, OperationError, StateCodec, encoded, error_text, unsupported, undecodable, invalid_state,
  already_processing, unexpected_event, state_terminal, terminal_status, wrong_source,
  wrong_correlation, invalid_cancellation, invalid_failure, invalid_output, invalid_completion,
  invalid_computation, unexpected_type, wrapped, source_limit,
}

pub record ViewImageState : Type 0 where
  pub path : String
  pub config : ViewImageConfig
  pub result : Option ViewImageResult

pub record Library : Type 0 where
  pub codec : StateCodec ViewImageState
  pub format : OperationError → Bytes

-- `ViewImage`
pub record ViewImage : Type 0 where
  pub current : Operation
  pub state : ViewImageState
  pub chunks : List Bytes
  pub read_size : ℕ
  pub processing : Bool

abbrev pub Viewed : Type 0
Viewed = Result OperationError Step × ViewImage

abbrev pub max_view_image_source_bytes : ℕ
max_view_image_source_bytes = 256 * 1024 * 1024

unfoldable pub is_positive : ℤ → Bool
is_positive (pos n) = ltb 0 n
is_positive (negsuc n) = false

unfoldable pub is_natural : ℤ → Bool
is_natural (pos n) = true
is_natural (negsuc n) = false

-- Does `validateViewImageState` accept the state?
unfoldable pub validate_view_image_state : ViewImageState → Bool
validate_view_image_state state =
    not (state.path == "")
    && (is_positive state.config.max_size
        && is_positive state.config.max_height
        && is_positive state.config.max_width)
    && is_natural state.config.max_source_pixels

module _ (l : Library) where
  -- `NewViewImageSpec`; `none` is one of its errors.
  pub new_view_image_spec : String → ViewImageConfig → Option Spec
  new_view_image_spec path config =
      let state : ViewImageState = record { path = path; config = config; result = none } in
      if not (validate_view_image_state state) then none else elim (l.codec.encode state) [
        | none ↦ none
        | some text ↦ some (record {
          max_output_length = pos 0;
          type = "view_image";
          version = 1;
          state = some text;
          idempotency = none;
        })
      ]

  -- `DecodeViewImageState`
  unfoldable pub decode_view_image_state : Operation → Result OperationError ViewImageState
  decode_view_image_state current =
      if not (current.type == "view_image") || not (current.version == 1)
      then err (unsupported current)
      else elim (l.codec.decode (bytes current.state)) [
        | none ↦ err (undecodable current)
        | some state ↦
            if validate_view_image_state state then ok state else err (invalid_state current)
      ]

  -- `NewViewImage`
  unfoldable pub new_view_image : Operation → Result OperationError ViewImage
  new_view_image current = elim (decode_view_image_state current) [
    | err e ↦ err e
    | ok state ↦ ok (record {
      current = record current { state = none };
      state = state;
      chunks = [];
      read_size = 0;
      processing = false;
    })
  ]

  -- `checkpoint`
  unfoldable pub checkpoint : ViewImage → Viewed
  checkpoint view = elim (encoded l.codec view.current view.state) [
    | err e ↦ (err e, view)
    | ok v ↦ (ok (record { operation = some v; dispatches = [] }), view)
  ]

  -- `finish`
  unfoldable pub finish : ViewImageResult → Status → ViewImage → Viewed
  finish result status view = checkpoint (record {
    current = record view.current { status = status };
    state = record view.state { result = some result };
    chunks = [];
    read_size = 0;
    processing = false;
  })

  -- A result with no image.
  abbrev pub error_result : Bytes → ViewImageResult
  error_result text = record {
    content = [];
    original_width = pos 0;
    original_height = pos 0;
    original_mime_type = "";
    encoded_mime_type = "";
    scale_ratio = "1";
    error = text;
  }

  -- `fail`
  unfoldable pub fail : OperationError → ViewImage → Viewed
  fail e view = finish (error_result (error_text l.format e)) failed view

  -- `cancel`
  unfoldable pub cancel : ViewImage → Viewed
  cancel view =
      finish (error_result (ascii "view-image operation canceled: context canceled")) canceled view

  unfoldable pub start_reading : Viewed → Viewed
  start_reading (err e, view) = (err e, view)
  start_reading (ok step, view) = (
    ok (record step {
      dispatches =
          record {
            type = io_read;
            content = of_read (record {
              source = view.current.id;
              correlation_id = "view-image-read";
              path = view.state.path;
              offset = 0;
              count = max_view_image_source_bytes;
            });
          }
          ∷ [];
    }),
    view,
  )

  -- `read`
  unfoldable pub read : ViewImage → Viewed
  unfolding start_reading
  read view = start_reading (
      checkpoint (record view {
        current = record view.current { status = awaiting };
        chunks = [];
        read_size = 0;
      }))

  -- `process`: its step has no checkpoint.
  unfoldable pub process : Option Bytes → ViewImage → Viewed
  process cause view = (
    ok (record {
      operation = none;
      dispatches =
          record {
            type = compute;
            content = of_compute (record {
              source = view.current.id;
              correlation_id = "view-image-process";
              chunks = view.chunks;
              config = view.state.config;
              cause = cause;
            });
          }
          ∷ [];
    }),
    record view { chunks = []; read_size = 0; processing = true },
  )

  unfoldable pub is_nonempty : Bytes → Bool
  is_nonempty [] = false
  is_nonempty text = true

  -- `processed`
  unfoldable pub processed : EventType → EventResult → ViewImage → Viewed
  unfolding is_nonempty
  processed compute_completed (computed (some result)) view =
      if is_nonempty result.error
      then finish (record result { content = [] }) failed view
      else finish result completed view
  processed compute_completed result view = (err invalid_computation, view)
  processed type result view = (err (unexpected_type type), view)

  -- `handleRead`
  unfoldable pub handle_read : EventType → EventResult → ViewImage → Viewed
  handle_read io_read_output (read_output offset chunk) view =
      if not (offset == view.read_size)
        || ltb max_view_image_source_bytes (view.read_size + length chunk)
      then (err invalid_output, view)
      else (
        ok (record { operation = none; dispatches = [] }),
        record view {
          chunks = view.chunks ++ chunk ∷ [];
          read_size = view.read_size + length chunk;
        },
      )
  handle_read io_read_output result view = (err invalid_output, view)
  handle_read io_read_completed (read_completed size) view =
      let seen =
        if leb size max_view_image_source_bytes then size else max_view_image_source_bytes in
      if not (seen == view.read_size)
      then (err invalid_completion, view)
      else if ltb max_view_image_source_bytes size
      then process (some (error_text l.format (source_limit size))) view
      else process none view
  handle_read io_read_completed result view = (err invalid_completion, view)
  handle_read type result view = (err (unexpected_type type), view)

  unfoldable pub canceled_event : EventResult → ViewImage → Viewed
  canceled_event absent view = cancel view
  canceled_event result view = (err invalid_cancellation, view)

  -- A primitive failed, or could not be started.
  unfoldable pub failed_event : Bool → EventResult → ViewImage → Viewed
  failed_event rejected (failure text) view =
      if view.processing || rejected
      then fail (wrapped "image primitive failed: " text) view
      else if view.read_size == 0
      then fail (wrapped "read image: " text) view
      else process (some (error_text l.format (wrapped "read image: " text))) view
  failed_event rejected result view = (err invalid_failure, view)

  -- The tests of `handleEvent` on the type of an event with the right source and correlation.
  unfoldable pub typed_event : Bool → EventType → EventResult → ViewImage → Viewed
  unfolding canceled_event
  typed_event rejected EventType.canceled result view = canceled_event result view
  typed_event rejected EventType.failed result view = failed_event rejected result view
  typed_event rejected type result view =
      if view.processing then processed type result view else handle_read type result view

  unfoldable pub is_failure : EventType → Bool
  is_failure EventType.failed = true
  is_failure type = false

  -- `handleEvent`
  unfoldable pub handle_event : PrimitiveEvent → ViewImage → Viewed
  unfolding is_failure
  handle_event event view =
      let rejected = is_failure event.type && event.correlation_id == "" in
      let correlation = if view.processing then "view-image-process" else "view-image-read" in
      if not (event.source == view.current.id)
      then (err (wrong_source event.source), view)
      else if not (event.correlation_id == correlation) && not rejected
      then (err (wrong_correlation event.correlation_id), view)
      else typed_event rejected event.type event.result view

  -- `Handle` of a ready or an awaiting operation that has no result.
  unfoldable pub active_event : Status → Option PrimitiveEvent → ViewImage → Viewed
  active_event status none view =
      if view.processing then (err (already_processing view.current), view) else read view
  active_event ready (some event) view = (err (unexpected_event view.current), view)
  active_event status (some event) view = handle_event event view

  unfoldable pub unresolved :
      Status → Option PrimitiveEvent → Option ViewImageResult → ViewImage → Viewed
  unfolding active_event
  unresolved status event (some result) view = (err (state_terminal view.current), view)
  unresolved status event none view = active_event status event view

  -- The switch of `Handle` on the status.
  unfoldable pub handle_from : Status → Option PrimitiveEvent → ViewImage → Viewed
  unfolding unresolved
  handle_from ready event view = unresolved ready event view.state.result view
  handle_from awaiting event view = unresolved awaiting event view.state.result view
  handle_from canceling (some event) view = (err (unexpected_event view.current), view)
  handle_from canceling none view = cancel view
  handle_from status event view = (err (terminal_status view.current status), view)

  -- `Handle`
  unfoldable pub handle : ViewImage → Option PrimitiveEvent → Viewed
  handle view event = handle_from view.current.status event view

  unfoldable pub step_of : Result OperationError Step → Option Operation
  step_of (ok step) = step.operation
  step_of (err e) = none

  -- `failViewImage`, as `failLocalOperation` calls it; `none` is its panic.
  unfoldable pub fail_view_image : Operation → OperationError → Option Operation
  unfolding step_of
  fail_view_image current e = elim (new_view_image current) [
    | err x ↦ none
    | ok view ↦ step_of (fail e view).0
  ]

  abbrev pub view_image_machine : Machine
  view_image_machine = record {
    Actor = ViewImage;
    initialize = new_view_image;
    handle = λ view current event. handle view event;
    fail = fail_view_image;
  }
