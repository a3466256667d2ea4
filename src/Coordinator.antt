-- ===== src/Coordinator.antt =====
-- harness/coordinator/loop.go: the state of the central event loop, and what it asks of the outside.
-- A run is a sequence of rounds; the calls that reach another component are kept in `effects`, and
-- `World` says what each component answers.
pub mod Local
pub mod Frame
pub mod Steps
pub mod Commits
pub mod Rounds
pub mod Counters
pub mod WriteAhead
pub mod HardStop
pub mod Examples
pub mod Schedule
pub mod Loop
pub mod Begin
pub mod History
use heuristic.Prelude.{
  ℕ, zero, suc, ◌+◌, ◌-◌, ◌*◌, ◌%◌, ◌^◌, ◌≤◌, ◌<◌, String, ◌≡◌, refl, sym, ap, ◌∙◌, subst, ◌≢◌, ◌↔◌,
  ◌⊎◌, inl, inr, Bool, true, false, ◌&&◌, ◌||◌, not, Option, none, some, List, [], ◌∷◌, ◌++◌, map,
  arith, ltb, leb, if◌then◌else◌, ltb→lt, lt→ltb, leb→le, Bool-cases, Option-cases, if-intro, Eq,
  ◌==◌, nat_eq, string_eq, pair_eq, ℤ, pos, negsuc, length, get_elem?, set, take, drop,
  length-append, length-set, get_elem?-append_left, get_elem?-append_last, get_elem?-lt,
  get_elem?-set_self, get_elem?-set_ne, All, All-append, All-append_left, All-append_right, All-map,
  All-set, All-get_elem?, contains, contains-cons, contains-append, get_elem?-append_cases,
  get_elem?-set_cases, discard, contains-discard,
}
use heuristic.Prelude.Exec.{Result, ok, err, Exec}
use heuristic.Prelude.Map
use heuristic.Json.{Json, ControlMode}
use heuristic.Llm.{ToolCall, Request, ToolResult}
use heuristic.Operation.{Operation, Spec, CallStatus, Status}
use heuristic.Session.{TurnType}
use heuristic.Inbox.{Input, InputError, ControlMessage}
use heuristic.SessionStore.{Item, ItemKind}
use heuristic.ContextBuilder.{Builder, BuilderError}

-- `toolCallKey`: turn ID and call ID.
abbrev pub ToolCallKey : Type 0
ToolCallKey = String × String

pub record ToolCallState : Type 0 where
  pub tool_call : ToolCall
  pub status : Option CallStatus
  pub operations : List String

-- A call of another component.
pub data Effect : Type 0 where
  -- The four `Append…` methods of the session store, and `SaveOperation`.
  stored : Item → Effect
  saved : Operation → Effect
  -- `Operations.Add` and `Operations.Cancel`.
  dispatched : Operation → Effect
  cancelled : String → String → Effect
  -- `LLM.Respond` in its goroutine, for a turn.
  requested : String → Request → Effect
  -- `Inbox.Submit`
  submitted : Input → Effect

pub data CoordinatorError : Type 0 where
  -- An error that another component returned.
  failed : Effect → CoordinatorError
  wrong_data unsupported_kind : ItemKind → CoordinatorError
  invalid_input : InputError → CoordinatorError
  context_refused : BuilderError → CoordinatorError
  result_refused untranslated tool_missing : String → CoordinatorError
  model_failed : String → CoordinatorError
  heartbeat_malformed : CoordinatorError
  -- A failed type assertion.
  panicked : CoordinatorError

-- `tool.Translator`. `Translate` is given the IDs that `Submit` will return, in order, and says
-- which specs it submits and its status; `TranslateResult` gives `none` for an error.
pub record Translator : Type 0 where
  pub translate : (ℕ → String) → ToolCall → List Spec × CallStatus
  pub translate_result : String → CallStatus → List Operation → Option ToolResult

pub record World : Type 0 where
  pub json : Json
  -- `uuid.New`, by the number of calls before it.
  pub uuid : ℕ → String
  -- Does a component accept a call, after the calls that it accepted before?
  pub accepts : List Effect → Effect → Bool
  -- `Tools.Resolve`, over a registry that does not change during the run.
  pub resolve : String → Option Translator
  -- `BoundOutput` of the message that no tool has this name, and whether it was cut.
  pub unavailable_error : String → String × Bool
  -- `ToolHeartbeatInterval > 0`
  pub has_heartbeat : Bool
  -- `slices.SortFunc` by call ID, and the payload that `postHeartbeat` encodes.
  pub sort_calls : List ToolCall → List ToolCall
  pub heartbeat_payload : List ToolCall → Option String

-- The fields of `coordinator`, `loopState` and `stopState` together.
pub record Coordinator : Type 0 where
  pub current_turn_id : String
  pub current_turn_type : TurnType
  pub tool_calls : List (ToolCallKey × ToolCallState)
  pub operations : List (String × Operation)
  pub available_inputs : ℕ
  pub delivered_inputs : ℕ
  pub current_turn_inputs : ℕ
  pub call_model : Bool
  -- Is the grace timer armed, and for which calls?
  pub grace : Bool
  pub grace_tool_calls : List ToolCallKey
  pub stop : ControlMessage
  pub cancellation_requested : Bool
  -- Is `cancelModel` set?
  pub cancel_model : Bool
  pub context_builder : Builder
  pub effects : List Effect
  pub uuids : ℕ

-- `New` with `newLoopState`.
abbrev pub new_coordinator : Builder → Coordinator
new_coordinator builder = record {
  current_turn_id = "";
  current_turn_type = TurnType.other "";
  tool_calls = [];
  operations = [];
  available_inputs = 0;
  delivered_inputs = 0;
  current_turn_inputs = 0;
  call_model = false;
  grace = false;
  grace_tool_calls = [];
  stop = record { mode = ControlMode.other ""; reason = ""; parameters = none };
  cancellation_requested = false;
  cancel_model = false;
  context_builder = builder;
  effects = [];
  uuids = 0;
}

abbrev pub M : Type 0 → Type 0
M A = Exec Coordinator CoordinatorError A

-- A call of another component: kept when it is accepted, an error otherwise.
unfoldable pub perform : World → Effect → M (Unit {0})
perform w e c =
    if w.accepts c.effects e
    then (ok tt, record c { effects = c.effects ++ e ∷ [] })
    else (err (failed e), c)

-- `pendingInputs() > 0` and `pendingInputs() == 0` over Go's signed integers.
abbrev pub has_pending_inputs : Coordinator → Bool
has_pending_inputs c = ltb c.delivered_inputs c.available_inputs

abbrev pub no_pending_inputs : Coordinator → Bool
no_pending_inputs c = c.available_inputs == c.delivered_inputs

abbrev pub is_empty {ℓ} : {A : Type ℓ} → List A → Bool
is_empty [] = true
is_empty (x ∷ xs) = false

-- `clearToolGrace`
abbrev pub clear_tool_grace : Coordinator → Coordinator
clear_tool_grace c = record c { grace_tool_calls = []; grace = false }

-- `interruptModel`
abbrev pub interrupt_model : Coordinator → Coordinator
interrupt_model c = record c { cancel_model = false }
