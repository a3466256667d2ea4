-- ===== src/Operation/Examples/Operations.antt =====
-- Witnesses on single operations: a skill use, a remote job and a text that is cut.
use heuristic.Prelude.{
  ◌≡◌, refl, String, true, false, none, some, List, [], ◌∷◌, arith, pos, length, length-append, All,
  map,
}
use heuristic.Prelude.Bytes.{Bytes, ascii, concat}
use heuristic.Prelude.Exec.{ok}
use heuristic.Primitive.{PrimitiveEvent}
use heuristic.Operation.{Operation, Status, is_terminal, ready, awaiting}
use heuristic.Operation.Output.{bound_output, marker}
use heuristic.Operation.Output.Runes.{IsDecoder, bound_output_lem}
use heuristic.Operation.SkillUse.{SkillUseState, advance_skill_use}
use heuristic.Operation.SkillUse.Identity.{Advances, advance_skill_use-Advances}
use heuristic.Operation.RemoteJob.{
  RemoteJobState, validate_remote_job_update, decode_remote_job_state, is_output_limit,
  validate_plan, is_valid_transition,
}
use heuristic.Operation.RemoteJob.{fail_remote_job}
use heuristic.Operation.RemoteJob.Failing.{IsEncoder, fail_remote_job-Ends}
use heuristic.Operation.Step.{handler_stopped}
use heuristic.Primitive.{process_exited, exited}
use heuristic.Operation.Shell.{process}
use heuristic.Operation.Shell.Steps.{Shell}
use heuristic.Operation.Shell.Handle.{handle}
use heuristic.Operation.Shell.Kept.{Stays}
use heuristic.Operation.Shell.Reads.{handle-Stays}
use heuristic.Operation.RemoteJob.Updates.{Follows, validate_remote_job_update-Follows}
use heuristic.Operation.Examples.{codec}
use heuristic.Operation.Examples.Codecs.{utf8, skill_state, skills, remote_state, remotes, shells}

abbrev pub skill : SkillUseState
skill = record { path = "f"; content = []; terminal_error = [] }

abbrev pub skill_use : Status → Operation
skill_use status = record {
  max_output_length = pos 0;
  id = "s";
  type = "skill_use";
  version = 1;
  status = status;
  state = (codec skill_state).encode skill;
  idempotency = none;
}

advance_skill_use-Advances_example :
    Advances (skill_use ready) (advance_skill_use skills (skill_use ready) none)
advance_skill_use-Advances_example = advance_skill_use-Advances skills (skill_use ready) none

abbrev IsByte : Bytes → Type 0
IsByte r = length r ≡ 1

length-concat : (rs : List Bytes) → All IsByte rs → length (concat rs) ≡ length rs
length-concat [] h = refl
length-concat (r ∷ rs) h = omega (arith, length-append r (concat rs), h.0, length-concat rs h.1)

utf8-IsDecoder : IsDecoder utf8 IsByte
utf8-IsDecoder = record {
  positive = λ r h. ground arith;
  first = λ r rest h. ground arith;
  last = λ r rest h. ground arith;
  counts = length-concat;
  sanitizes = λ rs h. refl;
}

abbrev letters : String → List Bytes
letters s = map (λ c. c ∷ []) (ascii s)

bound_output_lem_example :
    bound_output utf8 (ascii "abxcde") (pos 5) ≡ some (ascii "ab...1 bytes truncated...cde", true)
unfolding marker
bound_output_lem_example =
    bound_output_lem utf8-IsDecoder (letters "abxcde") 5
      (refl, (refl, (refl, (refl, (refl, (refl, tt))))))

abbrev job_state : RemoteJobState
job_state = record {
  plan = record { type = "t"; version = 1; content = some "1" };
  handle = none;
  next_inspection_at = 0;
  outstanding_input = none;
  subscription = none;
  terminal_result = [];
  terminal_error = [];
  result_bytes = 0;
  result_truncated = false;
  error_bytes = 0;
  error_truncated = false;
}

abbrev job : Status → Operation
job status = record {
  max_output_length = pos 10;
  id = "r";
  type = "remote_job";
  version = 2;
  status = status;
  state = (codec remote_state).encode job_state;
  idempotency = none;
}

job_is_valid : validate_remote_job_update remotes (job ready) (job awaiting) ≡ none
unfolding validate_remote_job_update decode_remote_job_state is_output_limit validate_plan
    is_valid_transition
job_is_valid = refl

validate_remote_job_update-Follows_example : Follows remotes (job ready) (job awaiting)
validate_remote_job_update-Follows_example =
    validate_remote_job_update-Follows remotes (job ready) (job awaiting) job_is_valid

job-decodes : decode_remote_job_state remotes (job awaiting) ≡ ok job_state
unfolding decode_remote_job_state is_output_limit validate_plan
job-decodes = refl

remotes-IsEncoder : IsEncoder remotes
remotes-IsEncoder = λ source before state d p h i n r e. (_, refl)

fail_remote_job-Ends_example :
    (next : Operation) × (fail_remote_job remotes (job awaiting) (handler_stopped 0)
      ≡ ok (record { operation = some next; dispatches = [] }))
    × (next.id ≡ "r")
    × (is_terminal next.status ≡ true)
fail_remote_job-Ends_example =
    fail_remote_job-Ends remotes remotes-IsEncoder (job awaiting) job_state (handler_stopped 0)
      job-decodes

abbrev shell_operation : Operation
shell_operation = record {
  max_output_length = pos 10;
  id = "h";
  type = "shell";
  version = 3;
  status = awaiting;
  state = none;
  idempotency = none;
}

abbrev shell : Shell
shell = record {
  current = shell_operation;
  state = record {
    input = record { command = "ls"; shell = "/bin/sh"; directory = "/" };
    base_directory = "/tmp";
    phase = process;
    process_group_id = pos 9;
    pending_exit_code = none;
    out_size = pos 0;
    err_size = pos 0;
    inline_out = [];
    inline_err = [];
    inline_out_tail = [];
    inline_err_tail = [];
    result = none;
    terminal_error = [];
    error_truncated = false;
    out_truncated = true;
    err_truncated = true;
    out_path = "";
    err_path = "";
  };
  chunks = [];
  read_size = 0;
}

abbrev exit_event : PrimitiveEvent
exit_event = record {
  type = process_exited;
  source = "h";
  correlation_id = "process";
  result = exited (pos 0) 9;
}

handle-Stays_example : Stays shell_operation (handle shells shell (some exit_event))
handle-Stays_example = handle-Stays shells shell_operation (some exit_event) shell (refl, refl)
