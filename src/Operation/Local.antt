-- ===== src/Operation/Local.antt =====
-- The machines of harness/operation/local_manager.go: `initialize`, `advanceLocalOperation` and
-- `failLocalOperation`. A value or a skill use has no state of its own; a shell and an image have.
pub mod Steps
pub mod Laws
pub mod Runs
use heuristic.Prelude.{
  String, Bool, true, false, not, Option, none, some, if◌then◌else◌, ◌==◌, string_eq,
}
use heuristic.Prelude.Exec.{Result, ok, err}
use heuristic.Primitive.{PrimitiveEvent}
use heuristic.Operation.{Operation, failed}
use heuristic.Operation.Step.{Step, OperationError, unsupported}
use heuristic.Operation.Machine.{Machine}
use heuristic.Operation.SkillUse.{
  SkillUseState, skill_use_operation_state, fail_skill_use, advance_skill_use,
}
use heuristic.Operation.Value.{advance_value}
use heuristic.Operation.RemoteJob.{fail_remote_job}
use heuristic.Operation.SkillUse
use heuristic.Operation.Value
use heuristic.Operation.RemoteJob

-- What the machines take from the packages that they call.
pub record Libraries : Type 0 where
  pub values : Value.Library
  pub skills : SkillUse.Library
  pub remotes : RemoteJob.Library

module _ (ls : Libraries) where
  -- `advanceLocalOperation`
  unfoldable pub advance_local_operation :
      Operation → Option PrimitiveEvent → Result OperationError Step
  advance_local_operation current event =
      if current.type == "value"
      then advance_value ls.values current event
      else if current.type == "skill_use"
      then advance_skill_use ls.skills current event
      else err (unsupported current)

  -- `current.Status = StatusFailed`
  abbrev pub set_failed : Operation → Operation
  set_failed current = record current { status = failed }

  -- `*step.Operation` of a step that succeeded, or else what the code does on its error.
  unfoldable pub step_operation : Option Operation → Result OperationError Step → Option Operation
  step_operation otherwise (ok step) = step.operation
  step_operation otherwise (err e) = otherwise

  unfoldable pub fail_skill :
      Operation → OperationError → Result OperationError SkillUseState → Option Operation
  unfolding step_operation
  fail_skill current e (err x) = some (set_failed current)
  fail_skill current e (ok state) =
      step_operation (some (set_failed current)) (fail_skill_use ls.skills current state e)

  module _ (shells images : Machine) where
    -- What `current.handle` holds on to.
    pub data LocalActor : Type 0 where
      plain : LocalActor
      shell : shells.Actor → LocalActor
      image : images.Actor → LocalActor

    unfoldable pub started_shell :
        Result OperationError shells.Actor → Result OperationError LocalActor
    started_shell (ok a) = ok (shell a)
    started_shell (err e) = err e

    unfoldable pub started_image :
        Result OperationError images.Actor → Result OperationError LocalActor
    started_image (ok a) = ok (image a)
    started_image (err e) = err e

    -- `initialize`
    unfoldable pub initialize_local : Operation → Result OperationError LocalActor
    unfolding started_shell started_image
    initialize_local current =
        if current.type == "shell"
        then started_shell (shells.initialize current)
        else if current.type == "view_image"
        then started_image (images.initialize current)
        else ok plain

    -- `current.handle(event)`
    unfoldable pub handle_local :
        LocalActor → Operation → Option PrimitiveEvent → Result OperationError Step × LocalActor
    handle_local plain current event = (advance_local_operation current event, plain)
    handle_local (shell a) current event = let r = shells.handle a current event in (r.0, shell r.1)
    handle_local (image a) current event = let r = images.handle a current event in (r.0, image r.1)

    -- `failLocalOperation`; `none` is a panic.
    unfoldable pub fail_local_operation : Operation → OperationError → Option Operation
    unfolding fail_skill step_operation
    fail_local_operation current e =
        if current.type == "skill_use"
        then fail_skill current e (skill_use_operation_state ls.skills current)
        else if current.type == "shell"
        then shells.fail current e
        else if current.type == "view_image"
        then images.fail current e
        else if current.type == "remote_job"
        then step_operation none (fail_remote_job ls.remotes current e)
        else some (set_failed current)

    abbrev pub local_machine : Machine
    local_machine = record {
      Actor = LocalActor;
      initialize = initialize_local;
      handle = handle_local;
      fail = fail_local_operation;
    }
