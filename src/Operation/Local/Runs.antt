-- ===== src/Operation/Local/Runs.antt =====
-- The local manager with its own machines: what any run of it delivers.
use heuristic.Prelude.{
  ℕ, suc, String, ◌==◌, ◌≡◌, ◌⊎◌, inl, inr, true, false, Option, none, some, List, ◌++◌, arith,
  Bool-cases, Option-cases, nat_eq, string_eq, pair_eq, contains,
}
use heuristic.Prelude.Exec.{ok, Result-cases}
use heuristic.Prelude.Map
use heuristic.Operation.{Operation}
use heuristic.Operation.Machine.{Machine, IsMachine, Ends-next}
use heuristic.Operation.RemoteJob
use heuristic.Operation.RemoteJob.{
  Handler, RemoteJobState, decode_remote_job_state, fail_remote_job,
}
use heuristic.Operation.RemoteJob.Failing.{fail_remote_job-step}
use heuristic.Operation.Shell
use heuristic.Operation.Shell.Handle.{shell_machine}
use heuristic.Operation.Shell.Laws.{shell_machine-IsMachine}
use heuristic.Operation.ViewImage
use heuristic.Operation.ViewImage.{view_image_machine}
use heuristic.Operation.ViewImage.Laws.{view_image_machine-IsMachine}
use heuristic.Operation.Local.{Libraries, step_operation, fail_local_operation, local_machine}
use heuristic.Operation.Local.Laws.{local_machine-IsMachine}
use heuristic.Operation.Local.Steps.{is_lem}
use heuristic.Operation.Manager.{Running, Manager, new_manager}
use heuristic.Operation.Manager.Accept.{accept_step}
use heuristic.Operation.Manager.Fuel.{accept_step-fuel}
use heuristic.Operation.Step.{Step}
use heuristic.Operation.Manager.Log.{is_finished, IsFinal}
use heuristic.Operation.Manager.Round.{Received, rounds}
use heuristic.Operation.Manager.Rounds.{EndsRemote}
use heuristic.Operation.Manager.Sound.{IsSound}
use heuristic.Operation.Manager.Runs.{new_manager-IsSound, rounds-IsSound}

-- Each accepted operation either runs, with no terminal update so far, or runs no more, with one
-- terminal update, after which no update names it.
pub record IsOrderly {m : Machine} (s : Manager m) : Type 0 where
  pub final : IsFinal (s.sent ++ s.pending_updates)
  pub settled :
      (id : String)
      → contains s.accepted id ≡ true
      → ((is_finished id (s.sent ++ s.pending_updates) ≡ true)
          × (Map.lookup id s.operations ≡ none))
        ⊎ ((is_finished id (s.sent ++ s.pending_updates) ≡ false)
            × ((current : Running m) × (Map.lookup id s.operations ≡ some current)
                × (current.operation.id ≡ id)))
  pub unaccepted :
      (id : String)
      → contains s.accepted id ≡ false
      → (is_finished id (s.sent ++ s.pending_updates) ≡ false) × (Map.lookup id s.operations ≡ none)

module _ {m : Machine} (laws : IsMachine m) (l : RemoteJob.Library) where
  IsSound-IsOrderly : (s : Manager m) → IsSound laws l s → IsOrderly s
  IsSound-IsOrderly s h = record {
    final = h.final;
    settled = λ id a. elim (Option-cases (Map.lookup id s.operations)) [
      | inr (c, e) ↦ let r = h.running id c e in inr (r.unfinished, (c, e, r.same))
      | inl e ↦ elim (h.settled id a) [ inl f ↦ inl (f, e) | inr (c, at) ↦ absurd (ground arith) ]
    ];
    unaccepted = λ id a. (
      elim (Bool-cases (is_finished id (s.sent ++ s.pending_updates))) [
        | inl f ↦ absurd (let k = h.known id f in ground arith)
        | inr f ↦ f
      ],
      elim (Option-cases (Map.lookup id s.operations)) [
        | inl e ↦ e
        | inr (c, e) ↦ absurd (let r = (h.running id c e).accepted in ground arith)
      ],
    );
  }

remote_type :
    (l : RemoteJob.Library) (v : Operation) (state : RemoteJobState)
    → decode_remote_job_state l v ≡ ok state
    → v.type ≡ "remote_job"
unfolding decode_remote_job_state
remote_type l v state e = ground (arith, string_eq.same_iff v.type "remote_job")

module _ (ls : Libraries) (sl : Shell.Library) (vl : ViewImage.Library) where
  -- The machine of each operation that the manager runs itself.
  abbrev pub machine : Machine
  machine = local_machine ls (shell_machine sl) (view_image_machine vl)

  laws : IsMachine machine
  laws = local_machine-IsMachine ls (shell_machine-IsMachine sl) (view_image_machine-IsMachine vl)

  -- `failLocalOperation` of a remote job, where it returns.
  fail_local-EndsRemote : EndsRemote laws ls.remotes
  unfolding fail_local_operation step_operation
  fail_local-EndsRemote v state e d next p =
      let k = remote_type ls.remotes v state d in
      let r : step_operation ls none (fail_remote_job ls.remotes v e) ≡ some next =
        rw
          (
            is_lem v.type "remote_job" "skill_use" k,
            is_lem v.type "remote_job" "shell" k,
            is_lem v.type "remote_job" "view_image" k,
            is_lem v.type "remote_job" "remote_job" k,
          )
          at p in
      elim (Result-cases (fail_remote_job ls.remotes v e)) [
        | inl (x, q) ↦ absurd (let z = rw (q, step_operation) at r in ground arith)
        | inr (step, q) ↦
            Ends-next v step next (fail_remote_job-step ls.remotes v step e q)
              (rw (q, step_operation) at r)
      ]

  -- After any rounds of a new manager that do not panic, an accepted operation either runs, with no
  -- terminal update so far, or runs no more and has one, which is the last update of it; an
  -- operation that was not accepted does not run and has no terminal update.
  pub rounds-IsOrderly :
      (handlers : List (Option Handler)) (rs : List Received) (s : Manager machine)
      → rounds machine ls.remotes handlers rs (new_manager machine handlers) ≡ some s
      → IsOrderly s
  rounds-IsOrderly handlers rs s run = IsSound-IsOrderly laws ls.remotes s (
      rounds-IsSound laws ls.remotes fail_local-EndsRemote handlers rs _ s
        (new_manager-IsSound laws ls.remotes fail_local-EndsRemote handlers) run)

  -- And so is the first step of an operation that is added.
  pub added-enough_fuel :
      (v : Operation) (a a' : machine.Actor) (step : Step) (s : Manager machine) (fuel : ℕ)
      → (v.type == "remote_job") ≡ false
      → machine.initialize v ≡ ok a
      → machine.handle a v none ≡ (ok step, a')
      → accept_step machine ls.remotes.format (suc (suc fuel)) v.id false a' v step s
        ≡ accept_step machine ls.remotes.format 2 v.id false a' v step s
  added-enough_fuel v a a' step s fuel other i g =
      accept_step-fuel laws ls.remotes.format v.id false fuel a a' v none step s
        (laws.initialized v a other i) g
