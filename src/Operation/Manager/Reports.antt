-- ===== src/Operation/Manager/Reports.antt =====
-- What the updates of remote handlers, the events of primitives and the cancellations do to the
-- invariant of `run`.
use heuristic.Prelude.{
  ℕ, String, ◌≡◌, refl, subst, inl, inr, Bool, not, Option, none, some, List, [], ◌∷◌, arith,
  Option-cases, if-intro, nat_eq, string_eq, pair_eq,
}
use heuristic.Prelude.Exec.{Result, ok, err, Result-cases}
use heuristic.Prelude.Bytes.{Bytes}
use heuristic.Prelude.Map
use heuristic.Prelude.Map.{lookup-insert}
use heuristic.Primitive.{PrimitiveEvent}
use heuristic.Operation.{Operation, is_terminal}
use heuristic.Operation.Machine.{Machine, IsMachine}
use heuristic.Operation.Step.{
  Step, OperationError, handler_stopped, wrong_handler, error_text, joined,
}
use heuristic.Operation.RemoteJob.{
  Library, RemoteJobState, Handler, decode_remote_job_state, validate_remote_job_update,
  validate_states, cancel_remote,
}
use heuristic.Operation.Manager.{Runner, local, remote, Running, Manager, put}
use heuristic.Operation.Manager.Accept.{local_running}
use heuristic.Operation.Manager.Round.{
  accept_update, fail_each, fail_stopped, runs_on, cancel_cause, fail_remote_operation,
  report_running, handled, handle_running, cancel_running,
}
use heuristic.Operation.Manager.Sound.{IsSound, put-IsSound, update-IsSound, finish-IsSound}
use heuristic.Operation.Manager.Steps.{Returns, failed-Returns}
use heuristic.Operation.Manager.Rounds.{
  EndsRemote, fail_operation-Returns, answer_error-Returns, handled-Returns,
}

-- An update that passes decodes.
validated_lem :
    (l : Library) (current updated : Operation)
    → validate_remote_job_update l current updated ≡ none
    → (state : RemoteJobState) × (decode_remote_job_state l updated ≡ ok state)
unfolding validate_remote_job_update validate_states
validated_lem l current updated e = elim (Result-cases (decode_remote_job_state l updated)) [
  | inr (state, d) ↦ (state, d)
  | inl (x, d) ↦ elim (Result-cases (decode_remote_job_state l current)) [
    | inl (y, c) ↦ absurd (ground arith)
    | inr (y, c) ↦ absurd (ground arith)
  ]
]

module _ {m : Machine} (laws : IsMachine m) (l : Library) (ends : EndsRemote laws l)
    (handlers : List (Option Handler)) where
  open m use {Actor, initialize, handle, fail}

  fail_stopped-Returns :
      (index : ℕ) (id : String) (s : Manager m) (c : Option (Running m))
      → IsSound laws l s
      → Map.lookup id s.operations ≡ c
      → Returns laws l (fail_stopped m l handlers index c s)
  unfolding fail_stopped
  fail_stopped-Returns index id s none h at = h
  fail_stopped-Returns index id s (some c) h at =
      if-intro (Returns laws l) (runs_on m l handlers index c.runner) _ _
        (λ b. fail_operation-Returns laws l ends s id c (handler_stopped index) h at) (λ b. h)

  pub fail_each-Returns :
      (index : ℕ) (ids : List String) (s : Manager m)
      → IsSound laws l s
      → Returns laws l (fail_each m l handlers index ids s)
  unfolding fail_each
  fail_each-Returns index [] s h = h
  fail_each-Returns index (id ∷ rest) s h =
      let first = fail_stopped-Returns index id s _ h refl in
      elim (Option-cases (fail_stopped m l handlers index (Map.lookup id s.operations) s)) [
        | inl e ↦ rw (e, fail_each) tt
        | inr (t, e) ↦
            rw (e, fail_each) (fail_each-Returns index rest t (subst (Returns laws l) e first))
      ]

  fail_remote-Returns :
      (s : Manager m) (id : String) (v : Operation) (i : ℕ) (canceled : Bool) (e : OperationError)
      → IsSound laws l s
      → Map.lookup id s.operations
        ≡ some (record { operation = v; canceled = canceled; runner = remote i })
      → Returns laws l (
          fail_remote_operation m l handlers
            (record { operation = v; canceled = canceled; runner = remote i })
            e
            s)
  unfolding fail_remote_operation cancel_cause
  fail_remote-Returns s id v i canceled e h at =
      elim (Option-cases (cancel_remote handlers i v.id (error_text l.format e))) [
        | inl x ↦
            rw (x, fail_remote_operation, cancel_cause)
              (fail_operation-Returns laws l ends s id _ e h at)
        | inr (d, x) ↦
            rw (x, fail_remote_operation, cancel_cause)
              (fail_operation-Returns laws l ends s id _ (joined e d) h at)
      ]

  accept_update-IsSound :
      (s : Manager m) (v updated : Operation) (i : ℕ) (canceled : Bool) (state : RemoteJobState)
      → IsSound laws l s
      → Map.lookup updated.id s.operations
        ≡ some (record { operation = v; canceled = canceled; runner = remote i })
      → decode_remote_job_state l updated ≡ ok state
      → IsSound laws l (
          accept_update m l handlers updated
            (record { operation = v; canceled = canceled; runner = remote i })
            s)
  unfolding accept_update
  accept_update-IsSound s v updated i canceled state h at d =
      let c : Running m = record { operation = updated; canceled = canceled; runner = remote i } in
      let h' = put-IsSound laws l s h updated.id _ c at refl (state, d) in
      let there : Map.lookup updated.id (Map.insert updated.id c s.operations) ≡ some c = ground (
        arith,
        lookup-insert updated.id updated.id c s.operations,
        string_eq.same_iff updated.id updated.id,
      ) in
      if-intro (IsSound laws l) (is_terminal updated.status) _ _
        (λ b. finish-IsSound laws l (put m updated.id c s) h' updated.id c updated there refl b)
        (λ b. update-IsSound laws l (put m updated.id c s) h' updated.id c updated there refl b)

  pub report-Returns :
      (index : ℕ) (updated : Operation) (s : Manager m) (v : Operation) (i : ℕ) (canceled : Bool)
      → IsSound laws l s
      → Map.lookup updated.id s.operations
        ≡ some (record { operation = v; canceled = canceled; runner = remote i })
      → Returns laws l (
          report_running m l handlers index updated
            (some (record { operation = v; canceled = canceled; runner = remote i }))
            s)
  unfolding report_running
  report-Returns index updated s v i canceled h at =
      if-intro (Returns laws l) (not (runs_on m l handlers index (remote i))) _ _
        (λ b. fail_remote-Returns s updated.id v i canceled (wrong_handler updated.id) h at)
        (λ b. elim (Option-cases (validate_remote_job_update l v updated)) [
          | inr (e, x) ↦
              rw (x, report_running) (fail_remote-Returns s updated.id v i canceled e h at)
          | inl x ↦
              let (state, d) = validated_lem l v updated x in
              rw (x, report_running) (accept_update-IsSound s v updated i canceled state h at d)
        ])

  handled_result-Returns :
      (id : String) (canceled : Bool) (a : Actor) (c : Running m) (e : Option PrimitiveEvent)
      (s : Manager m) (r : Result OperationError Step × Actor)
      → IsSound laws l s
      → Map.lookup id s.operations ≡ some c
      → laws.Owns a c.operation
      → handle a c.operation e ≡ r
      → Returns laws l (handled m l handlers id canceled c.operation s r)
  unfolding handled
  handled_result-Returns id canceled a c e s (ok step, a') h at owns g =
      handled-Returns laws l handlers id canceled a a' c e step s h at owns g
  handled_result-Returns id canceled a c e s (err x, a') h at owns g =
      failed-Returns laws l id canceled c.operation a x s c
        (local_running m l.format c.operation canceled a') (h.running id c at).same at h owns

  pub handle-Returns :
      (e : PrimitiveEvent) (s : Manager m) (v : Operation) (a : Actor) (canceled : Bool)
      → IsSound laws l s
      → Map.lookup e.source s.operations
        ≡ some (record { operation = v; canceled = canceled; runner = local a })
      → Returns laws l (
          handle_running m l handlers e
            (some (record { operation = v; canceled = canceled; runner = local a }))
            s)
  unfolding handle_running
  handle-Returns e s v a canceled h at =
      handled_result-Returns e.source canceled a _ _ s _ h at (h.running e.source _ at).runs refl

  cancel_runner-Returns :
      (id : String) (reason : Bytes) (s : Manager m) (v : Operation) (b : Bool) (r : Runner m)
      → IsSound laws l s
      → Map.lookup id s.operations ≡ some (record { operation = v; canceled = b; runner = r })
      → Returns laws l
          (cancel_running m l handlers id reason
            (some (record { operation = v; canceled = b; runner = r }))
            s).1
  unfolding cancel_running
  cancel_runner-Returns id reason s v b (remote i) h at =
      elim (Option-cases (cancel_remote handlers i id reason)) [
        | inl p ↦ rw (p, cancel_running) h
        | inr (e, p) ↦ rw (p, cancel_running) (answer_error-Returns laws l handlers e s h)
      ]
  cancel_runner-Returns id reason s v b (local a) h at =
      let r = h.running id _ at in put-IsSound laws l s h id _ _ at r.same r.runs

  pub cancel-Returns :
      (id : String) (reason : Bytes) (s : Manager m) (c : Option (Running m))
      → IsSound laws l s
      → Map.lookup id s.operations ≡ c
      → Returns laws l (cancel_running m l handlers id reason c s).1
  unfolding cancel_running
  cancel-Returns id reason s none h at = h
  cancel-Returns id reason s (some c) h at =
      cancel_runner-Returns id reason s c.operation c.canceled c.runner h at
