-- ===== src/Operation/Manager/Rounds.antt =====
-- What a round of `run` does to the invariant, for each thing that it can receive.
use heuristic.Prelude.{
  ℕ, String, ◌≡◌, refl, sym, ap, ◌∙◌, subst, inl, inr, Bool, true, false, Option, none, some, List,
  [], ◌∷◌, arith, Option-cases, if-intro, ◌==◌, nat_eq, string_eq, pair_eq, contains,
}
use mathlib.Core.List.{append_assoc}
use heuristic.Prelude.Exec.{Result, ok, err, Result-cases}
use heuristic.Prelude.Map
use heuristic.Prelude.Map.{lookup-insert, insert-insert}
use heuristic.Primitive.{PrimitiveEvent}
use heuristic.Operation.{Operation, is_terminal}
use heuristic.Operation.Machine.{Machine, IsMachine}
use heuristic.Operation.Step.{Step, OperationError, is_panic}
use heuristic.Operation.RemoteJob.{
  Library, RemoteJobState, Handler, decode_remote_job_state, add_remote_job,
}
use heuristic.Operation.Manager.{
  Runner, local, remote, Running, Manager, append_update, delete, fail_operation,
}
use heuristic.Operation.Manager.Accept.{local_running, accept_step}
use heuristic.Operation.Manager.Round.{
  accept_counted, answer_error, receive_add, add_step, add_local, add_remote, take_update,
}
use heuristic.Operation.Manager.Sound.{
  RunsIt, log, IsSound, put-IsSound, accept-IsSound, finish-IsSound,
}
use heuristic.Operation.Manager.Steps.{Returns, ReturnsAccepted}
use heuristic.Operation.Manager.Returns.{accept_step-Returns}

-- A remote job that is added decodes.
add_remote_job-decodes :
    (l : Library) (handlers : List (Option Handler)) (closed : List Bool) (v : Operation)
    (index : ℕ)
    → add_remote_job l handlers closed v ≡ ok index
    → (state : RemoteJobState) × (decode_remote_job_state l v ≡ ok state)
unfolding add_remote_job
add_remote_job-decodes l handlers closed v index e =
    elim (Result-cases (decode_remote_job_state l v)) [
      | inl (x, d) ↦ absurd (ground arith)
      | inr (state, d) ↦ (state, d)
    ]

module _ {m : Machine} (laws : IsMachine m) (l : Library) where
  open m use {Actor, initialize, handle, fail}

  -- `failLocalOperation` ends the operation, where it returns.
  abbrev pub Refusal : Operation → OperationError → Type 0
  Refusal v e =
      (next : Operation)
      → fail v e ≡ some next
      → (next.id ≡ v.id) × (is_terminal next.status ≡ true)

  -- And each remote job that decodes.
  abbrev pub EndsRemote : Type 0
  EndsRemote =
      (v : Operation) (state : RemoteJobState) (e : OperationError)
      → decode_remote_job_state l v ≡ ok state
      → Refusal v e

  -- The invariant is about the operations, the accepted identities and the log.
  pub IsSound-log :
      (s t : Manager m)
      → s.operations ≡ t.operations
      → s.accepted ≡ t.accepted
      → log laws l s ≡ log laws l t
      → IsSound laws l s
      → IsSound laws l t
  IsSound-log s t o a g h = record {
    final = rw (← g) h.final;
    running = λ id c at.
        let r = h.running id c (rw o at) in
        record {
          same = r.same;
          runs = r.runs;
          unfinished = rw (← g) r.unfinished;
          accepted = rw (← a) r.accepted;
        };
    settled = rw (← a, ← g, ← o) h.settled;
    known = rw (← a, ← g) h.known;
  }

  pub take_update-IsSound :
      (s : Manager m) (h : IsSound laws l s) (vs : List Operation)
      → s.pending_updates ≡ vs
      → (handlers : List (Option Handler)) → IsSound laws l (take_update m l handlers vs s)
  unfolding take_update
  take_update-IsSound s h [] e handlers = h
  take_update-IsSound s h (v ∷ vs) e handlers =
      IsSound-log s _ refl refl (rw e (sym (append_assoc s.sent (v ∷ []) vs))) h

  refusal_lem :
      EndsRemote
      → (v : Operation) (r : Runner m) (e : OperationError) → RunsIt laws l v r
      → Refusal v e
  refusal_lem ends v (local a) e owns = λ next. laws.refused a v e next owns
  refusal_lem ends v (remote i) e (state, d) = ends v state e d

  pub fail_operation-Returns :
      EndsRemote
      → (s : Manager m) (id : String) (c : Running m) (e : OperationError) → IsSound laws l s
      → Map.lookup id s.operations ≡ some c
      → Returns laws l (fail_operation m c.operation e s)
  unfolding fail_operation
  fail_operation-Returns ends s id c e h at =
      let r = h.running id c at in
      if-intro (Returns laws l) (is_panic e) _ _ (λ b. tt)
        (λ b. elim (Option-cases (fail c.operation e)) [
          | inl p ↦ rw (p, fail_operation) tt
          | inr (next, failed) ↦
              let (i, ended) = refusal_lem ends c.operation c.runner e r.runs next failed in
              rw (failed, fail_operation)
                (subst (λ k. IsSound laws l (delete m k (append_update m next s))) (sym r.same)
                  (finish-IsSound laws l s h id c next at (i ∙ r.same) ended))
        ])

  module _ (handlers : List (Option Handler)) where
    counted-Returns :
        (id : String) (canceled : Bool) (a : Actor) (v : Operation) (step : Step) (s : Manager m)
        → ReturnsAccepted laws l (accept_step m l.format 2 id canceled a v step s)
        → Returns laws l (accept_counted m l handlers id canceled a v step s)
    unfolding accept_counted
    counted-Returns id canceled a v step s h =
        elim (Option-cases (accept_step m l.format 2 id canceled a v step s)) [
          | inl e ↦ rw (e, accept_counted) tt
          | inr ((n, t), e) ↦
              rw (e, accept_counted)
                (IsSound-log t _ refl refl refl (subst (ReturnsAccepted laws l) e h))
        ]

    -- A step of a running operation.
    pub handled-Returns :
        (id : String) (canceled : Bool) (a a' : Actor) (c : Running m) (e : Option PrimitiveEvent)
        (step : Step) (s : Manager m)
        → IsSound laws l s
        → Map.lookup id s.operations ≡ some c
        → laws.Owns a c.operation
        → handle a c.operation e ≡ (ok step, a')
        → Returns laws l (accept_counted m l handlers id canceled a' c.operation step s)
    handled-Returns id canceled a a' c e step s h at owns g =
        counted-Returns id canceled a' c.operation step s (
          accept_step-Returns laws l id canceled a a' c.operation e step s (h.running id c at).same
            owns g (λ d i r. put-IsSound laws l s h id c d at i r) 0)

    -- The first step of an operation that is added.
    added-Returns :
        (a a' : Actor) (v : Operation) (step : Step) (s : Manager m)
        → IsSound laws l s
        → contains s.accepted v.id ≡ false
        → laws.Owns a v
        → handle a v none ≡ (ok step, a')
        → Returns laws l (add_step m l handlers v s (ok step, a')).1
    unfolding add_step
    added-Returns a a' v step s h fresh owns g = counted-Returns v.id false a' v step _ (
        accept_step-Returns laws l v.id false a a' v none step _ refl owns g
          (λ d i r.
            subst (IsSound laws l)
              (sym (
                ap (λ o. record s { operations = o; accepted = v.id ∷ s.accepted })
                  (insert-insert v.id (local_running m l.format v false a') d s.operations)))
              (accept-IsSound laws l s h v.id d fresh i r))
          0)

    pub answer_error-Returns :
        (e : OperationError) (s : Manager m)
        → IsSound laws l s
        → Returns laws l (answer_error m l handlers e s).1
    answer_error-Returns e s h = if-intro (Returns laws l) (is_panic e) _ _ (λ b. tt) (λ b. h)

    add_step-Returns :
        (a : Actor) (v : Operation) (s : Manager m) (r : Result OperationError Step × Actor)
        → IsSound laws l s
        → contains s.accepted v.id ≡ false
        → laws.Owns a v
        → handle a v none ≡ r
        → Returns laws l (add_step m l handlers v s r).1
    unfolding add_step
    add_step-Returns a v s (err e, a') h fresh owns g = answer_error-Returns e s h
    add_step-Returns a v s (ok step, a') h fresh owns g = added-Returns a a' v step s h fresh owns g

    add_local-Returns :
        (v : Operation) (s : Manager m) (r : Result OperationError Actor)
        → IsSound laws l s
        → contains s.accepted v.id ≡ false
        → (v.type == "remote_job") ≡ false
        → initialize v ≡ r
        → Returns laws l (add_local m l handlers v s r).1
    unfolding add_local
    add_local-Returns v s (err e) h fresh other i = answer_error-Returns e s h
    add_local-Returns v s (ok a) h fresh other i =
        add_step-Returns a v s _ h fresh (laws.initialized v a other i) refl

    add_remote-Returns :
        (v : Operation) (s : Manager m) (r : Result OperationError ℕ)
        → IsSound laws l s
        → contains s.accepted v.id ≡ false
        → add_remote_job l handlers s.closed v ≡ r
        → Returns laws l (add_remote m l handlers v s r).1
    unfolding add_remote
    add_remote-Returns v s (err e) h fresh i = answer_error-Returns e s h
    add_remote-Returns v s (ok index) h fresh i =
        accept-IsSound laws l s h v.id _ fresh refl
          (add_remote_job-decodes l handlers s.closed v index i)

    pub receive_add-Returns :
        (v : Operation) (s : Manager m)
        → IsSound laws l s
        → Returns laws l (receive_add m l handlers v s).1
    unfolding receive_add
    receive_add-Returns v s h =
        if-intro (λ (r : Option OperationError × Option (Manager m)). Returns laws l r.1)
          (contains s.accepted v.id) _ _ (λ b. h)
          (λ fresh.
            if-intro (λ (r : Option OperationError × Option (Manager m)). Returns laws l r.1)
              (v.type == "remote_job") _ _ (λ b. add_remote-Returns v s _ h fresh refl)
              (λ b. add_local-Returns v s _ h fresh b refl))
