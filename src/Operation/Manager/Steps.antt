-- ===== src/Operation/Manager/Steps.antt =====
-- `acceptLocalStep` and `failLocalOperation` keep the invariant where they return.
use heuristic.Prelude.{
  ℕ, suc, ◌+◌, String, ◌≡◌, refl, sym, ap, ◌∙◌, subst, ◌⊎◌, inl, inr, Bool, true, Option, none,
  some, List, [], ◌∷◌, ◌++◌, arith, Option-cases, if-intro, nat_eq, string_eq, pair_eq,
}
use mathlib.Core.Option
use heuristic.Prelude.Exec.{Result, ok, err}
use heuristic.Prelude.Map
use heuristic.Prelude.Bytes.{Bytes}
use heuristic.Prelude.Map.{lookup-insert, lookup-erase, erase-insert, insert-insert}
use heuristic.Operation.{Operation, is_terminal}
use heuristic.Operation.Machine.{Machine, IsMachine, failed_start, Ends}
use heuristic.Operation.Step.{Step, Dispatch, OperationError, error_text, is_panic, unstartable}
use heuristic.Operation.RemoteJob.{Library}
use heuristic.Operation.Manager.{
  Running, Manager, append_update, put, delete, fail_operation, is_startable,
}
use heuristic.Operation.Manager.Accept.{
  Accepted, local_running, start_failed, start_all, accept_step,
}
use heuristic.Operation.Manager.Sound.{IsSound, finish-IsSound}

module _ {m : Machine} (laws : IsMachine m) (l : Library) where
  open m use {Actor, handle, fail}

  -- Where the call returns, the invariant holds.
  abbrev pub Returns : Option (Manager m) → Type 0
  Returns none = Unit
  Returns (some s) = IsSound laws l s

  abbrev pub ReturnsAccepted : Accepted m l.format → Type 0
  ReturnsAccepted none = Unit
  ReturnsAccepted (some (n, s)) = IsSound laws l s

  -- Writing the operation and then deleting it is deleting it.
  delete-put :
      (s : Manager m) (id : String) (v : Operation) (c : Running m)
      → delete m id (append_update m v (put m id c s)) ≡ delete m id (append_update m v s)
  delete-put s id v c =
      ap (λ o. record s { operations = o; pending_updates = s.pending_updates ++ v ∷ [] })
        (erase-insert id c s.operations)

  counted_lem :
      (n : ℕ) (r : Option (Manager m)) → Returns r → ReturnsAccepted (Option.map (λ s. (n, s)) r)
  counted_lem n none h = h
  counted_lem n (some s) h = h

  added_lem :
      (n : ℕ) (r : Accepted m l.format)
      → ReturnsAccepted r
      → ReturnsAccepted (Option.map (λ r. (n + r.0, r.1)) r)
  added_lem n none h = h
  added_lem n (some (k, s)) h = h

  module _ (id : String) (canceled : Bool) where
    ended_lem :
        (next : Operation) (s : Manager m) (x : Running m)
        → next.id ≡ id
        → Map.lookup id s.operations ≡ some x
        → IsSound laws l s
        → is_terminal next.status ≡ true
        → (c d : Running m)
        → IsSound laws l (delete m next.id (append_update m next (put m id c (put m id d s))))
    ended_lem next s x i there h ended c d =
        subst (λ k. IsSound laws l (delete m k (append_update m next (put m id c (put m id d s)))))
          (sym i)
          (subst (IsSound laws l)
            (sym (delete-put (put m id d s) id next c ∙ delete-put s id next d))
            (finish-IsSound laws l s h id x next there i ended))

    -- A step that ends the operation.
    accept_step-Ends :
        (fuel : ℕ) (a : Actor) (v : Operation) (step : Step) (s : Manager m) (x : Running m)
        → v.id ≡ id
        → Map.lookup id s.operations ≡ some x
        → IsSound laws l s
        → (c : Running m) → Ends v step
        → ReturnsAccepted (accept_step m l.format (suc fuel) id canceled a v step (put m id c s))
    unfolding accept_step
    accept_step-Ends fuel a v step s x same there h c ends =
        let next = ends.next in
        let i : next.id ≡ id = ends.id ∙ same in
        rw (ends.checkpoint, accept_step)
          (rw ends.terminal (
            ended_lem next s x i there h ends.terminal (local_running m l.format next canceled a)
              c))

    pub failed-Returns :
        (v : Operation) (a : Actor) (e : OperationError) (s : Manager m) (x c : Running m)
        → v.id ≡ id
        → Map.lookup id s.operations ≡ some x
        → IsSound laws l s
        → laws.Owns a v
        → Returns (fail_operation m v e (put m id c s))
    unfolding fail_operation
    failed-Returns v a e s x c same there h owns =
        if-intro Returns (is_panic e) _ _ (λ b. tt)
          (λ b. elim (Option-cases (fail v e)) [
            | inl p ↦ rw (p, fail_operation) tt
            | inr (next, failed) ↦
                let (i, ended) = laws.refused a v e next owns failed in
                rw (failed, fail_operation)
                  (rw same (
                    subst (IsSound laws l) (sym (delete-put s id next c))
                      (finish-IsSound laws l s h id x next there (i ∙ same) ended)))
          ])

    start_failed-Returns :
        (fuel : ℕ) (v : Operation) (a : Actor) (n : ℕ) (s : Manager m) (x : Running m)
        (text : Bytes) (r : Result OperationError Step × Actor)
        → handle a v (some (failed_start v text)) ≡ r
        → v.id ≡ id
        → Map.lookup id s.operations ≡ some x
        → IsSound laws l s
        → laws.Owns a v
        → laws.Starts a v
        → ReturnsAccepted (
            start_failed m l.format
              (accept_step m l.format (suc fuel) id canceled)
              id
              canceled
              v
              n
              s
              r)
    unfolding start_failed
    start_failed-Returns fuel v a n s x text (err e, a') g same there h owns starts =
        counted_lem n _
          (failed-Returns v a e s x (local_running m l.format v canceled a') same there h owns)
    start_failed-Returns fuel v a n s x text (ok step, a') g same there h owns starts =
        added_lem n _ (
          accept_step-Ends fuel a' v step s x same there h (local_running m l.format v canceled a')
            (laws.unstarted a a' v text step starts g))

    pub start_all-Returns :
        (fuel : ℕ) (v : Operation) (a : Actor) (ds : List Dispatch) (n : ℕ) (s : Manager m)
        (x : Running m)
        → v.id ≡ id
        → Map.lookup id s.operations ≡ some x
        → IsSound laws l s
        → laws.Owns a v
        → ((ds ≡ []) ⊎ laws.Starts a v)
        → ReturnsAccepted (
            start_all m l.format
              (accept_step m l.format (suc fuel) id canceled)
              id
              canceled
              a
              v
              ds
              n
              s)
    unfolding start_all
    start_all-Returns fuel v a [] n s x same there h owns starts = h
    start_all-Returns fuel v a (d ∷ ds) n s x same there h owns (inl e) = absurd (ground arith)
    start_all-Returns fuel v a (d ∷ ds) n s x same there h owns (inr starts) =
        if-intro ReturnsAccepted (is_startable d.type d.content) _ _
          (λ b. start_all-Returns fuel v a ds (n + 1) s x same there h owns (inr starts))
          (λ b.
            start_failed-Returns fuel v a n s x (error_text l.format (unstartable d.type)) _ refl
              same there h owns starts)
