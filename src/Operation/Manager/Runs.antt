-- ===== src/Operation/Manager/Runs.antt =====
-- A round of `run`, and any run of it from `NewLocalOperationManager`.
use heuristic.Prelude.{
  ℕ, ◌≡◌, refl, sym, ◌∙◌, subst, inl, inr, Bool, Option, none, some, List, [], ◌∷◌, map, arith,
  Bool-cases, Option-cases, nat_eq, string_eq, pair_eq, contains,
}
use heuristic.Prelude.Map
use heuristic.Prelude.Map.{lookup-nil}
use heuristic.Primitive.{PrimitiveEvent}
use heuristic.Operation.{Operation}
use heuristic.Operation.Machine.{Machine, IsMachine}
use heuristic.Operation.RemoteJob.{Library, Handler}
use heuristic.Operation.Manager.{
  Runner, local, remote, Running, Manager, new_manager, is_completion,
}
use heuristic.Operation.Manager.Round.{
  Received, takes, adds, cancels, reports, primitive, round, rounds, runs_on, cancel_cause,
  receive_cancel, receive_report, receive_primitive, report_running, handle_running,
  fail_remote_operation,
}
use heuristic.Operation.Manager.Sound.{IsSound}
use heuristic.Operation.Manager.Steps.{Returns}
use heuristic.Operation.Manager.Rounds.{
  EndsRemote, IsSound-log, take_update-IsSound, receive_add-Returns,
}
use heuristic.Operation.Manager.Reports.{
  fail_each-Returns, report-Returns, handle-Returns, cancel-Returns,
}

module _ {m : Machine} (laws : IsMachine m) (l : Library) (ends : EndsRemote laws l)
    (handlers : List (Option Handler)) where
  report_lem :
      (index : ℕ) (updated : Operation) (s : Manager m) (v : Operation) (b : Bool) (r : Runner m)
      → IsSound laws l s
      → Map.lookup updated.id s.operations
        ≡ some (record { operation = v; canceled = b; runner = r })
      → Returns laws l (
          report_running m l handlers index updated
            (some (record { operation = v; canceled = b; runner = r }))
            s)
  unfolding report_running runs_on fail_remote_operation cancel_cause
  report_lem index updated s v b (remote i) h at =
      report-Returns laws l ends handlers index updated s v i b h at
  report_lem index updated s v b (local a) h at = tt

  report_any :
      (index : ℕ) (updated : Operation) (s : Manager m) (c : Option (Running m))
      → IsSound laws l s
      → Map.lookup updated.id s.operations ≡ c
      → Returns laws l (report_running m l handlers index updated c s)
  unfolding report_running
  report_any index updated s none h at = h
  report_any index updated s (some c) h at =
      report_lem index updated s c.operation c.canceled c.runner h at

  handle_lem :
      (e : PrimitiveEvent) (s : Manager m) (v : Operation) (b : Bool) (r : Runner m)
      → IsSound laws l s
      → Map.lookup e.source s.operations ≡ some (record { operation = v; canceled = b; runner = r })
      → Returns laws l (
          handle_running m l handlers e
            (some (record { operation = v; canceled = b; runner = r }))
            s)
  unfolding handle_running
  handle_lem e s v b (remote i) h at = tt
  handle_lem e s v b (local a) h at = handle-Returns laws l ends handlers e s v a b h at

  handle_any :
      (e : PrimitiveEvent) (s : Manager m) (c : Option (Running m))
      → IsSound laws l s
      → Map.lookup e.source s.operations ≡ c
      → Returns laws l (handle_running m l handlers e c s)
  unfolding handle_running
  handle_any e s none h at = h
  handle_any e s (some c) h at = handle_lem e s c.operation c.canceled c.runner h at

  primitive_lem :
      (e : PrimitiveEvent) (s : Manager m)
      → IsSound laws l s
      → Returns laws l (receive_primitive m l handlers e s)
  unfolding receive_primitive
  primitive_lem e s h = elim (Bool-cases (is_completion e.type)) [
    | inl c ↦
        rw (c, receive_primitive) (handle_any e _ _ (IsSound-log laws l s _ refl refl refl h) refl)
    | inr c ↦ rw (c, receive_primitive) (handle_any e s _ h refl)
  ]

  -- A round keeps the invariant, where it returns.
  round-Returns :
      (r : Received) (s : Manager m) → IsSound laws l s → Returns laws l (round m l handlers r s).1
  unfolding round receive_cancel receive_report
  round-Returns takes s h = take_update-IsSound laws l s h s.pending_updates refl handlers
  round-Returns (adds v) s h = receive_add-Returns laws l handlers v s h
  round-Returns (cancels id reason) s h = cancel-Returns laws l ends handlers id reason s _ h refl
  round-Returns (reports index none) s h =
      fail_each-Returns laws l ends handlers index (map (λ e. e.0) s.operations) _
        (IsSound-log laws l s _ refl refl refl h)
  round-Returns (reports index (some v)) s h = report_any index v s _ h refl
  round-Returns (primitive e) s h = primitive_lem e s h

  pub new_manager-IsSound : IsSound laws l (new_manager m handlers)
  unfolding contains
  new_manager-IsSound = record {
    final = tt;
    running = λ id c at. absurd (let n = lookup-nil {V = Running m} id in ground arith);
    settled = λ id a. absurd (ground arith);
    known = λ id f. absurd (ground arith);
  }

  pub rounds-IsSound :
      (rs : List Received) (s t : Manager m)
      → IsSound laws l s
      → rounds m l handlers rs s ≡ some t
      → IsSound laws l t
  unfolding rounds
  rounds-IsSound [] s t h e = subst (Returns laws l) e h
  rounds-IsSound (r ∷ rs) s t h e = elim (Option-cases (round m l handlers r s).1) [
    | inl g ↦ absurd (ground arith)
    | inr (u, g) ↦
        rounds-IsSound rs u t (subst (Returns laws l) g (round-Returns r s h))
          (sym (ground arith) ∙ e)
  ]
