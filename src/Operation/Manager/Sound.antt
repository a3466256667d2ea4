-- ===== src/Operation/Manager/Sound.antt =====
-- The invariant of the manager's loop, and what its assignments do to it.
use heuristic.Prelude.{
  String, ◌≡◌, sym, ◌∙◌, subst, ◌⊎◌, inl, inr, true, false, ◌&&◌, ◌||◌, some, List, [], ◌∷◌, ◌++◌,
  arith, Bool-cases, ◌==◌, nat_eq, string_eq, pair_eq, contains, contains-cons,
}
use mathlib.Core.List.{append_assoc}
use heuristic.Prelude.Exec.{ok}
use heuristic.Prelude.Map
use heuristic.Prelude.Map.{lookup-insert, lookup-erase}
use heuristic.Operation.{Operation, is_terminal}
use heuristic.Operation.Machine.{Machine, IsMachine}
use heuristic.Operation.RemoteJob.{Library, RemoteJobState, decode_remote_job_state}
use heuristic.Operation.Manager.{
  Runner, local, remote, Running, Manager, append_update, put, delete,
}
use heuristic.Operation.Manager.Log.{is_finished, IsFinal, is_finished-append, IsFinal-append}

module _ {m : Machine} (laws : IsMachine m) (l : Library) where
  -- A machine owns its operation; a remote job decodes.
  abbrev pub RunsIt : Operation → Runner m → Type 0
  RunsIt v (local a) = laws.Owns a v
  RunsIt v (remote i) = (state : RemoteJobState) × (decode_remote_job_state l v ≡ ok state)

  -- The updates so far, those that the reader has not taken included.
  abbrev pub log : Manager m → List Operation
  log s = s.sent ++ s.pending_updates

  pub record IsRunning (s : Manager m) (id : String) (current : Running m) : Type 0 where
    pub same : current.operation.id ≡ id
    pub runs : RunsIt current.operation current.runner
    pub unfinished : is_finished id (log s) ≡ false
    pub accepted : contains s.accepted id ≡ true

  pub record IsSound (s : Manager m) : Type 0 where
    -- A terminal update of an operation is its last.
    pub final : IsFinal (log s)
    pub running :
        (id : String) (current : Running m)
        → Map.lookup id s.operations ≡ some current
        → IsRunning s id current
    -- An accepted operation runs until its terminal update.
    pub settled :
        (id : String)
        → contains s.accepted id ≡ true
        → (is_finished id (log s) ≡ true)
          ⊎ ((current : Running m) × (Map.lookup id s.operations ≡ some current))
    pub known : (id : String) → is_finished id (log s) ≡ true → contains s.accepted id ≡ true

  -- The running operation at `j`, once that at `id` is `new`.
  IsRunning-at :
      (s : Manager m) (id j : String) (new c : Running m)
      → IsRunning s id new
      → ((d : Running m) → Map.lookup j s.operations ≡ some d → IsRunning s j d)
      → Map.lookup j (Map.insert id new s.operations) ≡ some c
      → IsRunning s j c
  IsRunning-at s id j new c at others e = elim (Bool-cases (id == j)) [
    | inl same ↦
        let i : id ≡ j = (string_eq.same_iff id j).0 same in
        let d : new ≡ c = ground (arith, lookup-insert id j new s.operations) in
        subst (λ k. IsRunning s k c) i (subst (IsRunning s id) d at)
    | inr other ↦ others c (ground (arith, lookup-insert id j new s.operations))
  ]

  module _ (s : Manager m) (h : IsSound s) (id : String) where
    -- A running operation is written.
    pub put-IsSound :
        (old new : Running m)
        → Map.lookup id s.operations ≡ some old
        → new.operation.id ≡ id
        → RunsIt new.operation new.runner
        → IsSound (put m id new s)
    put-IsSound old new e same runs =
        let was = h.running id old e in
        let now : IsRunning s id new = record {
          same = same;
          runs = runs;
          unfinished = was.unfinished;
          accepted = was.accepted;
        } in
        record {
          final = h.final;
          running = λ j c at.
              let r = IsRunning-at s id j new c now (h.running j) at in
              record {
                same = r.same;
                runs = r.runs;
                unfinished = r.unfinished;
                accepted = r.accepted;
              };
          settled = λ j a. elim (h.settled j a) [
            | inl f ↦ inl f
            | inr (c, at) ↦ elim (Bool-cases (id == j)) [
              | inl i ↦ inr (new, ground (arith, lookup-insert id j new s.operations))
              | inr i ↦ inr (c, ground (arith, lookup-insert id j new s.operations))
            ]
          ];
          known = h.known;
        }

    -- A new operation is accepted.
    pub accept-IsSound :
        (new : Running m)
        → contains s.accepted id ≡ false
        → new.operation.id ≡ id
        → RunsIt new.operation new.runner
        → IsSound (put m id new (record s { accepted = id ∷ s.accepted }))
    accept-IsSound new fresh same runs =
        let unfinished : is_finished id (log s) ≡ false =
          elim (Bool-cases (is_finished id (log s))) [
            | inl f ↦ absurd (let k = h.known id f in ground arith)
            | inr f ↦ f
          ] in
        let s' = record s { accepted = id ∷ s.accepted } in
        let now : IsRunning s' id new = record {
          same = same;
          runs = runs;
          unfinished = unfinished;
          accepted = ground (arith, contains-cons id s.accepted id, string_eq.same_iff id id);
        } in
        record {
          final = h.final;
          running = λ j c at.
              let r =
                IsRunning-at s' id j new c now
                  (λ d e.
                    let q = h.running j d e in
                    record {
                      same = q.same;
                      runs = q.runs;
                      unfinished = q.unfinished;
                      accepted = ground (arith, contains-cons id s.accepted j, q.accepted);
                    })
                  at in
              record {
                same = r.same;
                runs = r.runs;
                unfinished = r.unfinished;
                accepted = r.accepted;
              };
          settled = λ j a. elim (Bool-cases (id == j)) [
            | inl i ↦ inr (new, ground (arith, lookup-insert id j new s.operations))
            | inr i ↦ elim (h.settled j (ground (arith, contains-cons id s.accepted j))) [
              | inl f ↦ inl f
              | inr (c, at) ↦ inr (c, ground (arith, lookup-insert id j new s.operations))
            ]
          ];
          known = λ j f. ground (arith, contains-cons id s.accepted j, h.known j f);
        }

    module _ (current : Running m) (v : Operation) (e : Map.lookup id s.operations ≡ some current)
        (same : v.id ≡ id) where
      finished-after :
          (j : String)
          → is_finished j (log (append_update m v s))
            ≡ (is_finished j (log s) || (v.id == j && is_terminal v.status))
      finished-after j =
          rw (← append_assoc s.sent s.pending_updates (v ∷ [])) (is_finished-append j (log s) v)

      IsFinal-after : IsFinal (log (append_update m v s))
      IsFinal-after =
          rw (← append_assoc s.sent s.pending_updates (v ∷ []))
            (IsFinal-append (log s) v h.final (rw same (h.running id current e).unfinished))

      known-after :
          (j : String)
          → is_finished j (log (append_update m v s)) ≡ true
          → contains s.accepted j ≡ true
      known-after j f = elim (Bool-cases (is_finished j (log s))) [
        | inl was ↦ h.known j was
        | inr new ↦
            let i : id ≡ j =
              sym same ∙ ground (arith, finished-after j, string_eq.same_iff v.id j) in
            subst (λ k. contains s.accepted k ≡ true) i (h.running id current e).accepted
      ]

      -- An update of a running operation that goes on.
      pub update-IsSound : is_terminal v.status ≡ false → IsSound (append_update m v s)
      update-IsSound goes_on = record {
        final = IsFinal-after;
        running = λ j c at.
            let r = h.running j c at in
            record {
              same = r.same;
              runs = r.runs;
              unfinished = ground (arith, finished-after j, r.unfinished);
              accepted = r.accepted;
            };
        settled = λ j a. elim (h.settled j a) [
          | inl f ↦ inl (ground (arith, finished-after j))
          | inr (c, at) ↦ inr (c, at)
        ];
        known = known-after;
      }

      -- Its last update, after which it no longer runs.
      pub finish-IsSound : is_terminal v.status ≡ true → IsSound (delete m id (append_update m v s))
      finish-IsSound ended = record {
        final = IsFinal-after;
        running = λ j c at. elim (Bool-cases (id == j)) [
          | inl i ↦ absurd (ground (arith, lookup-erase id j s.operations))
          | inr i ↦
              let r = h.running j c (ground (arith, lookup-erase id j s.operations)) in
              record {
                same = r.same;
                runs = r.runs;
                unfinished = ground (arith, finished-after j, r.unfinished, same);
                accepted = r.accepted;
              }
        ];
        settled = λ j a. elim (Bool-cases (id == j)) [
          | inl i ↦ inl (ground (arith, finished-after j, same))
          | inr i ↦ elim (h.settled j a) [
            | inl f ↦ inl (ground (arith, finished-after j))
            | inr (c, at) ↦ inr (c, ground (arith, lookup-erase id j s.operations))
          ]
        ];
        known = known-after;
      }
