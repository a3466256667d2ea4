-- ===== src/Operation/Local/Laws.antt =====
-- The machines of the local manager keep the laws that it relies on.
use heuristic.Prelude.{
  ◌≡◌, sym, ap, ◌∙◌, subst, ◌≢◌, ◌⊎◌, inl, inr, false, Option, none, some, [], arith, Bool-cases,
  if-intro, ◌==◌, nat_eq, string_eq, pair_eq,
}
use heuristic.Prelude.Exec.{Result, ok, err, Result-cases}
use heuristic.Prelude.Bytes.{Bytes}
use heuristic.Primitive.{PrimitiveEvent}
use heuristic.Operation.{Operation, awaiting}
use heuristic.Operation.Machine.{Machine, IsMachine, Ends, failed_start}
use heuristic.Operation.Step.{Step, OperationError}
use heuristic.Operation.SkillUse.Identity.{IsSame, Advances}
use heuristic.Operation.Local.{
  Libraries, LocalActor, plain, shell, image, started_shell, started_image, initialize_local,
  handle_local, fail_local_operation, local_machine,
}
use heuristic.Operation.Local.Steps.{
  IsPlain, advance_local-Advances, advance_local-Ends, Failed, set_failed-Failed, fail_skill-Failed,
  pair_lem, eq_lem, is_lem, ne_lem,
}

module _ (ls : Libraries) where
  module _ {shells images : Machine} (sh : IsMachine shells) (im : IsMachine images) where
    Owned : LocalActor ls shells images → Operation → Type 0
    Owned plain v = IsPlain ls v
    Owned (shell a) v = (v.type ≡ "shell") × sh.Owns a v
    Owned (image a) v = (v.type ≡ "view_image") × im.Owns a v

    Started : LocalActor ls shells images → Operation → Type 0
    Started plain v = v.status ≡ awaiting
    Started (shell a) v = sh.Starts a v
    Started (image a) v = im.Starts a v

    refused_lem :
        (a : LocalActor ls shells images) (v : Operation) (e : OperationError)
        → Owned a v
        → Failed ls v (fail_local_operation ls shells images v e)
    unfolding Owned Failed fail_local_operation
    refused_lem plain v e (s, i, r) =
        if-intro (Failed ls v) (v.type == "skill_use") _ _ (λ b. fail_skill-Failed ls v e _)
          (λ b.
            rw (ne_lem v.type "shell" s, ne_lem v.type "view_image" i, ne_lem v.type "remote_job" r)
              (set_failed-Failed ls v))
    refused_lem (shell a) v e (t, owns) =
        rw (is_lem v.type "shell" "skill_use" t, is_lem v.type "shell" "shell" t)
          (λ next. sh.refused a v e next owns)
    refused_lem (image a) v e (t, owns) =
        rw
          (
            is_lem v.type "view_image" "skill_use" t,
            is_lem v.type "view_image" "shell" t,
            is_lem v.type "view_image" "view_image" t,
          )
          (λ next. im.refused a v e next owns)

    shell_lem :
        {B : Type 0} (r : B × shells.Actor) (x : shells.Actor) (b : B)
        (a' : LocalActor ls shells images)
        → r ≡ (b, x)
        → shell r.1 ≡ a'
        → shell x ≡ a'
    shell_lem r x b a' y p = ap (λ r. shell r.1) (sym y) ∙ p

    image_lem :
        {B : Type 0} (r : B × images.Actor) (x : images.Actor) (b : B)
        (a' : LocalActor ls shells images)
        → r ≡ (b, x)
        → image r.1 ≡ a'
        → image x ≡ a'
    image_lem r x b a' y p = ap (λ r. image r.1) (sym y) ∙ p

    advanced_lem :
        (current next : Operation) (step : Step) (r : Result OperationError Step)
        → Advances current r
        → r ≡ ok step
        → step.operation ≡ some next
        → IsSame current next × ((step.dispatches ≡ []) ⊎ (next.status ≡ awaiting))
    advanced_lem current next step (err e) h p q = absurd (ground arith)
    advanced_lem current next step (ok s) (n, c, same, d) p q =
        let e : s ≡ step = ground arith in
        let i : n ≡ next = ground arith in
        (
          subst (IsSame current) i same,
          subst (λ o. (step.dispatches ≡ []) ⊎ (o.status ≡ awaiting)) i
              (subst (λ t. (t.dispatches ≡ []) ⊎ (n.status ≡ awaiting)) e d),
        )

    checkpoint_lem :
        (current : Operation) (step : Step) (r : Result OperationError Step)
        → Advances current r
        → r ≡ ok step
        → step.operation ≢ none
    checkpoint_lem current step (err e) h p = absurd (ground arith)
    checkpoint_lem current step (ok s) (n, c, same, d) p = λ z. ground arith

    IsPlain-IsSame : (v next : Operation) → IsSame v next → IsPlain ls v → IsPlain ls next
    IsPlain-IsSame v next same (a, b, c) = rw same.type (a, b, c)

    started_lem :
        (v : Operation) (a : LocalActor ls shells images)
        → (v.type == "remote_job") ≡ false
        → initialize_local ls shells images v ≡ ok a
        → Owned a v
    unfolding Owned initialize_local started_shell started_image
    started_lem v a other = elim (Bool-cases (v.type == "shell")) [
      | inl s ↦ elim (Result-cases (shells.initialize v)) [
        | inl (e, q) ↦ λ p. absurd (ground arith)
        | inr (x, q) ↦ λ p.
            let i : shell x ≡ a = ground arith in
            subst (λ (w : LocalActor ls shells images). Owned w v) i
              ((string_eq.same_iff v.type "shell").0 s, sh.initialized v x other q)
      ]
      | inr s ↦ elim (Bool-cases (v.type == "view_image")) [
        | inl m ↦ elim (Result-cases (images.initialize v)) [
          | inl (e, q) ↦ λ p. absurd (ground arith)
          | inr (x, q) ↦ λ p.
              let i : image x ≡ a = ground arith in
              subst (λ (w : LocalActor ls shells images). Owned w v) i
                ((string_eq.same_iff v.type "view_image").0 m, im.initialized v x other q)
        ]
        | inr m ↦ λ p.
            let i : plain ≡ a = ground arith in
            subst (λ (w : LocalActor ls shells images). Owned w v) i
              (
                eq_lem v.type "shell" s,
                eq_lem v.type "view_image" m,
                eq_lem v.type "remote_job" other,
              )
      ]
    ]

    kept_lem :
        (a a' : LocalActor ls shells images) (v : Operation) (e : Option PrimitiveEvent)
        (step : Step)
        → Owned a v
        → handle_local ls shells images a v e ≡ (ok step, a')
        → step.operation ≡ none
        → Owned a' v × ((step.dispatches ≡ []) ⊎ Started a' v)
    unfolding Owned Started handle_local
    kept_lem plain a' v e step owns p q =
        absurd (checkpoint_lem v step _ (advance_local-Advances ls v e) (ap (λ r. r.0) p) q)
    kept_lem (shell a) a' v e step (t, owns) p q =
        let (x, y) = pair_lem (shells.handle a v e) (ok step) (ap (λ r. r.0) p) in
        let (o, d) = sh.kept a x v e step owns y q in
        let z = shell_lem _ x (ok step) a' y (ap (λ r. r.1) p) in
        (
          subst (λ (w : LocalActor ls shells images). Owned w v) z (t, o),
          subst (λ (w : LocalActor ls shells images). (step.dispatches ≡ []) ⊎ Started w v) z d,
        )
    kept_lem (image a) a' v e step (t, owns) p q =
        let (x, y) = pair_lem (images.handle a v e) (ok step) (ap (λ r. r.0) p) in
        let (o, d) = im.kept a x v e step owns y q in
        let z = image_lem _ x (ok step) a' y (ap (λ r. r.1) p) in
        (
          subst (λ (w : LocalActor ls shells images). Owned w v) z (t, o),
          subst (λ (w : LocalActor ls shells images). (step.dispatches ≡ []) ⊎ Started w v) z d,
        )

    advance_lem :
        (a a' : LocalActor ls shells images) (v next : Operation) (e : Option PrimitiveEvent)
        (step : Step)
        → Owned a v
        → handle_local ls shells images a v e ≡ (ok step, a')
        → step.operation ≡ some next
        → (next.id ≡ v.id)
          × (next.type ≡ v.type)
          × Owned a' next
          × ((step.dispatches ≡ []) ⊎ Started a' next)
    unfolding Owned Started handle_local
    advance_lem plain a' v next e step owns p q =
        let (same, d) =
          advanced_lem v next step _ (advance_local-Advances ls v e) (ap (λ r. r.0) p) q in
        let i : plain ≡ a' = ap (λ r. r.1) p in
        (
          same.id,
          same.type,
          subst (λ (w : LocalActor ls shells images). Owned w next) i
              (IsPlain-IsSame v next same owns),
          subst (λ (w : LocalActor ls shells images). (step.dispatches ≡ []) ⊎ Started w next) i d,
        )
    advance_lem (shell a) a' v next e step (t, owns) p q =
        let (x, y) = pair_lem (shells.handle a v e) (ok step) (ap (λ r. r.0) p) in
        let (i, k, o, d) = sh.advanced a x v next e step owns y q in
        let z = shell_lem _ x (ok step) a' y (ap (λ r. r.1) p) in
        (
          i,
          k,
          subst (λ (w : LocalActor ls shells images). Owned w next) z (k ∙ t, o),
          subst (λ (w : LocalActor ls shells images). (step.dispatches ≡ []) ⊎ Started w next) z d,
        )
    advance_lem (image a) a' v next e step (t, owns) p q =
        let (x, y) = pair_lem (images.handle a v e) (ok step) (ap (λ r. r.0) p) in
        let (i, k, o, d) = im.advanced a x v next e step owns y q in
        let z = image_lem _ x (ok step) a' y (ap (λ r. r.1) p) in
        (
          i,
          k,
          subst (λ (w : LocalActor ls shells images). Owned w next) z (k ∙ t, o),
          subst (λ (w : LocalActor ls shells images). (step.dispatches ≡ []) ⊎ Started w next) z d,
        )

    unstarted_lem :
        (a a' : LocalActor ls shells images) (v : Operation) (text : Bytes) (step : Step)
        → Started a v
        → handle_local ls shells images a v (some (failed_start v text)) ≡ (ok step, a')
        → Ends v step
    unfolding Started handle_local
    unstarted_lem plain a' v text step starts p =
        advance_local-Ends ls v text step starts (ap (λ r. r.0) p)
    unstarted_lem (shell a) a' v text step starts p =
        let (x, y) = pair_lem (shells.handle a v _) (ok step) (ap (λ r. r.0) p) in
        sh.unstarted a x v text step starts y
    unstarted_lem (image a) a' v text step starts p =
        let (x, y) = pair_lem (images.handle a v _) (ok step) (ap (λ r. r.0) p) in
        im.unstarted a x v text step starts y

    pub local_machine-IsMachine : IsMachine (local_machine ls shells images)
    unfolding Failed
    local_machine-IsMachine = record {
      Owns = Owned;
      Starts = Started;
      initialized = started_lem;
      kept = kept_lem;
      advanced = advance_lem;
      unstarted = unstarted_lem;
      refused = λ a v e next owns. refused_lem a v e owns next;
    }
