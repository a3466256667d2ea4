-- ===== src/Inbox/Order.antt =====
-- What the inbox hands out: each submitted input once, in order of first submission.
use heuristic.Prelude.{
  String, ◌≡◌, refl, sym, ap, ◌∙◌, true, false, ◌||◌, none, some, List, [], ◌∷◌, ◌++◌, arith, ◌==◌,
  nat_eq, string_eq, pair_eq, contains, contains-cons,
}
use heuristic.Prelude.Exec.{Result, ok, err}
use heuristic.Json.{Json}
use heuristic.Inbox.{Input, InputError, validate}
use heuristic.Inbox.Queue.{
  Inbox, Event, submits, takes, run, new, send, deliver, collect_seen, start,
}
use mathlib.Core.List.{append_assoc, append-nil}

-- The specification: of the submitted inputs in order, the valid ones whose ID was not seen before.
unfoldable pub first_submissions : Json → List String → List Event → List Input
first_submissions j seen [] = []
first_submissions j seen (takes ∷ es) = first_submissions j seen es
first_submissions j seen (submits i ∷ es) = elim (validate j i) [
  | some e ↦ first_submissions j seen es
  | none ↦ elim (contains seen i.id) [
    | true ↦ first_submissions j seen es
    | false ↦ i ∷ first_submissions j (i.id ∷ seen) es
  ]
]

send_keeps :
    (q : List Input) (s : Inbox)
    → s.queued ≡ q
    → ((send q s).delivered ++ (send q s).queued ≡ s.delivered ++ s.queued)
      × ((send q s).seen ≡ s.seen)
unfolding send
send_keeps [] s e = (refl, refl)
send_keeps (next ∷ rest) s e =
    (append_assoc s.delivered (next ∷ []) rest ∙ ap (λ l. s.delivered ++ l) (sym e), refl)

run_appends :
    (j : Json) (es : List Event) (s : Inbox)
    → (run j es s).delivered ++ (run j es s).queued
      ≡ (s.delivered ++ s.queued) ++ first_submissions j s.seen es
unfolding run first_submissions
run_appends j [] s = sym (append-nil _)
run_appends j (takes ∷ es) s =
    let (kept, seen) = send_keeps s.queued s refl in
    run_appends j es (deliver s) ∙ rw kept (rw seen refl)
run_appends j (submits i ∷ es) s = ground (
  arith,
  run_appends j es s,
  run_appends j es (record s { seen = i.id ∷ s.seen; queued = s.queued ++ i ∷ [] }),
  append_assoc s.delivered s.queued (i ∷ []),
  append_assoc (s.delivered ++ s.queued) (i ∷ []) (first_submissions j (i.id ∷ s.seen) es),
)

-- Two lists of seen IDs that hold the same IDs give the same inputs.
first_submissions_cong :
    (j : Json) (xs ys : List String) (es : List Event)
    → ((a : String) → contains xs a ≡ contains ys a)
    → first_submissions j xs es ≡ first_submissions j ys es
unfolding first_submissions
first_submissions_cong j xs ys [] h = refl
first_submissions_cong j xs ys (takes ∷ es) h = first_submissions_cong j xs ys es h
first_submissions_cong j xs ys (submits i ∷ es) h = ground (
  arith,
  h i.id,
  first_submissions_cong j xs ys es h,
  first_submissions_cong j (i.id ∷ xs) (i.id ∷ ys) es (λ a.
      contains-cons i.id xs a ∙ ap (λ b. i.id == a || b) (h a) ∙ sym (contains-cons i.id ys a)),
)

collect_seen-contains :
    (acc ids seen : List String) (a : String)
    → collect_seen acc ids ≡ ok seen
    → contains seen a ≡ (contains acc a || contains ids a)
unfolding collect_seen contains
collect_seen-contains acc [] seen a h = ground arith
collect_seen-contains acc (id ∷ ids) seen a h =
    ground (arith, collect_seen-contains (id ∷ acc) ids seen a)

start-cases :
    (r : Result InputError (List String)) {s : Inbox}
    → start r ≡ ok s
    → (seen : List String) × (r ≡ ok seen)
      × (s ≡ record { seen = seen; queued = []; delivered = [] })
unfolding start
start-cases (err e) h = cc
start-cases (ok seen) h = (seen, refl, ground arith)

-- What an inbox that knows `ids` has handed out and still holds, after any submissions and takes,
-- is exactly the valid submitted inputs whose ID is not among `ids`, each once, in order of first
-- submission: nothing is lost, repeated or reordered.
pub run-first_submissions :
    (j : Json) (ids : List String) (es : List Event) {s : Inbox}
    → new ids ≡ ok s
    → (run j es s).delivered ++ (run j es s).queued ≡ first_submissions j ids es
unfolding new contains
run-first_submissions j ids es {s} h =
    let (seen, got, same) = start-cases (collect_seen [] ids) h in
    rw same (
      run_appends j es _
      ∙ first_submissions_cong j seen ids es (λ a. collect_seen-contains [] ids seen a got))

-- No two of the inputs share an ID, and none has an ID of `seen`.
abbrev pub Fresh : List String → List Input → Type 0
Fresh seen [] = Unit
Fresh seen (i ∷ is) = (contains seen i.id ≡ false) × Fresh (i.id ∷ seen) is

first_submissions-Fresh :
    (j : Json) (seen : List String) (es : List Event) → Fresh seen (first_submissions j seen es)
unfolding first_submissions
first_submissions-Fresh j seen [] = tt
first_submissions-Fresh j seen (takes ∷ es) = first_submissions-Fresh j seen es
first_submissions-Fresh j seen (submits i ∷ es) =
    ground (arith, first_submissions-Fresh j seen es, first_submissions-Fresh j (i.id ∷ seen) es)

-- An inbox that knows `ids` hands out no input with an ID of `ids` and no two with the same ID,
-- whatever is submitted and taken.
pub run-Fresh :
    (j : Json) (ids : List String) (es : List Event) {s : Inbox}
    → new ids ≡ ok s
    → Fresh ids ((run j es s).delivered ++ (run j es s).queued)
run-Fresh j ids es h = rw (run-first_submissions j ids es h) (first_submissions-Fresh j ids es)
