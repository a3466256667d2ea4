-- ===== src/Restart.antt =====
-- A restart across components: a session is resumed from the session store, and the inbox of the
-- new process is made from what the store gives back (harness/inbox/local.go, `New`, with
-- `ResumeState.ExternalInputIDs`).
pub mod Examples
use heuristic.Prelude.{
  ℕ, zero, suc, ◌+◌, ◌-◌, ◌*◌, ◌%◌, ◌^◌, ◌≤◌, ◌<◌, String, ◌≡◌, refl, sym, ap, ◌∙◌, subst, ◌≢◌, ◌↔◌,
  ◌⊎◌, inl, inr, Bool, true, false, ◌&&◌, ◌||◌, not, Option, none, some, List, [], ◌∷◌, ◌++◌, map,
  arith, ltb, leb, if◌then◌else◌, ltb→lt, lt→ltb, leb→le, Bool-cases, Option-cases, if-intro, Eq,
  ◌==◌, nat_eq, string_eq, pair_eq, ℤ, pos, negsuc, length, get_elem?, set, take, drop,
  length-append, length-set, get_elem?-append_left, get_elem?-append_last, get_elem?-lt,
  get_elem?-set_self, get_elem?-set_ne, All, All-append, All-append_left, All-append_right, All-map,
  All-set, All-get_elem?, contains, contains-cons, contains-append, get_elem?-append_cases,
  get_elem?-set_cases, discard, contains-discard,
}
use heuristic.Prelude.Exec.{Result, ok, err}
use heuristic.Json.{Json}
use heuristic.SessionStore.{IsTyped, ResumeState}
use heuristic.SessionStore.State.{StoredState, resume}
use heuristic.SessionStore.Resume.{external_ids, resumable, resume_lem}
use heuristic.Inbox.Queue.{Inbox, Event, new, run}
use heuristic.Inbox.Order.{Fresh, run-Fresh}

resume-external_ids :
    (s : StoredState) (r : ResumeState)
    → All IsTyped s.items
    → resume s ≡ ok r
    → r.external_input_ids ≡ external_ids s.items
resume-external_ids s r h e = ground (arith, resume_lem s h)

-- For a state whose items have the data of their kind: the inbox made from what the state resumes
-- with hands out no input whose ID is that of an external input of the history, and no two inputs
-- with the same ID, whatever is submitted and taken.
pub resume-Fresh :
    (j : Json) (s : StoredState) (es : List Event) {r : ResumeState} {q : Inbox}
    → All IsTyped s.items
    → resume s ≡ ok r
    → new r.external_input_ids ≡ ok q
    → Fresh (external_ids s.items) ((run j es q).delivered ++ (run j es q).queued)
resume-Fresh j s es {r} {q} h e n =
    subst (λ ids. Fresh ids ((run j es q).delivered ++ (run j es q).queued))
      (resume-external_ids s r h e) (run-Fresh j r.external_input_ids es n)
