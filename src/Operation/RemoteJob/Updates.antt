-- ===== src/Operation/RemoteJob/Updates.antt =====
-- The updates of a remote job that `validateRemoteJobUpdate` accepts.
use heuristic.Prelude.{
  ℕ, ◌≡◌, refl, ap, inl, inr, true, false, none, arith, leb, nat_eq, string_eq, pair_eq, ℤ, pos,
  negsuc,
}
use heuristic.Prelude.Exec.{ok, Result-cases}
use heuristic.Llm.{bytes}
use heuristic.Operation.{
  Operation, Status, is_terminal, ready, awaiting, canceling, completed, failed, canceled, other,
}
use heuristic.Operation.RemoteJob.{
  Library, RemoteJobState, decode_remote_job_state, validate_remote_job_update, validate_states,
  is_valid_transition, int_same, same_plan,
}

int_same_lem : (a b : ℤ) → int_same a b ≡ true → a ≡ b
unfolding int_same
int_same_lem (pos a) (pos b) h = ap pos ((nat_eq.same_iff a b).0 h)
int_same_lem (negsuc a) (negsuc b) h = ap negsuc ((nat_eq.same_iff a b).0 h)
int_same_lem (pos a) (negsuc b) h = absurd (ground arith)
int_same_lem (negsuc a) (pos b) h = absurd (ground arith)

-- How far a job has got.
abbrev pub rank : Status → ℕ
rank ready = 1
rank awaiting = 2
rank canceling = 3
rank completed = 4
rank failed = 4
rank canceled = 4
rank (other text) = 0

transition_lem :
    (a b : Status)
    → is_valid_transition a b ≡ true
    → (is_terminal a ≡ false) × (leb (rank a) (rank b) ≡ true)
unfolding is_valid_transition is_terminal
transition_lem ready ready h = absurd (ground arith)
transition_lem ready awaiting h = (refl, refl)
transition_lem ready canceling h = (refl, refl)
transition_lem ready completed h = (refl, refl)
transition_lem ready failed h = (refl, refl)
transition_lem ready canceled h = (refl, refl)
transition_lem ready (other text) h = absurd (ground arith)
transition_lem awaiting ready h = absurd (ground arith)
transition_lem awaiting awaiting h = (refl, refl)
transition_lem awaiting canceling h = (refl, refl)
transition_lem awaiting completed h = (refl, refl)
transition_lem awaiting failed h = (refl, refl)
transition_lem awaiting canceled h = (refl, refl)
transition_lem awaiting (other text) h = absurd (ground arith)
transition_lem canceling ready h = absurd (ground arith)
transition_lem canceling awaiting h = absurd (ground arith)
transition_lem canceling canceling h = (refl, refl)
transition_lem canceling completed h = absurd (ground arith)
transition_lem canceling failed h = (refl, refl)
transition_lem canceling canceled h = (refl, refl)
transition_lem canceling (other text) h = absurd (ground arith)
transition_lem completed b h = absurd (ground arith)
transition_lem failed b h = absurd (ground arith)
transition_lem canceled b h = absurd (ground arith)
transition_lem (other text) b h = absurd (ground arith)

-- What an update keeps of its job.
pub record Follows (l : Library) (current updated : Operation) : Type 0 where
  pub unfinished : is_terminal current.status ≡ false
  pub progress : leb (rank current.status) (rank updated.status) ≡ true
  pub limit : updated.max_output_length ≡ current.max_output_length
  pub type : updated.type ≡ current.type
  pub version : updated.version ≡ current.version
  pub before : RemoteJobState
  pub after : RemoteJobState
  pub was : decode_remote_job_state l current ≡ ok before
  pub is : decode_remote_job_state l updated ≡ ok after
  pub plan_type : after.plan.type ≡ before.plan.type
  pub plan_version : after.plan.version ≡ before.plan.version
  pub plan_content : bytes after.plan.content ≡ bytes before.plan.content

-- `validateRemoteJobUpdate` accepts an update only of a job that has not ended and whose state
-- decodes; the update decodes too, keeps the output limit, the type, the version and the plan, and
-- does not go back in the order ready, awaiting, canceling, ended.
pub validate_remote_job_update-Follows :
    (l : Library) (current updated : Operation)
    → validate_remote_job_update l current updated ≡ none
    → Follows l current updated
unfolding validate_remote_job_update validate_states same_plan
validate_remote_job_update-Follows l current updated e =
    elim (Result-cases (decode_remote_job_state l current)) [
      | inl (x, c) ↦ absurd (ground arith)
      | inr (before, c) ↦ elim (Result-cases (decode_remote_job_state l updated)) [
        | inl (x, d) ↦ absurd (ground arith)
        | inr (after, d) ↦
            let (unfinished, progress) =
              transition_lem current.status updated.status (ground arith) in
            record {
              unfinished = unfinished;
              progress = progress;
              limit =
                  int_same_lem updated.max_output_length current.max_output_length (ground arith);
              type = ground (arith, string_eq.same_iff updated.type current.type);
              version = ground (arith, nat_eq.same_iff updated.version current.version);
              before = before;
              after = after;
              was = c;
              is = d;
              plan_type = ground (arith, string_eq.same_iff after.plan.type before.plan.type);
              plan_version = ground (arith, nat_eq.same_iff after.plan.version before.plan.version);
              plan_content = ground (
                arith,
                string_eq.same_iff (bytes after.plan.content) (bytes before.plan.content),
              );
            }
      ]
    ]
