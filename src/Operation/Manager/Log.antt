-- ===== src/Operation/Manager/Log.antt =====
-- The log of the updates that a manager queued, in order.
use heuristic.Prelude.{
  String, ◌≡◌, ◌≢◌, Bool, true, false, ◌&&◌, ◌||◌, List, [], ◌∷◌, ◌++◌, arith, ◌==◌, nat_eq,
  string_eq, pair_eq, All, All-append,
}
use heuristic.Operation.{Operation, is_terminal}

-- Is there a terminal update of the operation?
abbrev pub is_finished : String → List Operation → Bool
is_finished id [] = false
is_finished id (v ∷ vs) = (v.id == id && is_terminal v.status) || is_finished id vs

-- A terminal update of an operation is its last.
abbrev pub IsFinal : List Operation → Type 0
IsFinal [] = Unit
IsFinal (v ∷ vs) =
    (is_terminal v.status ≡ true → All (λ (w : Operation). w.id ≢ v.id) vs) × IsFinal vs

pub is_finished-append :
    (id : String) (log : List Operation) (v : Operation)
    → is_finished id (log ++ v ∷ []) ≡ (is_finished id log || (v.id == id && is_terminal v.status))
is_finished-append id [] v = ground arith
is_finished-append id (w ∷ log) v = ground (arith, is_finished-append id log v)

pub IsFinal-append :
    (log : List Operation) (v : Operation)
    → IsFinal log
    → is_finished v.id log ≡ false
    → IsFinal (log ++ v ∷ [])
IsFinal-append [] v h f = (λ t. tt, tt)
IsFinal-append (w ∷ log) v h f = (
  λ t.
      All-append (λ (x : Operation). x.id ≢ w.id) log (v ∷ []) (h.0 t)
        (λ e. absurd (ground (arith, string_eq.same_iff w.id v.id)), tt),
  IsFinal-append log v h.1 (ground arith),
)
