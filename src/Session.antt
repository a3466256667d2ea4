-- ===== src/Session.antt =====
-- Session and turn identity, harness/session/session.go. A time is a number, 0 for the zero time.
use heuristic.Prelude.{ℕ, String}

pub record Session : Type 0 where
  pub id : String
  pub created_at : ℕ

pub data TurnType : Type 0 where
  regular compaction : TurnType
  other : String → TurnType

pub record Turn : Type 0 where
  pub id : String
  pub previous_turn_id : String
  pub type : TurnType
