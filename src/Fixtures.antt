-- ===== src/Fixtures.antt =====
-- A concrete JSON library for the examples: every non-empty text is valid, a text input decodes to
-- itself, and the one control message that decodes is the hard stop "hard".
use heuristic.Prelude.{not, none, some, ◌==◌, string_eq, if◌then◌else◌}
use heuristic.Json.{Json, stop_hard}

abbrev pub plain : Json
plain = record {
  is_valid = λ s. not (s == "");
  unmarshal_envelope = λ s.
      if s == "hard"
      then some (record { mode = stop_hard; reason = "stop"; parameters = none })
      else none;
  unmarshal_settings = λ s. none;
  unmarshal_text = λ s. some s;
}
