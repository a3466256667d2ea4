-- ===== src/Operation/Examples/Codecs.antt =====
-- Concrete libraries for the operations: each codec reads back what it writes.
use heuristic.Prelude.{refl, true, none, some, ◌==◌, string_eq, length, not}
use heuristic.Prelude.Bytes.{Bytes, ascii}
use heuristic.Llm.{JsonValue}
use heuristic.Primitive.{ViewImageConfig, ViewImageResult}
use heuristic.Operation.Output.{Utf8}
use heuristic.Operation.Step.{OperationError}
use heuristic.Operation.Examples.{
  Format, number, text, both, through, many, truth, integer, maybe, codec,
}
use heuristic.Operation.Local.{Libraries}
use heuristic.Operation.Shell
use heuristic.Operation.ViewImage
use heuristic.Operation.ViewImage.{ViewImageState}
use heuristic.Operation.SkillUse
use heuristic.Operation.SkillUse.{SkillUseState}
use heuristic.Operation.RemoteJob
use heuristic.Operation.RemoteJob.{RemoteJobState, RemoteJobPlan}
use heuristic.Operation.Value

abbrev pub content : Format Bytes
content = many number

abbrev pub json : Format JsonValue
json = maybe text

-- A decoder of texts in which each byte is a rune.
abbrev pub utf8 : Utf8
utf8 = record {
  decode_rune = λ s. 1;
  decode_last_rune = λ s. 1;
  rune_count = length;
  sanitize = λ s. s;
  decimal = λ n. ascii "1";
}

abbrev pub format : OperationError → Bytes
format e = ascii "operation error"

abbrev pub skill_state : Format SkillUseState
skill_state =
    through (λ x. record { path = x.0; content = x.1.0; terminal_error = x.1.1 })
      (λ s. (s.path, (s.content, s.terminal_error))) (λ s. refl) (both text (both content content))

abbrev pub skills : SkillUse.Library
skills = record { codec = codec skill_state; format = format }

abbrev pub config : Format ViewImageConfig
config =
    through
      (λ x. record {
        max_size = x.0.0;
        max_height = x.0.1;
        max_width = x.1.0;
        max_source_pixels = x.1.1;
      })
      (λ c. ((c.max_size, c.max_height), (c.max_width, c.max_source_pixels))) (λ c. refl)
      (both (both integer integer) (both integer integer))

abbrev pub image_result : Format ViewImageResult
image_result =
    through
      (λ x. record {
        content = x.0.0;
        error = x.0.1;
        original_width = x.1.0.0;
        original_height = x.1.0.1;
        original_mime_type = x.1.1.0;
        encoded_mime_type = x.1.1.1.0;
        scale_ratio = x.1.1.1.1;
      })
      (λ r. (
        (r.content, r.error),
        (
          (r.original_width, r.original_height),
          (r.original_mime_type, (r.encoded_mime_type, r.scale_ratio)),
        ),
      ))
      (λ r. refl)
      (both (both content content) (both (both integer integer) (both text (both text text))))

abbrev pub image_state : Format ViewImageState
image_state =
    through (λ x. record { path = x.0; config = x.1.0; result = x.1.1 })
      (λ s. (s.path, (s.config, s.result))) (λ s. refl)
      (both text (both config (maybe image_result)))

abbrev pub images : ViewImage.Library
images = record { codec = codec image_state; format = format }

abbrev pub plan : Format RemoteJobPlan
plan =
    through (λ x. record { type = x.0; version = x.1.0; content = x.1.1 })
      (λ p. (p.type, (p.version, p.content))) (λ p. refl) (both text (both number json))

abbrev pub remote_state : Format RemoteJobState
remote_state =
    through
      (λ x. record {
        plan = x.0.0;
        handle = x.0.1.0;
        next_inspection_at = x.0.1.1.0;
        outstanding_input = x.0.1.1.1.0;
        subscription = x.0.1.1.1.1;
        terminal_result = x.1.0;
        terminal_error = x.1.1.0;
        result_bytes = x.1.1.1.0;
        result_truncated = x.1.1.1.1.0;
        error_bytes = x.1.1.1.1.1.0;
        error_truncated = x.1.1.1.1.1.1;
      })
      (λ s. (
        (s.plan, (s.handle, (s.next_inspection_at, (s.outstanding_input, s.subscription)))),
        (
          s.terminal_result,
          (
            s.terminal_error,
            (s.result_bytes, (s.result_truncated, (s.error_bytes, s.error_truncated))),
          ),
        ),
      ))
      (λ s. refl)
      (both (both plan (both json (both number (both json json))))
        (both content (both content (both number (both truth (both number truth))))))

abbrev pub remotes : RemoteJob.Library
remotes = record {
  codec = codec remote_state;
  is_valid = λ s. not (s == "");
  utf8 = utf8;
  format = format;
}

abbrev pub values : Value.Library
values = record { codec = codec json; is_valid = λ s. not (s == "") }

abbrev pub libraries : Libraries
libraries = record { values = values; skills = skills; remotes = remotes }

-- A shell state is written as an empty text, and never read.
abbrev pub shells : Shell.Library
shells = record {
  codec = record { encode = λ s. some ""; decode = λ s. none };
  format = format;
  utf8 = utf8;
  encode_text = ascii;
  is_abs = λ s. true;
  base = λ s. s;
  join = λ a b. b;
}
