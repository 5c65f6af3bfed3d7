-- ===== src/Tests/Envelopes.antt =====
-- Envelopes, ids and frames, on small texts.
use swarmbus.Base.{
  ◌≡◌, refl, ◌++◌, ◌⊎◌, ◌↔◌, Text, codes, some, length, arith, All, map, if◌then◌else◌,
}
use swarmbus.Base.Result.{ok, err, value_error}
use swarmbus.Message.Unicode.{is_space, is_unsafe}
use swarmbus.Message.Sanitize.{sanitize_field, IsVisible, sanitize_field_lem}
use swarmbus.Message.Frame.{
  frame_body, split_lines, framed_lines, IsFramed, frame_line, replace_crlf, frame_body_lines,
}
use swarmbus.Message.AgentId.{
  is_id_char, matches_agent_id, validate_agent_id, is_reserved, validate_registered_agent_id,
  IsAgentId, newline, validate_agent_id_iff, validate_registered_agent_id-newline,
}
use swarmbus.Message.Envelope.{
  to_json, from_json, is_valid, valid_id, valid_subject, valid_body, valid_metadata, valid_optional,
  utf8_size,
}
use swarmbus.Message.Envelope.Valid.{IsChecked, IsWellFormed, from_json-IsWellFormed}
use swarmbus.Message.Envelope.RoundTrip.{from_json-to_json}
use swarmbus.Tests.{codec, sample, noon}

alice-IsAgentId : IsAgentId (codes "alice")
unfolding is_id_char
alice-IsAgentId = record { nonempty = omega arith; bounded = omega arith; class = refl }

sample-IsChecked : IsChecked codec sample
unfolding is_valid valid_id valid_subject valid_body valid_metadata valid_optional utf8_size
    matches_agent_id is_space is_unsafe
sample-IsChecked = record { fields = refl; sender = refl; receiver = refl }

from_json-to_json_example : from_json codec (codes "f") noon (to_json codec sample) ≡ ok sample
unfolding to_json
from_json-to_json_example =
    from_json-to_json codec (codes "f") noon sample refl refl refl sample-IsChecked

from_json-IsWellFormed_example : IsWellFormed sample
from_json-IsWellFormed_example =
    from_json-IsWellFormed codec (codes "f") noon (to_json codec sample) {m = sample} (
      from_json-to_json codec (codes "f") noon sample (unfold to_json in refl) refl refl
        sample-IsChecked)

frame_body_lines_example :
    (split_lines (frame_body (codes "a\nb")) ≡ framed_lines (codes "a\nb"))
    × All IsFramed (map frame_line (split_lines (replace_crlf (codes "a\nb"))))
frame_body_lines_example = frame_body_lines (codes "a\nb")

validate_agent_id_iff_example :
    (validate_agent_id (codes "alice") ≡ ok (codes "alice"))
    ↔ ((s : Text) × IsAgentId s × ((codes "alice" ≡ s) ⊎ (codes "alice" ≡ s ++ newline)))
validate_agent_id_iff_example = validate_agent_id_iff (codes "alice")

validate_registered_agent_id-newline_example :
    (validate_registered_agent_id (codes "broadcast")
      ≡ (if is_reserved (codes "broadcast") then err value_error else ok (codes "broadcast")))
    × (validate_registered_agent_id (codes "broadcast" ++ newline)
        ≡ ok (codes "broadcast" ++ newline))
unfolding is_id_char
validate_registered_agent_id-newline_example =
    validate_registered_agent_id-newline (codes "broadcast")
      (record { nonempty = omega arith; bounded = omega arith; class = refl })

sanitize_field_lem_example :
    IsVisible (sanitize_field (some (codes "a\nb")))
    × (length (sanitize_field (some (codes "a\nb"))) ≡ 3)
    × (sanitize_field (some (sanitize_field (some (codes "a\nb"))))
        ≡ sanitize_field (some (codes "a\nb")))
    × (IsVisible (codes "a\nb") → sanitize_field (some (codes "a\nb")) ≡ codes "a\nb")
sanitize_field_lem_example = sanitize_field_lem (codes "a\nb")
