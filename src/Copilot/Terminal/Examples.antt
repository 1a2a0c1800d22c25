-- ===== src/Copilot/Terminal/Examples.antt =====
-- internal/copilot/stream.go: the tracker on a truncated answer.
use cpa_github_copilot.Common.{
  ◌≤◌, ◌≡◌, refl, ◌⊎◌, Option, some, List, [], ◌∷◌, ◌++◌, All, Bytes, Bytes_eq, bytes_eq, codes,
  split, join, trim_space, has_prefix,
}
use cpa_github_copilot.Common.Json.{Json, string, object, Fields, end, field}
use cpa_github_copilot.Copilot.Framer.{newline}
use cpa_github_copilot.Copilot.Terminal.{
  Terminal, completed, incomplete, error_event, Tracker, new_tracker, responses, observe_source,
  translated_frame, responses_frame_terminal_status, terminal_of, completed_type, stream_frame_data,
  sse_frame_data, data_of, replace_crlf, get, put, rewrite_responses_incomplete_frame,
}
use cpa_github_copilot.Copilot.Terminal.Tracking.{
  observe_sources, severity, In, Holds, observe_sources-severe,
}
use cpa_github_copilot.Copilot.Terminal.Translated.{Backed, Rewritten, translated_frame-authorized}

later : List (Terminal × Bytes)
later = (error_event, []) ∷ (incomplete, codes "max_output_tokens") ∷ []

observe_sources-severe_example :
    (last : Terminal × Bytes) × In last ((completed, []) ∷ later)
    × Holds (observe_sources (new_tracker responses) ((completed, []) ∷ later)) last
    × All (λ s. severity s.0 ≤ severity last.0) ((completed, []) ∷ later)
unfolding new_tracker
observe_sources-severe_example =
    observe_sources-severe (new_tracker responses) (completed, []) later refl refl

-- What the decoder of JSON gives for the frame, and what the encoder gives for the changed event.
completion : Bytes → Option Fields
completion data' = some (
    field (codes "type") (string completed_type) (
      field (codes "response") (object (field (codes "status") (string (codes "completed")) end))
        end))

written_out : Json → Option Bytes
written_out event = some (codes "{...}")

always_completed : Bytes → Option Bytes
always_completed data' = some completed_type

truncated : Tracker
unfolding observe_source new_tracker
truncated = observe_source (new_tracker responses) (incomplete, codes "max_output_tokens")

rewritten_frame : Bytes
rewritten_frame = codes "event: response.incomplete" ++ newline ∷ codes "data: " ++ codes "{...}"

translated_frame-authorized_example :
    ((rewritten_frame ≡ codes "data: {}") × Backed truncated.source_status completed)
    ⊎ ((completed ≡ completed)
        × (truncated.source_status ≡ some incomplete)
        × Rewritten completion written_out always_completed
            (codes "data: {}")
            truncated.source_reason
            rewritten_frame)
unfolding rewritten_frame truncated always_completed completion written_out translated_frame
    responses_frame_terminal_status stream_frame_data sse_frame_data data_of replace_crlf split join
    trim_space has_prefix bytes_eq terminal_of rewrite_responses_incomplete_frame get put
    cpa_github_copilot.Copilot.Terminal.source_terminal_priority
translated_frame-authorized_example =
    translated_frame-authorized completion written_out always_completed truncated (codes "data: {}")
      rewritten_frame completed refl refl refl
