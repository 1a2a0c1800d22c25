-- ===== src/Copilot/Forward/Examples.antt =====
-- internal/copilot/stream.go: both loops on a stream of one event.
use cpa_github_copilot.Common.{
  ℕ, refl, Bool, true, false, Option, none, some, List, [], ◌∷◌, ◌++◌, Bytes, Bytes_eq, bytes_eq,
  codes, split, join, trim_space, has_prefix,
}
use cpa_github_copilot.Common.Json.{Json, Fields, end}
use cpa_github_copilot.Copilot.Framer.{
  push, new_sse_framer, drain, next_boundary, next_complete_sse_data_line, next_sse_separator,
  index_of, add_frame, is_complete_stream_data,
}
use cpa_github_copilot.Copilot.Terminal.{
  responses, completed_type, terminal_of, stream_frame_data, sse_frame_data, data_of, replace_crlf,
  responses_frame_terminal_status, observe, new_tracker, source_frame_terminal_status,
  observe_source, source_terminal_priority, allows_source_translation, translated_frame,
  source_authorizes_translated_terminal, missing_terminal,
}
use cpa_github_copilot.Copilot.Forward.{
  Read, chunk, Pump, Ending, forward, emit_frames, forward_stream_pass_through,
  forward_translated_stream, pass_frame, translated_emit_frame, emit, emit_outputs, new_pump,
  source_protocol_terminal, normalize_sse_frame,
}
use cpa_github_copilot.Copilot.Forward.Returns.{Returns, streams_return}
use cpa_github_copilot.Copilot.Forward.Passed.{Delivered, passed_stream_terminates}
use cpa_github_copilot.Copilot.Forward.Translated.{Terminated, translated_stream_terminates}

valid : Bytes → Bool
valid s = true

empty_event : Bytes → Option Fields
empty_event s = some end

nothing : Json → Option Bytes
nothing event = none

always_completed : Bytes → Option Bytes
always_completed s = some completed_type

accepting : ℕ → Bytes → Bool
accepting n payload = true

keep : Bool → Bytes → Bytes × Bool
keep s frame = (frame, s)

same : Bool → Bytes → List Bytes × Bool
same s frame = (frame ∷ [], s)

reads : List Read
reads = chunk (codes "data: {}" ++ 10 ∷ []) [] false ∷ []

-- The same, with the end of the stream.
ending : List Read
ending = chunk (codes "data: {}" ++ 10 ∷ []) [] true ∷ []

passed : Pump Bool × Ending
unfolding valid
passed =
    forward_stream_pass_through valid empty_event nothing always_completed accepting keep responses
      0 true reads

passed_stream_terminates_example : Delivered always_completed (λ f. f ++ 10 ∷ 10 ∷ []) passed.0
unfolding passed reads keep accepting always_completed valid forward_stream_pass_through forward
    emit_frames pass_frame emit source_protocol_terminal push new_sse_framer drain next_boundary
    next_complete_sse_data_line next_sse_separator index_of add_frame is_complete_stream_data split
    bytes_eq trim_space has_prefix responses_frame_terminal_status stream_frame_data sse_frame_data
    data_of replace_crlf terminal_of observe new_pump join
passed_stream_terminates_example =
    passed_stream_terminates valid empty_event nothing always_completed accepting keep 0 true reads
      passed.0 refl

translated : Pump Bool × Ending
unfolding valid
translated =
    forward_translated_stream valid empty_event nothing always_completed accepting keep same
      responses responses true 0 true reads

translated_stream_terminates_example :
    Terminated valid empty_event nothing always_completed accepting keep same true translated.0
unfolding translated reads keep accepting same always_completed empty_event valid
    forward_translated_stream forward emit_frames translated_emit_frame emit emit_outputs
    source_protocol_terminal push new_sse_framer drain next_boundary next_complete_sse_data_line
    next_sse_separator index_of add_frame is_complete_stream_data split join bytes_eq trim_space
    has_prefix responses_frame_terminal_status stream_frame_data sse_frame_data data_of replace_crlf
    terminal_of observe new_pump normalize_sse_frame source_frame_terminal_status observe_source
    source_terminal_priority allows_source_translation translated_frame
    source_authorizes_translated_terminal new_tracker missing_terminal
translated_stream_terminates_example =
    translated_stream_terminates valid empty_event nothing always_completed accepting keep same
      responses true 0 true reads translated.0 refl

streams_return_example :
    Returns valid (
      forward_stream_pass_through valid empty_event nothing always_completed accepting keep
        responses 0 true ending)
    × Returns valid (
        forward_translated_stream valid empty_event nothing always_completed accepting keep same
          responses responses true 0 true ending)
unfolding ending bytes_eq
streams_return_example =
    streams_return valid empty_event nothing always_completed accepting keep same responses
      responses true 0 true ending refl
