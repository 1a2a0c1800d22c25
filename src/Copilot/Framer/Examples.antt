-- ===== src/Copilot/Framer/Examples.antt =====
-- internal/copilot/stream_sse.go: Push on a small stream.
use cpa_github_copilot.Common.{
  ◌≡◌, refl, Bool, List, [], ◌∷◌, ◌++◌, ltb, length, if◌then◌else◌, Bytes, Bytes_eq, bytes_eq, ◌==◌,
  codes, trim_space, has_prefix, split,
}
use cpa_github_copilot.Copilot.Framer.{
  new_sse_framer, push, pushed, buffer_exceeded, drain, next_boundary, next_complete_sse_data_line,
  next_sse_separator, index_of, add_frame, is_complete_stream_data,
}
use cpa_github_copilot.Copilot.Framer.Pushing.{Drained, push_conserves}

valid : Bytes → Bool
valid s = s == codes "{}"

two_events : Bytes
two_events = codes "data: {}" ++ 10 ∷ 10 ∷ codes "data: [DO"

-- The second event has to wait for the rest of its line.
split_event :
    push valid (new_sse_framer 0) two_events
    ≡ pushed (codes "data: {}" ∷ []) (record { buffer = codes "data: [DO"; max_size = 4194304 })
unfolding push new_sse_framer valid two_events drain next_boundary next_complete_sse_data_line
    next_sse_separator index_of add_frame is_complete_stream_data split bytes_eq trim_space
    has_prefix
split_event = refl

push_conserves_example :
    (frames : List Bytes) × (rest : Bytes) × Drained valid two_events frames rest
    × (push valid (new_sse_framer 8) two_events ≡ (
        if ltb 8 (length rest)
        then buffer_exceeded (record { buffer = rest; max_size = 8 })
        else pushed frames (record { buffer = rest; max_size = 8 })))
unfolding new_sse_framer
push_conserves_example = push_conserves valid (new_sse_framer 8) two_events
