-- ===== src/Copilot/Forward/Failures.antt =====
-- internal/copilot/stream.go: the errors that end a forwarded stream.
use cpa_github_copilot.Common.{
  Bool, true, false, ◌&&◌, ◌||◌, Option, some, List, [], ◌∷◌, if◌then◌else◌, any, is_some, Bytes,
  Bytes_eq, ◌==◌, codes, trim_space, to_lower,
}
use cpa_github_copilot.Copilot.Framer.{index_of}

-- The categories of `classifyUpstreamStreamError`.
pub data Cause : Type 0 where
  canceled remote_canceled timeout eof connection_reset other_cause : Cause

unfoldable pub contains_text : Bytes → Bytes → Bool
contains_text s part = is_some (index_of part s)

unfoldable pub contains_any : Bytes → List Bytes → Bool
unfolding contains_text
contains_any s parts = any (contains_text s) parts

unfoldable pub classify_upstream_stream_error : Bytes → Cause
unfolding contains_any
classify_upstream_stream_error raw =
    let lower = to_lower (trim_space raw) in
    let contains = contains_text lower in
    if lower == []
    then other_cause
    else if contains_any lower
        (codes "deadline exceeded" ∷ codes "timed out" ∷ codes "timeout" ∷ [])
    then timeout
    else if contains (codes "stream error:") && contains (codes "cancel")
    then remote_canceled
    else if lower == codes "context canceled" || lower == codes "net/http: request canceled"
    then canceled
    else if contains (codes "cancel")
    then remote_canceled
    else if contains_any lower (
        codes "connection reset"
        ∷ codes "broken pipe"
        ∷ codes "use of closed network connection"
        ∷ [])
    then connection_reset
    else if contains_any lower (codes "eof" ∷ [])
    then eof
    else other_cause

-- `streamForwardError`, by its reason.
pub data ForwardError : Type 0 where
  downstream_closed read_failed buffer_limit missing_terminal_event service_shutdown : ForwardError
  upstream_error : Option Cause → ForwardError
  upstream_canceled : ForwardError

-- `benign`.
unfoldable pub is_benign : ForwardError → Bool
is_benign downstream_closed = true
is_benign service_shutdown = true
is_benign upstream_canceled = true
is_benign _ = false

unfoldable pub new_upstream_stream_error : Bytes → ForwardError
new_upstream_stream_error raw = elim (classify_upstream_stream_error raw) [
  | canceled ↦ upstream_canceled
  | cause ↦ upstream_error (some cause)
]
