-- ===== src/Copilot/Execute.antt =====
-- internal/copilot/executor.go: `executeRequest` behind the HTTP request, from the service's answer
-- to the body for the client, or the error; and the terminal statuses of bodies that are no streams.
mod Terminated
mod Examples
use cpa_github_copilot.Common.{
  ℕ, Bool, true, false, not, ◌&&◌, ◌||◌, Option, none, some, List, [], ◌∷◌, if◌then◌else◌, ltb, leb,
  nat_eq, any, is_some, Bytes, Bytes_eq, Eq, ◌==◌, codes, trim_space, has_prefix, split,
}
use cpa_github_copilot.Common.Json.{Json, null, object, string, Fields, end, field}
use cpa_github_copilot.Copilot.Terminal.{
  Terminal, completed, incomplete, failed, error_event, Protocol, chat, responses, codex, messages,
  other_protocol, get, put, is_null, string_value, terminal_of, source_terminal_priority, better,
  replace_crlf, source_frame_terminal_status,
}
use cpa_github_copilot.Copilot.Payload.{has_field, is_end}
use cpa_github_copilot.Copilot.Prepare.{ServiceError, refusal, same_protocol}

unfoldable pub non_empty_error_object : Json → Bool
non_empty_error_object (object fields) = not (is_end fields)
non_empty_error_object _ = false

unfoldable pub has_any_field : Fields → List Bytes → Bool
has_any_field value names = any (λ name. has_field name value) names

-- `details["reason"]` where that is a text.
unfoldable pub reason_of : Json → Bytes
reason_of (object details) = string_value (get (codes "reason") details)
reason_of _ = []

-- The `switch` over the status.
unfoldable pub status_terminal : Bytes → Json → Json → Option Terminal
unfolding reason_of non_empty_error_object
status_terminal status error details =
    if status == codes "completed"
    then (if is_null error && is_null details then some completed else none)
    else if status == codes "incomplete"
    then (if (reason_of details == codes "max_output_tokens"
            || reason_of details == codes "content_filter")
          && is_null error
        then some incomplete
        else none)
    else if status == codes "failed"
    then (if non_empty_error_object error && is_null details then some failed else none)
    else none

unfoldable pub responses_object_terminal_status : Fields → Option Terminal
unfolding status_terminal has_any_field
responses_object_terminal_status response =
    if not (string_value (get (codes "object") response) == codes "response")
      || has_any_field response (codes "type" ∷ [])
    then none
    else status_terminal (string_value (get (codes "status") response))
        (get (codes "error") response) (get (codes "incomplete_details") response)

abbrev pub is_error_event : Terminal → Bool
is_error_event error_event = true
is_error_event _ = false

abbrev pub same_terminal : Terminal → Terminal → Bool
same_terminal completed completed = true
same_terminal incomplete incomplete = true
same_terminal failed failed = true
same_terminal error_event error_event = true
same_terminal _ _ = false

-- A body that is an event, of the type `kind`.
unfoldable pub event_terminal : Fields → Bytes → Option Terminal
unfolding has_any_field non_empty_error_object
event_terminal root kind = elim (terminal_of kind) [
  | none ↦ none
  | some t ↦
      if is_error_event t
      then (if not (has_any_field root (codes "response" ∷ codes "object" ∷ codes "status" ∷ []))
            && non_empty_error_object (get (codes "error") root)
          then some error_event
          else none)
      else if has_any_field root (codes "object" ∷ codes "status" ∷ codes "error" ∷ [])
      then none
      else elim (get (codes "response") root) [
        | object response ↦ elim (responses_object_terminal_status response) [
          | none ↦ none
          | some u ↦ if same_terminal u t then some t else none
        ]
        | _ ↦ none
      ]
]

-- The decoded body, with `type` if it has that member.
unfoldable pub root_terminal : Fields → Option Terminal
unfolding event_terminal responses_object_terminal_status
root_terminal root =
    let bare_error = has_field (codes "error") root && not (has_field (codes "object") root) in
    if has_field (codes "type") root
    then elim (get (codes "type") root) [ string kind ↦ event_terminal root kind | _ ↦ none ]
    else if bare_error
    then (if not (has_any_field root (codes "response" ∷ codes "status" ∷ []))
          && non_empty_error_object (get (codes "error") root)
        then some error_event
        else none)
    else responses_object_terminal_status root

abbrev pub is_failure_status : Terminal → Bool
is_failure_status completed = false
is_failure_status incomplete = false
is_failure_status failed = true
is_failure_status error_event = true

-- What the service answered, and how the request was prepared.
pub record Answered : Type 0 where
  pub http_status : ℕ
  pub body : Bytes
  pub upstream_is_responses : Bool
  pub translator : Protocol
  pub output : Protocol

pub data Executed : Type 0 where
  failed_with : ServiceError → Executed
  responded : Bytes → Executed

-- The functions that are parameters: the decoding of JSON, hasUniqueJSONFieldNames, the normalizer
-- for Grok, the table of converters, the converter with the wrapping of its input, and the encoding.
pub record Codecs : Type 0 where
  pub unmarshal : Bytes → Option Fields
  pub type_of : Bytes → Option Bytes
  pub has_unique_names : Bytes → Bool
  pub normalize_grok : Bytes → Bytes
  pub has_converter : Protocol → Protocol → Bool
  pub convert : Protocol → Protocol → Bytes → Bytes
  pub marshal : Json → Option Bytes

module _ (codecs : Codecs) where
  unfoldable pub responses_non_stream_terminal_status : Bytes → Option Terminal
  unfolding root_terminal
  responses_non_stream_terminal_status raw =
      if not (codecs.has_unique_names raw)
      then none
      else elim (codecs.unmarshal raw) [ none ↦ none | some root ↦ root_terminal root ]

  -- The loop over the lines of a body.
  pub best_line : Protocol → Option (Terminal × Bytes) → List Bytes → Option (Terminal × Bytes)
  best_line format best [] = best
  best_line format best (raw ∷ lines) =
      let line = trim_space raw in
      let found =
        better best (
          source_frame_terminal_status codecs.unmarshal codecs.marshal codecs.type_of line
            format) in
      best_line format (if has_prefix (codes "data:") line then found else best) lines

  unfoldable pub source_non_stream_terminal_status : Bytes → Protocol → Option (Terminal × Bytes)
  unfolding best_line
  source_non_stream_terminal_status raw format =
      let by_line = best_line format none (split 10 (replace_crlf raw)) in
      elim (source_frame_terminal_status codecs.unmarshal codecs.marshal codecs.type_of raw
        format) [ some status ↦ some status | none ↦ by_line ]

  -- `rewriteResponsesNonStreamIncomplete`: the object with the status of a truncated response.
  pub incomplete_response : Fields → Bytes → Fields
  incomplete_response response reason =
      put (codes "incomplete_details") (object (field (codes "reason") (string reason) end))
        (put (codes "status") (string (codes "incomplete")) response)

  pub rewritten_root : Fields → Bytes → Option Fields
  unfolding incomplete_response
  rewritten_root root reason =
      let typed =
        if has_field (codes "type") root
        then put (codes "type") (string (codes "response.incomplete")) root
        else root in
      elim (get (codes "response") root) [
        | object response ↦
            some (put (codes "response") (object (incomplete_response response reason)) typed)
        | _ ↦
            if string_value (get (codes "object") root) == codes "response"
            then some (incomplete_response typed reason)
            else none
      ]

  unfoldable pub rewrite_responses_non_stream_incomplete : Bytes → Bytes → Option Bytes
  unfolding rewritten_root
  rewrite_responses_non_stream_incomplete raw reason = elim (codecs.unmarshal raw) [
    | none ↦ none
    | some root ↦ elim (rewritten_root root reason) [
      | none ↦ none
      | some out ↦ codecs.marshal (object out)
    ]
  ]

  -- The converted body, rewritten if the source was cut short.
  pub converted : Answered → Bytes → Option (Terminal × Bytes) → Executed
  unfolding rewrite_responses_non_stream_incomplete
  converted a payload source =
      let mismatch = failed_with (refusal (codes "format_mismatch") 0) in
      let out = codecs.convert a.translator a.output payload in
      if not (codecs.has_converter a.output a.translator) || out == []
      then mismatch
      else elim source [
        | some (incomplete, reason) ↦ elim (rewrite_responses_non_stream_incomplete out reason) [
          | none ↦ mismatch
          | some rewritten ↦ responded rewritten
        ]
        | _ ↦ responded out
      ]

  -- The conversion, with the check on the source's status where the client speaks Responses.
  pub translate_answer : Answered → Bytes → Executed
  unfolding converted source_non_stream_terminal_status
  translate_answer a payload =
      if same_protocol a.translator a.output
      then responded payload
      else if a.upstream_is_responses || not (same_protocol a.output responses)
      then converted a payload none
      else elim (source_non_stream_terminal_status payload a.translator) [
        | none ↦ failed_with (refusal (codes "upstream_protocol_error") 502)
        | some (status, reason) ↦
            if is_failure_status status
            then failed_with (refusal (codes "upstream_response_failed") 502)
            else converted a payload (some (status, reason))
      ]

  unfoldable pub execute_answer : Answered → Executed
  unfolding translate_answer responses_non_stream_terminal_status
  execute_answer a =
      let payload = codecs.normalize_grok a.body in
      if ltb a.http_status 200 || leb 300 a.http_status
      then failed_with (
          refusal (codes "upstream_http_error")
            (if nat_eq a.http_status 0 then 502 else a.http_status))
      else if not a.upstream_is_responses
      then translate_answer a payload
      else elim (responses_non_stream_terminal_status payload) [
        | none ↦ failed_with (refusal (codes "upstream_protocol_error") 502)
        | some status ↦
            if not (same_protocol a.translator a.output) && is_failure_status status
            then failed_with (refusal (codes "upstream_response_failed") 502)
            else translate_answer a payload
      ]
