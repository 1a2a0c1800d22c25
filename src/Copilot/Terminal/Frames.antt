-- ===== src/Copilot/Terminal/Frames.antt =====
-- internal/copilot/stream.go: the data of an SSE frame, and the terminal status that a decoded event
-- of a source has.
use cpa_github_copilot.Common.{
  ℕ, Bool, true, false, not, ◌&&◌, ◌||◌, Option, none, some, List, [], ◌∷◌, if◌then◌else◌, ltb,
  nat_eq, drop, Bytes, Bytes_eq, ◌==◌, codes, trim_space, to_lower, has_prefix, split, join,
}
use cpa_github_copilot.Common.Json.{
  Json, null, string, array, object, Items, nil, cons, Fields, end, field,
}
use cpa_github_copilot.Copilot.Framer.{newline, data_prefix}

-- The protocols of a stream.
pub data Protocol : Type 0 where
  chat responses codex messages other_protocol : Protocol

-- The terminal event types; no status ("") is `none` where one is asked for.
pub data Terminal : Type 0 where
  completed incomplete failed error_event : Terminal

abbrev pub completed_type : Bytes
completed_type = codes "response.completed"

abbrev pub incomplete_type : Bytes
incomplete_type = codes "response.incomplete"

abbrev pub failed_type : Bytes
failed_type = codes "response.failed"

-- `responsesTerminalEventTypes`.
unfoldable pub terminal_of : Bytes → Option Terminal
terminal_of t =
    if t == completed_type
    then some completed
    else if t == incomplete_type
    then some incomplete
    else if t == failed_type
    then some failed
    else if t == codes "error"
    then some error_event
    else none

-- `sourceTerminalPriority`.
unfoldable pub source_terminal_priority : Option Terminal → ℕ
source_terminal_priority none = 0
source_terminal_priority (some completed) = 1
source_terminal_priority (some incomplete) = 2
source_terminal_priority (some failed) = 3
source_terminal_priority (some error_event) = 3

unfoldable pub source_authorizes_translated_terminal : Option Terminal → Terminal → Bool
source_authorizes_translated_terminal (some completed) completed = true
source_authorizes_translated_terminal (some incomplete) incomplete = true
source_authorizes_translated_terminal (some failed) failed = true
source_authorizes_translated_terminal (some error_event) failed = true
source_authorizes_translated_terminal (some failed) error_event = true
source_authorizes_translated_terminal (some error_event) error_event = true
source_authorizes_translated_terminal _ _ = false

-- `bytes.ReplaceAll(raw, "\r\n", "\n")`.
unfoldable pub replace_crlf : Bytes → Bytes
replace_crlf [] = []
replace_crlf (a ∷ []) = a ∷ []
replace_crlf (a ∷ b ∷ s) =
    let rest = replace_crlf (b ∷ s) in if nat_eq a 13 && nat_eq b 10 then rest else a ∷ rest

-- The payloads of the data lines.
unfoldable pub data_of : List Bytes → List Bytes
data_of [] = []
data_of (l ∷ lines) =
    let line = trim_space l in
    let rest = data_of lines in
    if has_prefix data_prefix line then trim_space (drop 5 line) ∷ rest else rest

unfoldable pub sse_frame_data : Bytes → Bytes
sse_frame_data frame = join newline (data_of (split newline (replace_crlf frame)))

unfoldable pub stream_frame_data : Bytes → Bytes
stream_frame_data frame =
    let data' = sse_frame_data frame in if data' == [] then trim_space frame else data'

-- Reads of a decoded event.
unfoldable pub get : Bytes → Fields → Json
get key end = null
get key (field k v fields) = let rest = get key fields in if k == key then v else rest

unfoldable pub fields_of : Json → Fields
fields_of (object fields) = fields
fields_of _ = end

unfoldable pub string_value : Json → Bytes
string_value (string s) = s
string_value _ = []

unfoldable pub is_null : Json → Bool
is_null null = true
is_null _ = false

-- `event["error"]` exists and is not nil.
unfoldable pub has_error : Fields → Bool
has_error event = not (is_null (get (codes "error") event))

unfoldable pub responses_incomplete_reason : Fields → Bytes
responses_incomplete_reason event =
    let response = elim (get (codes "response") event) as (λ _. Fields) [
      | object f ↦ f
      | _ ↦ event
    ] in
    let details = fields_of (get (codes "incomplete_details") response) in
    trim_space (string_value (get (codes "reason") details))

unfoldable pub source_stop_reason_status : Bytes → Protocol → Option (Terminal × Bytes)
source_stop_reason_status raw_reason format =
    let reason = to_lower (trim_space raw_reason) in
    let plain = some (completed, []) in
    if reason == [] then none else elim format [
      | chat ↦
          if reason == codes "length"
          then some (incomplete, codes "max_output_tokens")
          else if reason == codes "content_filter"
          then some (incomplete, codes "content_filter")
          else plain
      | messages ↦
          if reason == codes "max_tokens" || reason == codes "model_context_window_exceeded"
          then some (incomplete, codes "max_output_tokens")
          else plain
      | _ ↦ plain
    ]

-- The better of the best so far and another, which has to be better strictly.
unfoldable pub better :
    Option (Terminal × Bytes) → Option (Terminal × Bytes) → Option (Terminal × Bytes)
better best none = best
better none (some next) = some next
better (some best) (some next) =
    if ltb (source_terminal_priority (some best.0)) (source_terminal_priority (some next.0))
    then some next
    else some best

-- The loop over the choices.
unfoldable pub best_choice : Option (Terminal × Bytes) → Items → Option (Terminal × Bytes)
best_choice best nil = best
best_choice best (cons choice choices) =
    best_choice
      (better best (
        source_stop_reason_status (string_value (get (codes "finish_reason") (fields_of choice)))
          chat))
      choices

unfoldable pub items_of : Json → Items
items_of (array items) = items
items_of _ = nil

unfoldable pub chat_status : Fields → Option (Terminal × Bytes)
chat_status event =
    let best = best_choice none (items_of (get (codes "choices") event)) in
    if has_error event then some (error_event, []) else best

unfoldable pub messages_status : Fields → Option (Terminal × Bytes)
messages_status event =
    let t = string_value (get (codes "type") event) in
    let delta = fields_of (get (codes "delta") event) in
    if t == codes "message_delta"
    then source_stop_reason_status (string_value (get (codes "stop_reason") delta)) messages
    else if t == codes "message_stop"
    then some (completed, [])
    else if t == codes "message"
    then source_stop_reason_status (string_value (get (codes "stop_reason") event)) messages
    else if t == codes "error"
    then some (error_event, [])
    else none
