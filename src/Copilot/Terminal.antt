-- ===== src/Copilot/Terminal.antt =====
-- internal/copilot/stream.go: what counts as the terminal event of a stream, and the tracker of it.
-- `unmarshal` stands for `json.Unmarshal` into a map (of which each key occurs once), `type_of` for
-- that into the struct with the field `type`, and `marshal` for `json.Marshal`.
mod Frames
pub mod Members
mod Tracking
mod Translated
mod Examples
unfoldable pub use Frames.*
use cpa_github_copilot.Common.{
  Bool, true, false, not, ◌&&◌, ◌||◌, Option, none, some, [], ◌∷◌, ◌++◌, if◌then◌else◌, ltb, nat_eq,
  Bytes, Bytes_eq, ◌==◌, codes,
}
use cpa_github_copilot.Common.Json.{Json, string, object, Fields, end, field}
use cpa_github_copilot.Copilot.Framer.{newline, done_mark}

pub record Tracker : Type 0 where
  pub active : Bool
  pub seen : Bool
  pub source_status : Option Terminal
  pub source_reason : Bytes
  pub status : Option Terminal

pub is_responses : Protocol → Bool
is_responses responses = true
is_responses _ = false

unfoldable pub new_tracker : Protocol → Tracker
unfolding is_responses
new_tracker output = record {
  active = is_responses output;
  seen = false;
  source_status = none;
  source_reason = [];
  status = none;
}

unfoldable pub observe_source : Tracker → Terminal × Bytes → Tracker
observe_source t (status, reason) =
    if not t.active
      || not
          (ltb (source_terminal_priority t.source_status) (source_terminal_priority (some status)))
    then t
    else record t { source_status = some status; source_reason = reason }

unfoldable pub allows_source_translation : Tracker → Bytes → Bool
allows_source_translation t frame =
    not t.active
    || not (stream_frame_data frame == done_mark)
    || elim t.source_status [ some completed ↦ true | some incomplete ↦ true | _ ↦ false ]

unfoldable pub missing_terminal : Tracker → Bool
missing_terminal t = t.active && not t.seen

-- `terminalStatus`: `none` where nothing is observed, `some none` for "missing".
unfoldable pub terminal_status : Tracker → Option (Option Terminal)
terminal_status t = if not t.active then none else if t.seen then some t.status else some none

-- `event["type"] = …` and the like.
unfoldable pub put : Bytes → Json → Fields → Fields
put key v end = field key v end
put key v (field k w fields) =
    let rest = put key v fields in if k == key then field k v fields else field k w rest

module _ (type_of : Bytes → Option Bytes) where
  unfoldable pub responses_frame_terminal_status : Bytes → Option Terminal
  responses_frame_terminal_status frame =
      let data' = stream_frame_data frame in
      if data' == [] then none else elim (type_of data') [ none ↦ none | some t ↦ terminal_of t ]

  unfoldable pub observe : Tracker → Bytes → Tracker
  observe t frame = elim (responses_frame_terminal_status frame) [
    | none ↦ t
    | some status ↦
        if not t.active || t.seen then t else record t { seen = true; status = some status }
  ]

pub is_incomplete : Option Terminal → Bool
is_incomplete (some incomplete) = true
is_incomplete _ = false

module _ (unmarshal : Bytes → Option Fields) (marshal : Json → Option Bytes)
    (type_of : Bytes → Option Bytes) where
  pub responses_status : Bytes → Bytes → Option (Terminal × Bytes)
  responses_status frame data' = elim (responses_frame_terminal_status type_of frame) [
    | some status ↦ elim (unmarshal data') [
      | none ↦ some (status, responses_incomplete_reason end)
      | some event ↦ some (status, responses_incomplete_reason event)
    ]
    | none ↦ elim (unmarshal data') [
      | none ↦ none
      | some event ↦ if has_error event then some (error_event, []) else none
    ]
  ]

  unfoldable pub source_frame_terminal_status : Bytes → Protocol → Option (Terminal × Bytes)
  unfolding responses_status
  source_frame_terminal_status frame format =
      let data' = stream_frame_data frame in
      if data' == [] || data' == done_mark then none else elim format [
        | responses ↦ responses_status frame data'
        | codex ↦ responses_status frame data'
        | chat ↦ elim (unmarshal data') [ none ↦ none | some event ↦ chat_status event ]
        | messages ↦ elim (unmarshal data') [ none ↦ none | some event ↦ messages_status event ]
        | other_protocol ↦ none
      ]

  -- The object that `rewriteResponsesIncompleteFrame` writes.
  pub incomplete_event : Fields → Fields → Bytes → Json
  incomplete_event event response reason =
      let details = object (field (codes "reason") (string reason) end) in
      let response' =
        put (codes "incomplete_details") details
          (put (codes "status") (string (codes "incomplete")) response) in
      object (
        put (codes "response") (object response')
          (put (codes "type") (string incomplete_type) event))

  unfoldable pub rewrite_responses_incomplete_frame : Bytes → Bytes → Option Bytes
  unfolding incomplete_event
  rewrite_responses_incomplete_frame frame reason = elim (unmarshal (stream_frame_data frame)) [
    | none ↦ none
    | some event ↦ elim (get (codes "response") event) [
      | object response ↦ elim (marshal (incomplete_event event response reason)) [
        | none ↦ none
        | some encoded ↦
            some (codes "event: response.incomplete" ++ newline ∷ codes "data: " ++ encoded)
      ]
      | _ ↦ none
    ]
  ]

  -- `translatedFrame`: the frame to send, if any is allowed.
  unfoldable pub translated_frame : Tracker → Bytes → Option Bytes
  unfolding is_incomplete
  translated_frame t frame =
      if not t.active then some frame else elim (responses_frame_terminal_status type_of frame) [
        | none ↦ some frame
        | some completed ↦
            if is_incomplete t.source_status
            then rewrite_responses_incomplete_frame frame t.source_reason
            else if source_authorizes_translated_terminal t.source_status completed
            then some frame
            else none
        | some status ↦
            if source_authorizes_translated_terminal t.source_status status
            then some frame
            else none
      ]
